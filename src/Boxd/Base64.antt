-- ===== src/Boxd/Base64.antt =====
-- base64.StdEncoding, with which internal/boxd/server/process.go carries bytes in JSON texts.
pub mod RoundTrip
use novita_box.Common.{
  ℕ, ◌+◌, ◌-◌, ◌*◌, ◌/◌, ◌%◌, Bool, true, false, ◌&&◌, ◌||◌, Option, none, some, List, [], ◌∷◌,
  ◌++◌, ltb, leb, ◌==◌, if◌then◌else◌,
}
use novita_box.Boxd.Wire.{Bytes}

abbrev pub is_empty : Bytes → Bool
is_empty [] = true
is_empty (b ∷ bs) = false

-- The alphabet: A to Z, a to z, 0 to 9, + and /.
unfoldable pub encode_char : ℕ → ℕ
encode_char n =
    if ltb n 26
    then n + 65
    else if ltb n 52
    then n + 71
    else if ltb n 62
    then n - 4
    else if n == 62
    then 43
    else 47

unfoldable pub decode_char : ℕ → Option ℕ
decode_char c =
    if leb 65 c && leb c 90
    then some (c - 65)
    else if leb 97 c && leb c 122
    then some (c - 71)
    else if leb 48 c && leb c 57
    then some (c + 4)
    else if c == 43
    then some 62
    else if c == 47
    then some 63
    else none

unfoldable pub encode_to_string : Bytes → Bytes
encode_to_string [] = []
encode_to_string (a ∷ []) = encode_char (a / 4) ∷ encode_char (a % 4 * 16) ∷ 61 ∷ 61 ∷ []
encode_to_string (a ∷ b ∷ []) =
    encode_char (a / 4) ∷ encode_char (a % 4 * 16 + b / 16) ∷ encode_char (b % 16 * 4) ∷ 61 ∷ []
encode_to_string (a ∷ b ∷ c ∷ rest) =
    encode_char (a / 4)
    ∷ encode_char (a % 4 * 16 + b / 16)
    ∷ encode_char (b % 16 * 4 + c / 64)
    ∷ encode_char (c % 64)
    ∷ encode_to_string rest

-- Line feeds and carriage returns are passed over wherever they stand.
unfoldable pub without_newlines : Bytes → Bytes
without_newlines [] = []
without_newlines (c ∷ cs) =
    let rest = without_newlines cs in if (c == 10) || (c == 13) then rest else c ∷ rest

-- Four characters of which the last one or the last two may be padding, which ends the text.
-- `more` is what the rest decodes to; the Boolean says that there was no error.
unfoldable pub quantum : Option ℕ → Option ℕ → ℕ → ℕ → Bool → Bytes × Bool → Bytes × Bool
quantum (some a) (some b) c d last more = tail (decode_char c) (decode_char d)
  where
    tail : Option ℕ → Option ℕ → Bytes × Bool
    tail (some x) (some y) =
        ((a * 4 + b / 16) ∷ (b % 16 * 16 + x / 4) ∷ (x % 4 * 64 + y) ∷ more.0, more.1)
    tail (some x) none =
        if d == 61 then ((a * 4 + b / 16) ∷ (b % 16 * 16 + x / 4) ∷ [], last) else ([], false)
    tail none y = if (c == 61) && (d == 61) then ((a * 4 + b / 16) ∷ [], last) else ([], false)
quantum a b c d last more = ([], false)

unfoldable pub decode_quanta : Bytes → Bytes × Bool
decode_quanta [] = ([], true)
decode_quanta (a ∷ b ∷ c ∷ d ∷ rest) =
    quantum (decode_char a) (decode_char b) c d (is_empty rest) (decode_quanta rest)
decode_quanta (a ∷ rest) = ([], false)

-- The bytes that were decoded, and whether there was no error.
unfoldable pub decode_string : Bytes → Bytes × Bool
decode_string text = decode_quanta (without_newlines text)

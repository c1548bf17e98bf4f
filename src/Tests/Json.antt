-- ===== src/Tests/Json.antt =====
-- A concrete encoding of lists of strings, in place of encoding/json: every character of a string
-- stands behind a comma, and a semicolon ends the string. A map is a text here, and encodes as one.
use Prim.Native.Char.{Char, char, code}
use Prim.Native.String.{String, [], ◌∷◌}
use novita_box.Common.{
  Bool, true, false, some, ◌≡◌, refl, arith, eq_iff, str_eq, if◌then◌else◌, ◌==◌,
}
use mathlib.Core.List.{List, [] as nil, ◌∷◌ as ◌∷ᴸ◌}
use text.Mathlib.TextLemmas.{cons≢nil}
use novita_box.Store.Artifact.Templates.{Json}
use novita_box.Store.Artifact.Templates.RoundTrip.{RoundTrips}

abbrev comma : Char
comma = char 44 tt

abbrev semicolon : Char
semicolon = char 59 tt

abbrev bracket : Char
bracket = char 91 tt

abbrev encode_text : String → String → String
encode_text [] rest = semicolon ∷ rest
encode_text (c ∷ s) rest = comma ∷ (c ∷ encode_text s rest)

abbrev encode_all : List String → String
encode_all nil = []
encode_all (s ∷ᴸ ss) = encode_text s (encode_all ss)

abbrev push : Char → List String → List String
push c nil = nil
push c (s ∷ᴸ ss) = (c ∷ s) ∷ᴸ ss

-- A semicolon ends a string, and a comma is followed by a character (`escaped`).
abbrev decode_all : Bool → String → List String
decode_all escaped [] = nil
decode_all true (c ∷ s) = push c (decode_all false s)
decode_all false (c ∷ s) =
    let ended = decode_all false s in
    let more = decode_all true s in if code c == 59 then [] ∷ᴸ ended else more

decode-encode_text :
    (s rest : String) → decode_all false (encode_text s rest) ≡ s ∷ᴸ decode_all false rest
decode-encode_text [] rest = refl
decode-encode_text (c ∷ s) rest = rw (decode-encode_text s rest) refl

decode-encode : (ss : List String) → decode_all false (encode_all ss) ≡ ss
decode-encode nil = refl
decode-encode (s ∷ᴸ ss) = rw (decode-encode_text s (encode_all ss), decode-encode ss) refl

abbrev after_first : String → String
after_first [] = []
after_first (c ∷ s) = s

abbrev pub tagged_json : Json String
tagged_json = record {
  empty_map = [];
  marshal_list = λ ss. some (bracket ∷ encode_all ss);
  unmarshal_list = λ t. some (some (decode_all false (after_first t)));
  marshal_map = λ m. some (bracket ∷ m);
  unmarshal_map = λ t. some (some (after_first t));
}

not_empty : (c : Char) (s : String) → str_eq (c ∷ s) [] ≡ false
not_empty c s = ground (arith, eq_iff (c ∷ s) [], cons≢nil {x = c} {xs = s})

pub tagged_json-RoundTrips : RoundTrips tagged_json
tagged_json-RoundTrips = record {
  list = λ ss t h. ground (arith, decode-encode ss, not_empty bracket (encode_all ss));
  map_ = λ m t h. ground (arith, not_empty bracket m);
}

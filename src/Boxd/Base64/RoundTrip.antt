-- ===== src/Boxd/Base64/RoundTrip.antt =====
-- What is encoded is decoded again.
use novita_box.Common.{
  ℕ, ◌+◌, ◌*◌, ◌/◌, ◌%◌, ◌<◌, ◌≡◌, refl, ap, Bool, true, none, some, [], ◌∷◌, All, arith,
}
use mathlib.Core.Path.{ap₂}
use novita_box.Boxd.Wire.{Bytes}
use novita_box.Boxd.Base64.{
  is_empty, encode_char, decode_char, encode_to_string, without_newlines, quantum, decode_quanta,
  decode_string,
}

abbrev pub IsByte : ℕ → Type 0
IsByte b = b < 256

decode_char-encode_char : (n : ℕ) → n < 64 → decode_char (encode_char n) ≡ some n
unfolding encode_char decode_char
decode_char-encode_char n h = ground arith

without_newlines-encode_char :
    (n : ℕ) (cs : Bytes)
    → without_newlines (encode_char n ∷ cs) ≡ encode_char n ∷ without_newlines cs
unfolding encode_char without_newlines
without_newlines-encode_char n cs = ground arith

without_newlines-encode_to_string :
    (bs : Bytes) → without_newlines (encode_to_string bs) ≡ encode_to_string bs
unfolding encode_to_string
without_newlines-encode_to_string [] = unfold without_newlines in refl
without_newlines-encode_to_string (a ∷ []) =
    rw (without_newlines-encode_char, without_newlines-encode_char)
      (unfold without_newlines in refl)
without_newlines-encode_to_string (a ∷ b ∷ []) =
    rw (without_newlines-encode_char, without_newlines-encode_char, without_newlines-encode_char)
      (unfold without_newlines in refl)
without_newlines-encode_to_string (a ∷ b ∷ c ∷ rest) =
    rw
      (
        without_newlines-encode_char,
        without_newlines-encode_char,
        without_newlines-encode_char,
        without_newlines-encode_char,
        without_newlines-encode_to_string rest,
      )
      refl

decode_char_pad : decode_char 61 ≡ none
unfolding decode_char
decode_char_pad = refl

-- The three shapes of a quantum that the encoder writes.
full_quantum :
    (x y z w : ℕ) (last : Bool) (more : Bytes × Bool)
    → x < 64
    → y < 64
    → z < 64
    → w < 64
    → quantum
        (decode_char (encode_char x))
        (decode_char (encode_char y))
        (encode_char z)
        (encode_char w)
        last
        more
      ≡ ((x * 4 + y / 16) ∷ (y % 16 * 16 + z / 4) ∷ (z % 4 * 64 + w) ∷ more.0, more.1)
unfolding quantum
full_quantum x y z w last more hx hy hz hw =
    rw
      (
        decode_char-encode_char x hx,
        decode_char-encode_char y hy,
        decode_char-encode_char z hz,
        decode_char-encode_char w hw,
      )
      refl

three_char_quantum :
    (x y z : ℕ) (last : Bool) (more : Bytes × Bool)
    → x < 64
    → y < 64
    → z < 64
    → quantum
        (decode_char (encode_char x))
        (decode_char (encode_char y))
        (encode_char z)
        61
        last
        more
      ≡ ((x * 4 + y / 16) ∷ (y % 16 * 16 + z / 4) ∷ [], last)
unfolding quantum
three_char_quantum x y z last more hx hy hz =
    rw
      (
        decode_char-encode_char x hx,
        decode_char-encode_char y hy,
        decode_char-encode_char z hz,
        decode_char_pad,
      )
      refl

two_char_quantum :
    (x y : ℕ) (last : Bool) (more : Bytes × Bool)
    → x < 64
    → y < 64
    → quantum (decode_char (encode_char x)) (decode_char (encode_char y)) 61 61 last more
      ≡ ((x * 4 + y / 16) ∷ [], last)
unfolding quantum
two_char_quantum x y last more hx hy =
    rw (decode_char-encode_char x hx, decode_char-encode_char y hy, decode_char_pad) refl

decode_quanta-encode_to_string :
    (bs : Bytes) → All IsByte bs → decode_quanta (encode_to_string bs) ≡ (bs, true)
unfolding encode_to_string decode_quanta
decode_quanta-encode_to_string [] h = refl
decode_quanta-encode_to_string (a ∷ []) h =
    rw (two_char_quantum (a / 4) (a % 4 * 16) true ([], true) (omega arith) (omega arith))
      (ap (λ (x : ℕ). (x ∷ [], true)) (omega arith))
decode_quanta-encode_to_string (a ∷ b ∷ []) h =
    rw
      (three_char_quantum (a / 4) (a % 4 * 16 + b / 16) (b % 16 * 4) true ([], true) (omega arith)
        (omega arith) (omega arith))
      (ap₂ (λ (x y : ℕ). (x ∷ y ∷ [], true)) (omega arith) (omega arith))
decode_quanta-encode_to_string (a ∷ b ∷ c ∷ rest) h =
    rw
      (
        full_quantum (a / 4) (a % 4 * 16 + b / 16) (b % 16 * 4 + c / 64) (c % 64)
            (is_empty (encode_to_string rest)) (decode_quanta (encode_to_string rest)) (omega arith)
            (omega arith) (omega arith) (omega arith),
        decode_quanta-encode_to_string rest h.1.1.1,
      )
      (rw (first, second, third) refl)
  where
    first : a / 4 * 4 + (a % 4 * 16 + b / 16) / 16 ≡ a
    first = omega arith

    second : (a % 4 * 16 + b / 16) % 16 * 16 + (b % 16 * 4 + c / 64) / 4 ≡ b
    second = omega arith

    third : (b % 16 * 4 + c / 64) % 4 * 64 + c % 64 ≡ c
    third = omega arith

-- Decoding gives back the bytes that were encoded, without an error.
pub decode_string-encode_to_string :
    (bs : Bytes) → All IsByte bs → decode_string (encode_to_string bs) ≡ (bs, true)
unfolding decode_string
decode_string-encode_to_string bs h =
    rw (without_newlines-encode_to_string bs) (decode_quanta-encode_to_string bs h)

pub is_empty-encode_to_string : (bs : Bytes) → is_empty (encode_to_string bs) ≡ is_empty bs
unfolding encode_to_string
is_empty-encode_to_string [] = refl
is_empty-encode_to_string (a ∷ []) = refl
is_empty-encode_to_string (a ∷ b ∷ []) = refl
is_empty-encode_to_string (a ∷ b ∷ c ∷ rest) = refl

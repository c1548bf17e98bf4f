-- ===== src/Boxd/Body/Framing.antt =====
-- What the agent makes of the body of a request, with an envelope and without one.
use mathlib.Core.List.{reverse, reverse-append, reverse-reverse}
use novita_box.Common.{
  ℕ, ◌+◌, ◌-◌, ◌*◌, ◌/◌, ◌%◌, ◌^◌, ◌≤◌, ◌<◌, ◌≡◌, refl, Bool, true, false, ◌&&◌, ◌||◌, [], ◌∷◌,
  ◌++◌, length, length-append, leb, ◌==◌, arith, ap, sym, ◌∙◌,
}
use novita_box.Boxd.Wire.{Bytes, take}
use novita_box.Boxd.Base64.{is_empty}
use novita_box.Boxd.Body.{
  is_space, is_space_two, is_space_three, trim_front, trim_space, without_envelope, request_payload,
  connect_envelope,
}

-- The bytes that some white space of unicode.IsSpace ends with in UTF-8.
abbrev ends_space : ℕ → Bool
ends_space b =
    is_space b
    || ((leb 0x80 b && leb b 0x8a)
        || ((b == 0x9f) || ((b == 0xa0) || ((b == 0xa8) || ((b == 0xa9) || (b == 0xaf))))))

-- A byte with which no white space ends: every other byte of ASCII, the control characters among
-- them, and most of the bytes that other characters end with.
abbrev pub IsSolid : ℕ → Type 0
IsSolid b = ends_space b ≡ false

trim_front_solid :
    (two : ℕ → ℕ → Bool) (three : ℕ → ℕ → ℕ → Bool) (a : ℕ) (bs : Bytes)
    → is_space a ≡ false
    → ((b : ℕ) → two a b ≡ false)
    → ((b c : ℕ) → three a b c ≡ false)
    → trim_front two three (a ∷ bs) ≡ a ∷ bs
unfolding trim_front
trim_front_solid two three a [] h h2 h3 = rw h refl
trim_front_solid two three a (b ∷ []) h h2 h3 = rw (h, h2 b) refl
trim_front_solid two three a (b ∷ c ∷ bs) h h2 h3 = rw (h, h2 b, h3 b c) refl

-- Bytes that begin with 0 or 1 and end with such a byte lose nothing.
trim_space_solid :
    (f b : ℕ) (middle : Bytes)
    → f ≤ 1
    → IsSolid b
    → trim_space (f ∷ (middle ++ (b ∷ []))) ≡ f ∷ (middle ++ (b ∷ []))
unfolding trim_space
trim_space_solid f b middle hf hb =
    ap (λ (bs : Bytes). reverse (from_behind (reverse bs)))
      (trim_front_solid is_space_two is_space_three f (middle ++ (b ∷ [])) (ground arith)
        (λ y. ground arith) (λ y z. ground arith))
    ∙ ap (λ (bs : Bytes). reverse (from_behind bs)) last_first
    ∙ ap reverse (
        trim_front_solid (λ y x. is_space_two x y) (λ z y x. is_space_three x y z) b
          (reverse (f ∷ middle)) (ground arith) (λ y. ground arith) (λ y z. ground arith))
    ∙ ap reverse (sym last_first)
    ∙ reverse-reverse (f ∷ (middle ++ (b ∷ [])))
  where
    from_behind : Bytes → Bytes
    from_behind = trim_front (λ y x. is_space_two x y) (λ z y x. is_space_three x y z)

    last_first : reverse (f ∷ (middle ++ (b ∷ []))) ≡ b ∷ reverse (f ∷ middle)
    last_first = reverse-append (f ∷ middle) (b ∷ [])

take_all : (bs : Bytes) → take (length bs) bs ≡ bs
take_all [] = refl
take_all (b ∷ bs) = ap (λ (rest : Bytes). b ∷ rest) (take_all bs)

without_envelope-connect_envelope :
    (flags : ℕ) (payload : Bytes)
    → flags ≤ 1
    → length payload < 2 ^ 32
    → without_envelope (connect_envelope flags payload) ≡ payload
unfolding without_envelope connect_envelope
without_envelope-connect_envelope flags payload h fits = rw (accepted, size) (take_all payload)
  where
    n : ℕ
    n = length payload % 2 ^ 32

    size :
        ((n / 2 ^ 24 * 256 + n / 2 ^ 16 % 256) * 256 + n / 2 ^ 8 % 256) * 256 + n % 256
        ≡ length payload
    size = omega arith

    accepted :
        (((flags == 0) || (flags == 1))
          && leb
              (((n / 2 ^ 24 * 256 + n / 2 ^ 16 % 256) * 256 + n / 2 ^ 8 % 256) * 256 + n % 256)
              (length payload))
        ≡ true
    accepted = ground arith

last_fills : (front : Bytes) (b : ℕ) → is_empty (front ++ (b ∷ [])) ≡ false
last_fills [] b = refl
last_fills (a ∷ front) b = refl

-- A payload in an envelope with the flags 0 or 1 arrives whole when it is shorter than 2 ^ 32 bytes and its last byte is
-- none that white space in UTF-8 ends with: not 9 to 13, 32, 0x80 to 0x8a, 0x9f, 0xa0, 0xa8, 0xa9
-- and 0xaf.
pub request_payload-connect_envelope :
    (flags b : ℕ) (front : Bytes)
    → flags ≤ 1
    → IsSolid b
    → length front < 2 ^ 32 - 1
    → request_payload (connect_envelope flags (front ++ (b ∷ []))) ≡ front ++ (b ∷ [])
unfolding request_payload
request_payload-connect_envelope flags b front h solid fits = rw (kept, opened, filled) refl
  where
    payload : Bytes
    payload = front ++ (b ∷ [])

    kept : trim_space (connect_envelope flags payload) ≡ connect_envelope flags payload
    kept =
        let n : ℕ = length payload % 2 ^ 32 in
        unfold connect_envelope in
        trim_space_solid flags b (n / 2 ^ 24 ∷ n / 2 ^ 16 % 256 ∷ n / 2 ^ 8 % 256 ∷ n % 256 ∷ front)
          h solid

    opened : without_envelope (connect_envelope flags payload) ≡ payload
    opened =
        without_envelope-connect_envelope flags payload h
          (omega (arith, length-append front (b ∷ [])))

    filled : is_empty payload ≡ false
    filled = last_fills front b

trim_front_space :
    (two : ℕ → ℕ → Bool) (three : ℕ → ℕ → ℕ → Bool) (a : ℕ) (bs : Bytes)
    → is_space a ≡ true
    → trim_front two three (a ∷ bs) ≡ trim_front two three bs
unfolding trim_front
trim_front_space two three a [] h = rw h refl
trim_front_space two three a (b ∷ []) h = rw h refl
trim_front_space two three a (b ∷ c ∷ bs) h = rw h refl

-- The same bytes with one more of white space behind them lose that byte.
trim_space-tail :
    (f b w : ℕ) (middle : Bytes)
    → f ≤ 1
    → IsSolid b
    → is_space w ≡ true
    → trim_space (f ∷ (middle ++ (b ∷ w ∷ []))) ≡ f ∷ (middle ++ (b ∷ []))
unfolding trim_space
trim_space-tail f b w middle hf hb hw =
    ap (λ (bs : Bytes). reverse (from_behind (reverse bs)))
      (trim_front_solid is_space_two is_space_three f (middle ++ (b ∷ w ∷ [])) (ground arith)
        (λ y. ground arith) (λ y z. ground arith))
    ∙ ap (λ (bs : Bytes). reverse (from_behind bs)) (reverse-append (f ∷ middle) (b ∷ w ∷ []))
    ∙ ap reverse (
        trim_front_space (λ y x. is_space_two x y) (λ z y x. is_space_three x y z) w
          (b ∷ reverse (f ∷ middle)) hw
        ∙ trim_front_solid (λ y x. is_space_two x y) (λ z y x. is_space_three x y z) b
            (reverse (f ∷ middle)) (ground arith) (λ y. ground arith) (λ y z. ground arith))
    ∙ ap reverse (sym (reverse-append (f ∷ middle) (b ∷ [])))
    ∙ reverse-reverse (f ∷ (middle ++ (b ∷ [])))
  where
    from_behind : Bytes → Bytes
    from_behind = trim_front (λ y x. is_space_two x y) (λ z y x. is_space_three x y z)

-- An envelope stays on when the body behind it is too short.
short_envelope :
    (f a b c d : ℕ) (rest : Bytes)
    → length rest < ((a * 256 + b) * 256 + c) * 256 + d
    → without_envelope (f ∷ a ∷ b ∷ c ∷ d ∷ rest) ≡ f ∷ a ∷ b ∷ c ∷ d ∷ rest
unfolding without_envelope
short_envelope f a b c d rest h = ground arith

-- A payload of less than 2 ^ 32 bytes in an envelope with the flags 0 or 1, whose last byte is one
-- of the white space 9 to 13 and 32, behind a byte with which none ends, loses this byte, and for that its envelope is not taken off: the reader is given the five
-- bytes of the envelope and the rest of the payload.
pub request_payload-misframed :
    (flags b w : ℕ) (front : Bytes)
    → flags ≤ 1
    → IsSolid b
    → is_space w ≡ true
    → length front < 2 ^ 32 - 2
    → let message = connect_envelope flags (front ++ (b ∷ w ∷ [])) in
      (envelope : Bytes) × (length envelope ≡ 5)
      × (message ≡ envelope ++ (front ++ (b ∷ w ∷ [])))
      × (request_payload message ≡ envelope ++ (front ++ (b ∷ [])))
unfolding request_payload connect_envelope
request_payload-misframed flags b w front h solid space fits = (
  flags ∷ n / 2 ^ 24 ∷ n / 2 ^ 16 % 256 ∷ n / 2 ^ 8 % 256 ∷ n % 256 ∷ [],
  refl,
  refl,
  rw
      (
        trimmed,
        short_envelope flags (n / 2 ^ 24) (n / 2 ^ 16 % 256) (n / 2 ^ 8 % 256) (n % 256)
            (front ++ (b ∷ [])) too_short,
      )
      refl,
)
  where
    n : ℕ
    n = length (front ++ (b ∷ w ∷ [])) % 2 ^ 32

    trimmed :
        trim_space (
          flags
          ∷ n / 2 ^ 24
          ∷ n / 2 ^ 16 % 256
          ∷ n / 2 ^ 8 % 256
          ∷ n % 256
          ∷ (front ++ (b ∷ w ∷ [])))
        ≡ flags ∷ n / 2 ^ 24 ∷ n / 2 ^ 16 % 256 ∷ n / 2 ^ 8 % 256 ∷ n % 256 ∷ (front ++ (b ∷ []))
    trimmed =
        trim_space-tail flags b w
          (n / 2 ^ 24 ∷ n / 2 ^ 16 % 256 ∷ n / 2 ^ 8 % 256 ∷ n % 256 ∷ front) h solid space

    too_short :
        length (front ++ (b ∷ []))
        < ((n / 2 ^ 24 * 256 + n / 2 ^ 16 % 256) * 256 + n / 2 ^ 8 % 256) * 256 + n % 256
    too_short = omega (arith, length-append front (b ∷ []), length-append front (b ∷ w ∷ []))

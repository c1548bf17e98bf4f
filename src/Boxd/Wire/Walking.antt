-- ===== src/Boxd/Wire/Walking.antt =====
-- The walk over the fields of a message takes one field after the other, and ends.
use mathlib.Core.List.{append-nil}
use novita_box.Common.{
  ℕ, zero, suc, ◌+◌, ◌*◌, ◌/◌, ◌%◌, ◌^◌, ◌≤◌, ◌<◌, ◌≡◌, ◌≢◌, ◌∙◌, refl, some, [], ◌∷◌, ◌++◌, length,
  arith, Result, ok, err, ◌>>=◌, inl, inr, Option-cases, Result-cases,
}
use novita_box.Boxd.Wire.{
  Bytes, drop, uvarint_from, uvarint, proto_bytes_field, proto_varint_field, Field, varint_field,
  bytes_field, WireError, stuck, take_bytes, take_varint, take_sized, take_value, take_field, walk,
  walk_proto_fields,
}
use novita_box.Boxd.Wire.Reading.{take_field-proto_varint_field, take_field-proto_bytes_field}

length-uvarint_from :
    {v : ℕ} {rest : Bytes} (i x s : ℕ) (bs : Bytes)
    → uvarint_from i x s bs ≡ some (v, rest)
    → length rest < length bs
unfolding uvarint_from
length-uvarint_from i x s [] e = cc
length-uvarint_from {v = v} {rest = rest} i x s (b ∷ bs) e = ground (
  arith,
  length-uvarint_from {v = v} {rest = rest} (i + 1) ((x + b % 128 * 2 ^ s) % 2 ^ 64) (s + 7) bs,
)

length-uvarint :
    (bs : Bytes) {v : ℕ} {rest : Bytes} → uvarint bs ≡ some (v, rest) → length rest < length bs
unfolding uvarint
length-uvarint bs e = length-uvarint_from 0 0 0 bs e

length-drop : (n : ℕ) (bs : Bytes) → length (drop n bs) ≤ length bs
length-drop zero bs = omega arith
length-drop (suc n) [] = omega arith
length-drop (suc n) (b ∷ bs) = omega (arith, length-drop n bs)

length-take_value :
    (field wire : ℕ) (bs : Bytes) {f : Field} {rest : Bytes}
    → take_value field wire bs ≡ ok (f, rest)
    → length rest ≤ length bs
unfolding take_value take_varint take_sized take_bytes
length-take_value field wire bs e = elim (Option-cases (uvarint bs)) [
  | inl u ↦ ground (arith, u)
  | inr ((size, more), u) ↦ ground (arith, u, length-uvarint bs u, length-drop size more)
]

pub length-take_field :
    (bs : Bytes) {f : Field} {rest : Bytes} → take_field bs ≡ ok (f, rest) → length rest < length bs
unfolding take_field
length-take_field bs {f = f} {rest = rest} e = elim (Option-cases (uvarint bs)) [
  | inl u ↦ ground (arith, u)
  | inr ((key, more), u) ↦ ground (
    arith,
    u,
    length-uvarint bs u,
    length-take_value (key / 8) (key % 8) more {f = f} {rest = rest},
  )
]

take_field-ne-stuck : (bs : Bytes) → take_field bs ≢ err stuck
unfolding take_field take_value take_varint take_sized take_bytes
take_field-ne-stuck bs e = elim (Option-cases (uvarint bs)) [
  | inl u ↦ ground (arith, u)
  | inr ((key, more), u) ↦ elim (Option-cases (uvarint more)) [
    | inl w ↦ ground (arith, u, w)
    | inr ((size, rest), w) ↦ ground (arith, u, w)
  ]
]

module _ {S : Type 0} (fn : Field → S → Result WireError S) where
  -- More fuel than bytes makes no difference.
  walk_fuel :
      (n m : ℕ) (p : Bytes) (s : S) → length p ≤ n → length p ≤ m → walk fn n p s ≡ walk fn m p s
  unfolding walk
  walk_fuel n m [] s hn hm = refl
  walk_fuel zero m (b ∷ p) s hn hm = absurd (omega arith)
  walk_fuel (suc n) zero (b ∷ p) s hn hm = absurd (omega arith)
  walk_fuel (suc n) (suc m) (b ∷ p) s hn hm = elim (Result-cases (take_field (b ∷ p))) [
    | inl (e, h) ↦ rw h refl
    | inr ((field, rest), h) ↦ elim (Result-cases (fn field s)) [
      | inl (e, k) ↦ rw (h, k) refl
      | inr (s', k) ↦
          let shorter = length-take_field (b ∷ p) {f = field} {rest = rest} h in
          rw (h, k) (walk_fuel n m rest s' (omega arith) (omega arith))
    ]
  ]

  -- A field that can be read is given to the callback, and the walk goes on behind it.
  walk_step :
      (p rest : Bytes) (field : Field) (s : S)
      → take_field p ≡ ok (field, rest)
      → walk_proto_fields fn p s ≡ (fn field s >>= walk_proto_fields fn rest)
  unfolding walk_proto_fields walk
  walk_step [] rest field s h =
      absurd (omega (arith, length-take_field [] {f = field} {rest = rest} h))
  walk_step (b ∷ p) rest field s h = elim (Result-cases (fn field s)) [
    | inl (e, k) ↦ rw (h, k) refl
    | inr (s', k) ↦
        let shorter = length-take_field (b ∷ p) {f = field} {rest = rest} h in
        rw (h, k) (walk_fuel (length p) (length rest) rest s' (omega arith) (omega arith))
  ]

  pub walk-nil : (s : S) → walk_proto_fields fn [] s ≡ ok s
  unfolding walk_proto_fields walk
  walk-nil s = refl

  pub walk-proto_varint_field :
      (n u : ℕ) (rest : Bytes) (s : S)
      → n < 2 ^ 60
      → u < 2 ^ 64
      → walk_proto_fields fn (proto_varint_field n u ++ rest) s
        ≡ (fn (varint_field n u) s >>= walk_proto_fields fn rest)
  walk-proto_varint_field n u rest s hn hu =
      walk_step _ rest _ s (take_field-proto_varint_field n u rest hn hu)

  pub walk-proto_bytes_field :
      (n : ℕ) (v rest : Bytes) (s : S)
      → n < 2 ^ 60
      → length v < 2 ^ 64
      → walk_proto_fields fn (proto_bytes_field n v ++ rest) s
        ≡ (fn (bytes_field n v) s >>= walk_proto_fields fn rest)
  walk-proto_bytes_field n v rest s hn hv =
      walk_step _ rest _ s (take_field-proto_bytes_field n v rest hn hv)

  -- The same for the last field of a message.
  then_nothing : (r : Result WireError S) → (r >>= walk_proto_fields fn []) ≡ r
  then_nothing (ok s) = walk-nil s
  then_nothing (err e) = refl

  pub walk-last_varint_field :
      (n u : ℕ) (s : S)
      → n < 2 ^ 60
      → u < 2 ^ 64
      → walk_proto_fields fn (proto_varint_field n u) s ≡ fn (varint_field n u) s
  walk-last_varint_field n u s hn hu =
      rw (append-nil (proto_varint_field n u)) at (walk-proto_varint_field n u [] s hn hu)
      ∙ then_nothing _

  pub walk-last_bytes_field :
      (n : ℕ) (v : Bytes) (s : S)
      → n < 2 ^ 60
      → length v < 2 ^ 64
      → walk_proto_fields fn (proto_bytes_field n v) s ≡ fn (bytes_field n v) s
  walk-last_bytes_field n v s hn hv =
      rw (append-nil (proto_bytes_field n v)) at (walk-proto_bytes_field n v [] s hn hv)
      ∙ then_nothing _

  walk_ends :
      ((field : Field) (s : S) → fn field s ≢ err stuck)
      → (n : ℕ) (p : Bytes) (s : S) → length p ≤ n
      → walk fn n p s ≢ err stuck
  unfolding walk
  walk_ends calm n [] s h e = cc
  walk_ends calm zero (b ∷ p) s h e = omega arith
  walk_ends calm (suc n) (b ∷ p) s h e = elim (Result-cases (take_field (b ∷ p))) [
    | inl (x, k) ↦ ground (arith, k, take_field-ne-stuck (b ∷ p))
    | inr ((field, rest), k) ↦ elim (Result-cases (fn field s)) [
      | inl (x, j) ↦ ground (arith, k, j, calm field s)
      | inr (s', j) ↦
          let shorter = length-take_field (b ∷ p) {f = field} {rest = rest} k in
          walk_ends calm n rest s' (omega arith) (rw (k, j) at e)
    ]
  ]

  -- On every input the walk comes to an end or to an error of its own or of the callback's: the
  -- bytes of the message are turns enough, when the callback does not run out of them.
  pub walk_proto_fields-ne-stuck :
      ((field : Field) (s : S) → fn field s ≢ err stuck)
      → (p : Bytes) (s : S) → walk_proto_fields fn p s ≢ err stuck
  unfolding walk_proto_fields
  walk_proto_fields-ne-stuck calm p s = walk_ends calm (length p) p s (omega arith)

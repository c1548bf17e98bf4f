-- ===== src/Boxd/Wire/Reading.antt =====
-- What the reader of the wire format makes of the fields that the writer wrote.
use novita_box.Common.{
  ℕ, zero, suc, ◌+◌, ◌*◌, ◌/◌, ◌%◌, ◌^◌, ◌<◌, ◌≡◌, refl, false, ltb, length-append, ap, some, [],
  ◌∷◌, ◌++◌, length, arith, ok,
}
use mathlib.Core.List.{append_assoc}
use native.Mathlib.Nat.{div-add-mod}
use native.Mathlib.Numerals.{towards_suc}
use novita_box.Boxd.Wire.{
  Bytes, take, drop, put_uvarint, uvarint_from, uvarint, proto_varint, proto_bytes_field,
  proto_varint_field, varint_field, bytes_field, take_bytes, take_varint, take_sized, take_value,
  take_field,
}

shift_seven : (s : ℕ) → 2 ^ (s + 7) ≡ 128 * 2 ^ s
shift_seven s = simp towards_suc (omega arith)

-- The low seven bits and the rest, both moved up by `s` places.
seven_bits : (x s : ℕ) → x * 2 ^ s ≡ x % 128 * 2 ^ s + x / 128 * 2 ^ (s + 7)
seven_bits x s = omega (
  arith,
  ap (λ (y : ℕ). y * 2 ^ s) (div-add-mod x 128),
  ap (λ (y : ℕ). x / 128 * y) (shift_seven s),
)

uvarint_from-put_uvarint :
    (left i x s v : ℕ) (rest : Bytes)
    → i + left ≡ 9
    → v < 2 * 128 ^ left
    → x + v * 2 ^ s < 2 ^ 64
    → uvarint_from i x s (put_uvarint left v ++ rest) ≡ some (x + v * 2 ^ s, rest)
unfolding put_uvarint uvarint_from
uvarint_from-put_uvarint zero i x s v rest hi hv fits = ground arith
uvarint_from-put_uvarint (suc left) i x s v rest hi hv fits = ground (
  arith,
  seven_bits v s,
  uvarint_from-put_uvarint left (i + 1) (x + v % 128 * 2 ^ s) (s + 7) (v / 128) rest,
)

-- Uvarint reads back a uint64 that PutUvarint wrote, and leaves what follows it.
pub uvarint-proto_varint :
    (v : ℕ) (rest : Bytes) → v < 2 ^ 64 → uvarint (proto_varint v ++ rest) ≡ some (v, rest)
unfolding uvarint proto_varint
uvarint-proto_varint v rest h = ground (arith, uvarint_from-put_uvarint 9 0 0 0 v rest)

take-length : (v rest : Bytes) → take (length v) (v ++ rest) ≡ v
take-length [] rest = refl
take-length (b ∷ v) rest = ap (λ (w : Bytes). b ∷ w) (take-length v rest)

drop-length : (v rest : Bytes) → drop (length v) (v ++ rest) ≡ rest
drop-length [] rest = refl
drop-length (b ∷ v) rest = drop-length v rest

pub take_field-proto_varint_field :
    (n u : ℕ) (rest : Bytes)
    → n < 2 ^ 60
    → u < 2 ^ 64
    → take_field (proto_varint_field n u ++ rest) ≡ ok (varint_field n u, rest)
unfolding take_field take_value take_varint proto_varint_field
take_field-proto_varint_field n u rest hn hu =
    rw (append_assoc, uvarint-proto_varint (n * 8) (proto_varint u ++ rest) (omega arith))
      (rw (div_eight, mod_eight) (rw (uvarint-proto_varint u rest hu) refl))
  where
    div_eight : n * 8 / 8 ≡ n
    div_eight = omega arith

    mod_eight : n * 8 % 8 ≡ 0
    mod_eight = omega arith

pub take_field-proto_bytes_field :
    (n : ℕ) (v rest : Bytes)
    → n < 2 ^ 60
    → length v < 2 ^ 64
    → take_field (proto_bytes_field n v ++ rest) ≡ ok (bytes_field n v, rest)
unfolding take_field take_value take_sized take_bytes proto_bytes_field
take_field-proto_bytes_field n v rest hn hv =
    rw
      (
        append_assoc,
        uvarint-proto_varint (n * 8 + 2) ((proto_varint (length v) ++ v) ++ rest) (omega arith),
      )
      (rw (div_eight, mod_two, append_assoc)
        (rw (uvarint-proto_varint (length v) (v ++ rest) hv, fits, take-length, drop-length) refl))
  where
    div_eight : (n * 8 + 2) / 8 ≡ n
    div_eight = omega arith

    mod_two : (n * 8 + 2) % 8 ≡ 2
    mod_two = omega arith

    fits : ltb (length (v ++ rest)) (length v) ≡ false
    fits = ground (arith, length-append v rest)

-- ===== src/Boxd/Wire.antt =====
-- The protobuf wire format of internal/boxd/server/process.go: varints, fields and the walk over
-- the fields of a message. A byte is a number below 256, and a Go string is its bytes.
pub mod Reading
pub mod Walking
use novita_box.Common.{
  ℕ, zero, suc, ◌+◌, ◌-◌, ◌*◌, ◌/◌, ◌%◌, ◌^◌, ◌<◌, Bool, ◌&&◌, Option, none, some, List, [], ◌∷◌,
  ◌++◌, length, ltb, ◌==◌, if◌then◌else◌, Result, ok, err, or_error, ◌>>=◌,
}

abbrev pub Bytes : Type 0
Bytes = List ℕ

abbrev pub take : ℕ → Bytes → Bytes
take zero bs = []
take (suc n) [] = []
take (suc n) (b ∷ bs) = b ∷ take n bs

abbrev pub drop : ℕ → Bytes → Bytes
drop zero bs = bs
drop (suc n) [] = []
drop (suc n) (b ∷ bs) = drop n bs

-- binary.PutUvarint: `left` counts the bytes of the buffer of ten that are still free but for
-- the last one. `byte(x) | 0x80` is `x % 128 + 128`.
unfoldable pub put_uvarint : ℕ → ℕ → Bytes
put_uvarint zero x = x % 256 ∷ []
put_uvarint (suc left) x =
    let more = put_uvarint left (x / 128) in if ltb x 128 then x ∷ [] else (x % 128 + 128) ∷ more

-- binary.Uvarint: the value and what follows it. `none` stands for a count of bytes that is not
-- positive, which the callers take for one error. `i` counts the bytes that are read.
unfoldable pub uvarint_from : ℕ → ℕ → ℕ → Bytes → Option (ℕ × Bytes)
uvarint_from i x s [] = none
uvarint_from i x s (b ∷ bs) =
    let more = uvarint_from (i + 1) ((x + b % 128 * 2 ^ s) % 2 ^ 64) (s + 7) bs in
    if i == 10
    then none
    else if ltb b 128
    then if (i == 9) && ltb 1 b then none else some ((x + b * 2 ^ s) % 2 ^ 64, bs)
    else more

unfoldable pub uvarint : Bytes → Option (ℕ × Bytes)
uvarint = uvarint_from 0 0 0

unfoldable pub proto_varint : ℕ → Bytes
proto_varint = put_uvarint 9

unfoldable pub proto_bytes_field : ℕ → Bytes → Bytes
proto_bytes_field field value =
    proto_varint (field * 8 + 2) ++ (proto_varint (length value) ++ value)

unfoldable pub proto_string_field : ℕ → Bytes → Bytes
proto_string_field = proto_bytes_field

unfoldable pub proto_varint_field : ℕ → ℕ → Bytes
proto_varint_field field value = proto_varint (field * 8) ++ proto_varint value

-- The arguments of the callback of walkProtoFields.
pub record Field : Type 0 where
  pub number : ℕ
  pub wire : ℕ
  pub value : Bytes
  pub varint : ℕ

abbrev pub varint_field : ℕ → ℕ → Field
varint_field n u = record { number = n; wire = 0; value = []; varint = u }

abbrev pub bytes_field : ℕ → Bytes → Field
bytes_field n v = record { number = n; wire = 2; value = v; varint = 0 }

-- The errors of the walk. `stuck` is none of Go's: the loop of the model ran out of fuel.
pub data WireError : Type 0 where
  invalid_key invalid_varint invalid_length length_exceeds_payload stuck : WireError
  unsupported_wire_type : ℕ → WireError

unfoldable pub take_bytes : ℕ → ℕ → Bytes → Result WireError (Field × Bytes)
take_bytes field size payload =
    if ltb (length payload) size
    then err length_exceeds_payload
    else ok (bytes_field field (take size payload), drop size payload)

unfoldable pub take_varint : ℕ → Bytes → Result WireError (Field × Bytes)
take_varint field payload = do
  (u, rest) ← or_error invalid_varint (uvarint payload)
  ok (varint_field field u, rest)

unfoldable pub take_sized : ℕ → Bytes → Result WireError (Field × Bytes)
take_sized field payload = do
  (size, rest) ← or_error invalid_length (uvarint payload)
  take_bytes field size rest

unfoldable pub take_value : ℕ → ℕ → Bytes → Result WireError (Field × Bytes)
take_value field wire payload =
    if wire == 0
    then take_varint field payload
    else if wire == 2
    then take_sized field payload
    else err (unsupported_wire_type wire)

-- One turn of the loop, up to the call of the callback.
unfoldable pub take_field : Bytes → Result WireError (Field × Bytes)
take_field payload = do
  (key, rest) ← or_error invalid_key (uvarint payload)
  take_value (key / 8) (key % 8) rest

module _ {S : Type 0} (fn : Field → S → Result WireError S) where
  -- What the callback leaves behind an error is not read by any caller.
  unfoldable pub walk : ℕ → Bytes → S → Result WireError S
  walk fuel [] s = ok s
  walk zero (b ∷ bs) s = err stuck
  walk (suc fuel) (b ∷ bs) s = take_field (b ∷ bs) >>= λ r. fn r.0 s >>= λ s'. walk fuel r.1 s'

  -- Every turn takes a byte at least.
  unfoldable pub walk_proto_fields : Bytes → S → Result WireError S
  walk_proto_fields payload s = walk (length payload) payload s

-- On the 32 bits of an int32: the arithmetic shift by 31 places is 0 or all ones, and `xor` with
-- all ones is the complement.
unfoldable pub encode_zig_zag32 : ℕ → ℕ
encode_zig_zag32 bits = if ltb bits (2 ^ 31) then bits * 2 else 2 ^ 32 - 1 - bits * 2 % 2 ^ 32

unfoldable pub bool_varint : Bool → ℕ
bool_varint b = if b then 1 else 0

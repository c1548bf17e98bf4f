-- ===== src/Boxd/Body.antt =====
-- The body of a request and the envelope of a message in a stream: readConnectRequest,
-- writeConnectEnvelope and connectStreamWriter of internal/boxd/server/process.go.
pub mod Framing
use mathlib.Core.List.{reverse}
use novita_box.Common.{
  ℕ, ◌+◌, ◌*◌, ◌/◌, ◌%◌, ◌^◌, Bool, true, false, ◌&&◌, ◌||◌, Option, none, some, List, [], ◌∷◌,
  ◌++◌, map, length, ltb, leb, ◌==◌, if◌then◌else◌, Result, ok, err, or_error,
}
use novita_box.Boxd.Wire.{Bytes, take, WireError}
use novita_box.Boxd.Base64.{is_empty}

pub data ConnectCodec : Type 0 where
  codec_json codec_proto : ConnectCodec

abbrev is_prefix : Bytes → Bytes → Bool
is_prefix [] text = true
is_prefix (a ∷ part) [] = false
is_prefix (a ∷ part) (b ∷ text) = if a == b then is_prefix part text else false

abbrev contains : Bytes → Bytes → Bool
contains [] part = is_empty part
contains (b ∷ text) part = is_prefix part (b ∷ text) || contains text part

-- No character outside of ASCII has one of the letters below as its lower case.
abbrev to_lower : ℕ → ℕ
to_lower c = if leb 65 c && leb c 90 then c + 32 else c

-- The header contains "proto".
unfoldable pub connect_codec_from_content_type : Bytes → ConnectCodec
connect_codec_from_content_type header =
    if contains (map to_lower header) (112 ∷ 114 ∷ 111 ∷ 116 ∷ 111 ∷ [])
    then codec_proto
    else codec_json

-- The white space of unicode.IsSpace in UTF-8: of one byte, of two and of three.
abbrev pub is_space : ℕ → Bool
is_space a = (leb 9 a && leb a 13) || (a == 32)

abbrev pub is_space_two : ℕ → ℕ → Bool
is_space_two a b = (a == 0xc2) && ((b == 0x85) || (b == 0xa0))

abbrev pub is_space_three : ℕ → ℕ → ℕ → Bool
is_space_three a b c =
    ((a == 0xe1) && ((b == 0x9a) && (c == 0x80)))
    || (((a == 0xe2)
          && (((b == 0x80)
                && ((leb 0x80 c && leb c 0x8a) || ((c == 0xa8) || ((c == 0xa9) || (c == 0xaf)))))
              || ((b == 0x81) && (c == 0x9f))))
        || ((a == 0xe3) && ((b == 0x80) && (c == 0x80))))

-- Drops the white space in front. The tests say which bytes make a character of two or of three.
unfoldable pub trim_front : (ℕ → ℕ → Bool) → (ℕ → ℕ → ℕ → Bool) → Bytes → Bytes
trim_front two three [] = []
trim_front two three (a ∷ []) = if is_space a then [] else a ∷ []
trim_front two three (a ∷ b ∷ []) =
    let rest = trim_front two three (b ∷ []) in
    if is_space a then rest else if two a b then [] else a ∷ b ∷ []
trim_front two three (a ∷ b ∷ c ∷ bs) =
    let from_b = trim_front two three (b ∷ c ∷ bs) in
    let from_c = trim_front two three (c ∷ bs) in
    let from_bs = trim_front two three bs in
    if is_space a
    then from_b
    else if two a b
    then from_c
    else if three a b c
    then from_bs
    else a ∷ b ∷ c ∷ bs

-- bytes.TrimSpace: the white space at the end is that in front of the reversed bytes.
unfoldable pub trim_space : Bytes → Bytes
trim_space body = reverse (
    trim_front (λ b a. is_space_two a b) (λ c b a. is_space_three a b c)
      (reverse (trim_front is_space_two is_space_three body)))

-- Five bytes of an envelope, flags and length, are taken off when the bytes behind are enough.
unfoldable pub without_envelope : Bytes → Bytes
without_envelope (f ∷ a ∷ b ∷ c ∷ d ∷ rest) =
    let size = ((a * 256 + b) * 256 + c) * 256 + d in
    if ((f == 0) || (f == 1)) && leb size (length rest)
    then take size rest
    else f ∷ a ∷ b ∷ c ∷ d ∷ rest
without_envelope body = body

-- "{}" stands for an empty body.
unfoldable pub request_payload : Bytes → Bytes
request_payload body =
    let payload = without_envelope (trim_space body) in
    if is_empty payload then 123 ∷ 125 ∷ [] else payload

pub data RequestError : Type 0 where
  invalid_json : RequestError
  invalid_proto : WireError → RequestError

abbrev pub proto_result : {A : Type 0} → Result WireError A → Result RequestError A
proto_result (ok a) = ok a
proto_result (err e) = err (invalid_proto e)

-- `unmarshal_json` stands for json.Unmarshal into the request at hand.
unfoldable pub read_connect_request :
    {A : Type 0}
    → (Bytes → Option A)
    → (Bytes → Result WireError A)
    → ConnectCodec
    → Bytes
    → Result RequestError A
read_connect_request unmarshal_json unmarshal_proto codec_json body =
    or_error invalid_json (unmarshal_json (request_payload body))
read_connect_request unmarshal_json unmarshal_proto codec_proto body =
    proto_result (unmarshal_proto (request_payload body))

-- The length goes in as a uint32, with its high byte first.
unfoldable pub connect_envelope : ℕ → Bytes → Bytes
connect_envelope flags payload =
    flags ∷ size / 2 ^ 24 ∷ size / 2 ^ 16 % 256 ∷ size / 2 ^ 8 % 256 ∷ size % 256 ∷ payload
  where
    size : ℕ
    size = length payload % 2 ^ 32

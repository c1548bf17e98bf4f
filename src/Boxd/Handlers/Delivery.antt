-- ===== src/Boxd/Handlers/Delivery.antt =====
-- What a client sends reaches the process.
use mathlib.Core.List.{append_assoc}
use mathlib.Core.Path.{subst}
use novita_box.Common.{
  ℕ, ◌+◌, ◌-◌, ◌*◌, ◌^◌, ◌<◌, ◌≡◌, refl, sym, ap, ◌∙◌, Bool, true, false, ◌||◌, Option, none, some,
  [], ◌∷◌, ◌++◌, All, length, length-append, Result, ok, arith,
}
use novita_box.Boxd.Wire.{Bytes, WireError, proto_varint, proto_bytes_field}
use novita_box.Boxd.Base64.{is_empty}
use novita_box.Boxd.Base64.RoundTrip.{IsByte}
use novita_box.Boxd.Body.{
  ConnectCodec, codec_proto, proto_result, read_connect_request, connect_envelope,
  connect_codec_from_content_type,
}
use novita_box.Boxd.Body.Framing.{IsSolid, request_payload-connect_envelope}
use novita_box.Boxd.Messages.{ConnectProcessSelector, ConnectProcessInput}
use novita_box.Boxd.Messages.Requests.{unmarshal_send_input_request, decode_connect_input}
use novita_box.Boxd.Messages.RoundTrip.{length-proto_bytes_field}
use novita_box.Boxd.Messages.Client.{
  IsSelector, selector_message, send_input_message, no_input, send_input_message_lem,
}
use novita_box.Boxd.Processes.{ManagedProcess, process_from_selector}
use novita_box.Boxd.Handlers.{
  post_method, HttpRequest, Os, wrote, Agent, unary, empty_map, note_effect,
  handle_connect_send_input, input_of, decoded_input, write_input_to,
}

-- A protobuf message in an envelope is read by its reader, when no white space ends with its last
-- byte.
read_connect_request-connect_envelope :
    {A : Type 0} (json : Bytes → Option A) (proto : Bytes → Result WireError A) (front : Bytes)
    (b : ℕ) {req : A}
    → IsSolid b
    → length front < 2 ^ 32 - 1
    → proto (front ++ (b ∷ [])) ≡ ok req
    → read_connect_request json proto codec_proto (connect_envelope 0 (front ++ (b ∷ []))) ≡ ok req
unfolding read_connect_request
read_connect_request-connect_envelope json proto front b solid fits h =
    ap proto_result
      (ap proto (request_payload-connect_envelope 0 b front (omega arith) solid fits) ∙ h)

-- A message ends with the last byte of its last field.
abbrev pub EndsWith : ℕ → Bytes → Type 0
EndsWith b bs = (front : Bytes) × (bs ≡ front ++ (b ∷ []))

pub append-EndsWith : (b : ℕ) (head bs : Bytes) → EndsWith b bs → EndsWith b (head ++ bs)
append-EndsWith b head bs (front, e) =
    (head ++ front, ap (λ (x : Bytes). head ++ x) e ∙ sym (append_assoc head front (b ∷ [])))

proto_bytes_field-EndsWith :
    (b n : ℕ) (v : Bytes) → EndsWith b v → EndsWith b (proto_bytes_field n v)
unfolding proto_bytes_field
proto_bytes_field-EndsWith b n v e =
    append-EndsWith b (proto_varint (n * 8 + 2)) _ (append-EndsWith b (proto_varint (length v)) v e)

send_input_message-EndsWith :
    (s : ConnectProcessSelector) (front : Bytes) (b : ℕ)
    → EndsWith b (send_input_message s (front ++ (b ∷ [])))
unfolding send_input_message
send_input_message-EndsWith s front b =
    append-EndsWith b (proto_bytes_field 1 (selector_message s)) _
      (proto_bytes_field-EndsWith b 2 _ (proto_bytes_field-EndsWith b 2 _ (front, refl)))

length_last : (front : Bytes) (b : ℕ) → length (front ++ (b ∷ [])) ≡ length front + 1
length_last front b = length-append front (b ∷ [])

not_empty : (front : Bytes) (b : ℕ) → is_empty (front ++ (b ∷ [])) ≡ false
not_empty [] b = refl
not_empty (a ∷ front) b = refl

fits_inside :
    (s : ConnectProcessSelector) (payload : Bytes)
    → length (send_input_message s payload) < 2 ^ 32
    → length (proto_bytes_field 2 payload) < 2 ^ 64
unfolding send_input_message
fits_inside s payload h =
    let field : Bytes = proto_bytes_field 2 payload in
    omega (
      arith,
      length-append (proto_bytes_field 1 (selector_message s)) (proto_bytes_field 2 field),
      length-proto_bytes_field 2 field,
    )

-- The request of a client that writes to a terminal, with its envelope.
abbrev pub input_request : Bytes → ConnectProcessSelector → Bytes → HttpRequest
input_request content_type s payload = record {
  method = post_method;
  content_type = content_type;
  body = connect_envelope 0 (send_input_message s payload);
}

or_true : (x : Bool) → (x || true) ≡ true
or_true true = refl
or_true false = refl

-- A reader of such a message meets the whole of it.
pub read_message :
    {A : Type 0} (json : Bytes → Option A) (proto : Bytes → Result WireError A) (message : Bytes)
    (b : ℕ) {req : A}
    → EndsWith b message
    → IsSolid b
    → length message < 2 ^ 32
    → proto message ≡ ok req
    → read_connect_request json proto codec_proto (connect_envelope 0 message) ≡ ok req
read_message json proto message b {req} (front, e) solid fits h =
    subst
      (λ (m : Bytes).
        length m < 2 ^ 32
        → proto m ≡ ok req
        → read_connect_request json proto codec_proto (connect_envelope 0 m) ≡ ok req)
      (sym e)
      (λ k.
        read_connect_request-connect_envelope json proto front b solid
          (omega (arith, length_last front b)))
      fits h

decoded_input-lem :
    (os : Os) (codec : ConnectCodec) (proc : ManagedProcess) (input : ConnectProcessInput)
    (front : Bytes) (b : ℕ) (a : Agent)
    → decode_connect_input input ≡ some (front ++ (b ∷ []))
    → proc.has_terminal ≡ true
    → os.write proc.id (front ++ (b ∷ [])) ≡ none
    → input_of os codec proc (some input) a
      ≡ (unary codec empty_map, note_effect (wrote proc.id (front ++ (b ∷ []))) a)
unfolding input_of decoded_input write_input_to
decoded_input-lem os codec proc input front b a decoded terminal written =
    ap (λ o. decoded_input os codec proc o a) decoded
    ∙ rw (not_empty front b, terminal, or_true proc.has_stdin, written) refl

-- A protobuf client's input to a terminal is written to the process that its selector finds as the
-- client sent it, and the answer is the empty one: for a selector whose number fits a uint32 and a
-- process that has a terminal, for an input of bytes whose last byte is none that white space in
-- UTF-8 ends with (not 9 to 13, 32, 0x80 to 0x8a, 0x9f, 0xa0, 0xa8, 0xa9 and 0xaf), in a message
-- with an envelope and shorter than 2 ^ 32 bytes, when the write succeeds.
pub handle_connect_send_input-input_request :
    (os : Os) (content_type : Bytes) (s : ConnectProcessSelector) (proc : ManagedProcess)
    (front : Bytes) (b : ℕ) (a : Agent)
    → connect_codec_from_content_type content_type ≡ codec_proto
    → IsSelector s
    → All IsByte (front ++ (b ∷ []))
    → IsSolid b
    → length (send_input_message s (front ++ (b ∷ []))) < 2 ^ 32
    → process_from_selector (some s) a.processes ≡ some proc
    → proc.has_terminal ≡ true
    → os.write proc.id (front ++ (b ∷ [])) ≡ none
    → handle_connect_send_input os (input_request content_type s (front ++ (b ∷ []))) a
      ≡ (unary codec_proto empty_map, note_effect (wrote proc.id (front ++ (b ∷ []))) a)
unfolding handle_connect_send_input
handle_connect_send_input-input_request os content_type s proc front b a proto v bytes solid fits
      found_it terminal written =
    let payload : Bytes = front ++ (b ∷ []) in
    let (input, read, decoded) =
      send_input_message_lem s payload v bytes (fits_inside s payload fits) in
    let read_whole =
      read_message os.json_send_input (λ m. unmarshal_send_input_request m no_input)
        (send_input_message s payload) b (send_input_message-EndsWith s front b) solid fits read in
    rw (proto, read_whole, found_it)
      (decoded_input-lem os codec_proto proc input front b a decoded terminal written)

-- ===== src/Boxd/Messages/Client.antt =====
-- The requests as a protobuf client writes them, and what the agent reads from them.
use novita_box.Common.{
  ℕ, zero, suc, ◌^◌, ◌<◌, ◌≡◌, refl, ap, ◌∙◌, none, some, [], ◌∷◌, ◌++◌, length, All, arith, ok,
  ◌>>=◌,
}
use native.Mathlib.Nat.{mod-eq_of_lt}
use novita_box.Boxd.Wire.{
  Bytes, proto_bytes_field, proto_varint_field, varint_field, bytes_field, walk_proto_fields,
}
use novita_box.Boxd.Wire.Walking.{
  walk-nil, walk-proto_varint_field, walk-proto_bytes_field, walk-last_varint_field,
  walk-last_bytes_field,
}
use novita_box.Boxd.Base64.{encode_to_string}
use novita_box.Boxd.Base64.RoundTrip.{
  IsByte, decode_string-encode_to_string, is_empty-encode_to_string,
}
use novita_box.Boxd.Messages.RoundTrip.{proto_bytes_field-IsU64}
use novita_box.Boxd.Messages.{
  ConnectProcessSelector, ConnectProcessInput, ConnectSendInputRequest, ConnectSendSignalRequest,
}
use novita_box.Boxd.Messages.Requests.{
  empty_selector, selector_field, unmarshal_selector, process_input_field, unmarshal_process_input,
  send_input_request_field, unmarshal_send_input_request, send_signal_request_field,
  unmarshal_send_signal_request, decode_connect_input,
}

-- A number is left out when it is 0, and a text when it is empty.
unfoldable pub varint_part : ℕ → ℕ → Bytes
varint_part n zero = []
varint_part n (suc u) = proto_varint_field n (suc u)

bytes_part : ℕ → Bytes → Bytes
bytes_part n [] = []
bytes_part n (b ∷ bs) = proto_bytes_field n (b ∷ bs)

unfoldable pub selector_message : ConnectProcessSelector → Bytes
unfolding varint_part bytes_part
selector_message s = varint_part 1 s.pid ++ bytes_part 2 s.tag

unfoldable pub send_signal_message : ConnectProcessSelector → ℕ → Bytes
unfolding varint_part
send_signal_message s signal = proto_bytes_field 1 (selector_message s) ++ varint_part 2 signal

-- The input of a terminal.
unfoldable pub send_input_message : ConnectProcessSelector → Bytes → Bytes
send_input_message s payload =
    proto_bytes_field 1 (selector_message s) ++ proto_bytes_field 2 (proto_bytes_field 2 payload)

pub record IsSelector (s : ConnectProcessSelector) : Type 0 where
  pub pid_fits : s.pid < 2 ^ 32
  pub tag_fits : length s.tag < 2 ^ 64
  pub message_fits : length (selector_message s) < 2 ^ 64

unmarshal_selector_tag :
    (tag : Bytes) (pid : ℕ)
    → length tag < 2 ^ 64
    → unmarshal_selector (bytes_part 2 tag) (record { pid = pid; tag = [] })
      ≡ ok (record { pid = pid; tag = tag })
unfolding unmarshal_selector bytes_part selector_field
unmarshal_selector_tag [] pid h = walk-nil selector_field _
unmarshal_selector_tag (b ∷ bs) pid h =
    walk-last_bytes_field selector_field 2 (b ∷ bs) _ (omega arith) h

selector_field_pid :
    (u : ℕ)
    → u < 2 ^ 32
    → selector_field (varint_field 1 u) empty_selector ≡ ok (record { pid = u; tag = [] })
unfolding selector_field
selector_field_pid u h = rw (mod-eq_of_lt h) refl

unmarshal_selector_parts :
    (pid : ℕ) (tag : Bytes)
    → pid < 2 ^ 32
    → length tag < 2 ^ 64
    → unmarshal_selector (varint_part 1 pid ++ bytes_part 2 tag) empty_selector
      ≡ ok (record { pid = pid; tag = tag })
unfolding varint_part unmarshal_selector
unmarshal_selector_parts zero tag hp ht = unmarshal_selector_tag tag 0 ht
unmarshal_selector_parts (suc n) tag hp ht =
    walk-proto_varint_field selector_field 1 (suc n) (bytes_part 2 tag) empty_selector (omega arith)
      (omega arith)
    ∙ ap (λ r. r >>= walk_proto_fields selector_field (bytes_part 2 tag))
        (selector_field_pid (suc n) hp)
    ∙ unmarshal_selector_tag tag (suc n) ht

unmarshal_selector-selector_message :
    (s : ConnectProcessSelector)
    → IsSelector s
    → unmarshal_selector (selector_message s) empty_selector ≡ ok s
unfolding selector_message
unmarshal_selector-selector_message s v = unmarshal_selector_parts s.pid s.tag v.pid_fits v.tag_fits

abbrev pub no_signal : ConnectSendSignalRequest
no_signal = record { process = none; signal = 0 }

send_signal_request_field_process :
    (s : ConnectProcessSelector)
    → IsSelector s
    → send_signal_request_field (bytes_field 1 (selector_message s)) no_signal
      ≡ ok (record { process = some s; signal = 0 })
unfolding send_signal_request_field
send_signal_request_field_process s v = rw (unmarshal_selector-selector_message s v) refl

unmarshal_send_signal_request_signal :
    (s : ConnectProcessSelector) (signal : ℕ)
    → signal < 2 ^ 32
    → unmarshal_send_signal_request (varint_part 2 signal) (record { process = some s; signal = 0 })
      ≡ ok (record { process = some s; signal = signal })
unfolding unmarshal_send_signal_request varint_part send_signal_request_field
unmarshal_send_signal_request_signal s zero h = walk-nil send_signal_request_field _
unmarshal_send_signal_request_signal s (suc n) h =
    walk-last_varint_field send_signal_request_field 2 (suc n) _ (omega arith) (omega arith)
    ∙ rw (mod-eq_of_lt h) refl

-- A request to send a signal is read as the client wrote it: the selector and the number.
pub unmarshal_send_signal_request-send_signal_message :
    (s : ConnectProcessSelector) (signal : ℕ)
    → IsSelector s
    → signal < 2 ^ 32
    → unmarshal_send_signal_request (send_signal_message s signal) no_signal
      ≡ ok (record { process = some s; signal = signal })
unfolding send_signal_message unmarshal_send_signal_request
unmarshal_send_signal_request-send_signal_message s signal v h =
    walk-proto_bytes_field send_signal_request_field 1 (selector_message s) (varint_part 2 signal)
      no_signal (omega arith) v.message_fits
    ∙ ap (λ r. r >>= walk_proto_fields send_signal_request_field (varint_part 2 signal))
        (send_signal_request_field_process s v)
    ∙ unmarshal_send_signal_request_signal s signal h

abbrev pub no_input : ConnectSendInputRequest
no_input = record { process = none; input = none }

abbrev terminal_input : Bytes → ConnectProcessInput
terminal_input payload = record { stdin = []; pty = encode_to_string payload }

send_input_request_field_process :
    (s : ConnectProcessSelector)
    → IsSelector s
    → send_input_request_field (bytes_field 1 (selector_message s)) no_input
      ≡ ok (record { process = some s; input = none })
unfolding send_input_request_field
send_input_request_field_process s v = rw (unmarshal_selector-selector_message s v) refl

unmarshal_process_input_pty :
    (payload : Bytes)
    → length payload < 2 ^ 64
    → unmarshal_process_input (proto_bytes_field 2 payload) ≡ ok (terminal_input payload)
unfolding unmarshal_process_input process_input_field
unmarshal_process_input_pty payload h =
    walk-last_bytes_field process_input_field 2 payload _ (omega arith) h

send_input_request_field_input :
    (s : ConnectProcessSelector) (payload : Bytes)
    → length payload < 2 ^ 64
    → send_input_request_field
        (bytes_field 2 (proto_bytes_field 2 payload))
        (record { process = some s; input = none })
      ≡ ok (record { process = some s; input = some (terminal_input payload) })
unfolding send_input_request_field
send_input_request_field_input s payload h = rw (unmarshal_process_input_pty payload h) refl

unmarshal_send_input_request-send_input_message :
    (s : ConnectProcessSelector) (payload : Bytes)
    → IsSelector s
    → length (proto_bytes_field 2 payload) < 2 ^ 64
    → unmarshal_send_input_request (send_input_message s payload) no_input
      ≡ ok (record { process = some s; input = some (terminal_input payload) })
unfolding send_input_message unmarshal_send_input_request
unmarshal_send_input_request-send_input_message s payload v h =
    walk-proto_bytes_field send_input_request_field 1 (selector_message s)
      (proto_bytes_field 2 (proto_bytes_field 2 payload)) no_input (omega arith) v.message_fits
    ∙ ap
        (λ r.
          r
          >>= walk_proto_fields send_input_request_field
              (proto_bytes_field 2 (proto_bytes_field 2 payload)))
        (send_input_request_field_process s v)
    ∙ walk-last_bytes_field send_input_request_field 2 (proto_bytes_field 2 payload) _ (omega arith)
        h
    ∙ send_input_request_field_input s payload (proto_bytes_field-IsU64 2 payload h)

decode_connect_input-terminal_input :
    (payload : Bytes)
    → All IsByte payload
    → decode_connect_input (terminal_input payload) ≡ some payload
unfolding decode_connect_input
decode_connect_input-terminal_input [] h = unfold encode_to_string in refl
decode_connect_input-terminal_input (b ∷ bs) h =
    rw
      (
        is_empty-encode_to_string (b ∷ bs),
        is_empty-encode_to_string (b ∷ bs),
        decode_string-encode_to_string (b ∷ bs) h,
      )
      refl

-- A request to write to a terminal is read as the client wrote it, and its input decodes to the
-- bytes that the client sent, where they are bytes and the message is shorter than 2 ^ 64 bytes.
pub send_input_message_lem :
    (s : ConnectProcessSelector) (payload : Bytes)
    → IsSelector s
    → All IsByte payload
    → length (proto_bytes_field 2 payload) < 2 ^ 64
    → (input : ConnectProcessInput) × (unmarshal_send_input_request
          (send_input_message s payload)
          no_input
        ≡ ok (record { process = some s; input = some input }))
      × (decode_connect_input input ≡ some payload)
send_input_message_lem s payload v bytes fits = (
  terminal_input payload,
  unmarshal_send_input_request-send_input_message s payload v fits,
  decode_connect_input-terminal_input payload bytes,
)

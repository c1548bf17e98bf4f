-- ===== src/Boxd/Handlers/Signals.antt =====
-- A signal that a client sends reaches the process, when the agent's reading of bodies lets it.

use novita_box.Common.{ℕ, ltb, true, zero, suc, ◌^◌, ◌<◌, ◌≡◌, refl, some, [], ◌∷◌, length, arith}
use novita_box.Boxd.Wire.{Bytes, proto_varint, proto_bytes_field, proto_varint_field, put_uvarint}
use novita_box.Boxd.Body.{codec_proto, connect_envelope, connect_codec_from_content_type}
use novita_box.Boxd.Body.Framing.{IsSolid}
use novita_box.Boxd.Messages.{ConnectProcessSelector}
use novita_box.Boxd.Messages.Requests.{unmarshal_send_signal_request}
use novita_box.Boxd.Messages.Client.{
  IsSelector, selector_message, varint_part, send_signal_message, no_signal,
  unmarshal_send_signal_request-send_signal_message,
}
use novita_box.Boxd.Processes.{ManagedProcess, process_from_selector, signal_from_number}
use novita_box.Boxd.Handlers.{
  post_method, HttpRequest, Os, signalled, Agent, reply, note_effect, send_signal_to,
  handle_connect_send_signal,
}
use novita_box.Boxd.Handlers.Guards.{IsSignalOf, signal_from_number-IsSignalOf}
use novita_box.Boxd.Handlers.Delivery.{EndsWith, append-EndsWith, read_message}

-- The request of a client that sends a signal, with its envelope.
abbrev pub signal_request_of : Bytes → ConnectProcessSelector → ℕ → HttpRequest
signal_request_of content_type s signal = record {
  method = post_method;
  content_type = content_type;
  body = connect_envelope 0 (send_signal_message s signal);
}

below : (n : ℕ) → n < 128 → ltb n 128 ≡ true
below n h = ground arith

-- A number below 128 is the last byte of its field.
varint_part-EndsWith : (n : ℕ) → 0 < n → n < 128 → EndsWith n (varint_part 2 n)
unfolding varint_part proto_varint_field proto_varint put_uvarint
varint_part-EndsWith zero pos small = absurd (omega arith)
varint_part-EndsWith (suc n) pos small = (16 ∷ [], rw (below (suc n) small) refl)

send_signal_message-EndsWith :
    (s : ConnectProcessSelector) (n : ℕ) → 0 < n → n < 128 → EndsWith n (send_signal_message s n)
unfolding send_signal_message
send_signal_message-EndsWith s n pos small =
    append-EndsWith n (proto_bytes_field 1 (selector_message s)) (varint_part 2 n)
      (varint_part-EndsWith n pos small)

-- A protobuf client's request for a signal, when its number is from 1 to 127 and not 9 to 13 or 32,
-- and the message stands in an envelope and is shorter than 2 ^ 32 bytes, sends one signal to the
-- running process that its selector, whose number fits a uint32, finds: the number as the client
-- wrote it when it is 2 or 1, and 15 otherwise. The answer is that of the call.
pub handle_connect_send_signal-signal_request_of :
    (os : Os) (content_type : Bytes) (s : ConnectProcessSelector) (proc : ManagedProcess)
    (signal n : ℕ) (a : Agent)
    → connect_codec_from_content_type content_type ≡ codec_proto
    → IsSelector s
    → 0 < signal
    → signal < 128
    → IsSolid signal
    → length (send_signal_message s signal) < 2 ^ 32
    → process_from_selector (some s) a.processes ≡ some proc
    → proc.os_pid ≡ some n
    → (sent : ℕ) × IsSignalOf signal sent
      × (handle_connect_send_signal os (signal_request_of content_type s signal) a
          ≡ reply codec_proto 500 (os.signal n sent) (note_effect (signalled n sent) a))
unfolding handle_connect_send_signal send_signal_to
handle_connect_send_signal-signal_request_of os content_type s proc signal n a proto v pos small
      solid fits found_it runs =
    let read_whole =
      read_message os.json_send_signal (λ m. unmarshal_send_signal_request m no_signal)
        (send_signal_message s signal) signal (send_signal_message-EndsWith s signal pos small)
        solid fits (unmarshal_send_signal_request-send_signal_message s signal v (omega arith)) in
    (
      signal_from_number signal,
      signal_from_number-IsSignalOf signal,
      rw (proto, read_whole, found_it, runs) refl,
    )

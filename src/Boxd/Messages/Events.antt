-- ===== src/Boxd/Messages/Events.antt =====
-- What a client sees of the output and the end of a process.
use novita_box.Common.{ℕ, ◌+◌, ◌*◌, ◌^◌, ◌<◌, ◌≡◌, refl, false, All, arith}
use novita_box.Common.Int.{ℤ, pos, negsuc}
use novita_box.Boxd.Wire.{Bytes, proto_bytes_field, encode_zig_zag32}
use novita_box.Boxd.Base64.{is_empty}
use novita_box.Boxd.Base64.RoundTrip.{
  IsByte, decode_string-encode_to_string, is_empty-encode_to_string,
}
use novita_box.Boxd.Messages.{
  ProcessOutputStream, output_pty, output_stdout, output_stderr, ProcessOutput,
}
use novita_box.Boxd.Messages.Responses.{marshal_data_event, data_event_for_output, int32_bits}

-- The numbers of the fields in the data event of the protocol.
abbrev pub stream_number : ProcessOutputStream → ℕ
stream_number output_stdout = 1
stream_number output_stderr = 2
stream_number output_pty = 3

data_event_lem :
    (stream : ProcessOutputStream) (content : Bytes)
    → All IsByte content
    → is_empty content ≡ false
    → marshal_data_event (data_event_for_output (record { stream = stream; content = content }))
      ≡ proto_bytes_field (stream_number stream) content
unfolding marshal_data_event data_event_for_output
data_event_lem output_stdout content h e =
    rw (is_empty-encode_to_string content, e, decode_string-encode_to_string content h) refl
data_event_lem output_stderr content h e =
    rw (is_empty-encode_to_string content, e, decode_string-encode_to_string content h) refl
data_event_lem output_pty content h e =
    rw (is_empty-encode_to_string content, e, decode_string-encode_to_string content h) refl

-- Output that is not empty reaches a protobuf client as it was read from the process, under the
-- number of its stream: the base64 text between leaves no trace.
pub marshal_data_event-data_event_for_output :
    (output : ProcessOutput)
    → All IsByte output.content
    → is_empty output.content ≡ false
    → marshal_data_event (data_event_for_output output)
      ≡ proto_bytes_field (stream_number output.stream) output.content
marshal_data_event-data_event_for_output output h e =
    data_event_lem output.stream output.content h e

-- The zigzag numbers of the protobuf format: 0, -1, 1, -2, … are 0, 1, 2, 3, …
abbrev pub zig_zag : ℤ → ℕ
zig_zag (pos n) = 2 * n
zig_zag (negsuc n) = 2 * n + 1

abbrev pub IsInt32 : ℤ → Type 0
IsInt32 (pos n) = n < 2 ^ 31
IsInt32 (negsuc n) = n < 2 ^ 31

-- The exit code of a process is sent as its zigzag number, when it fits an int32.
pub encode_zig_zag32-int32_bits :
    (code : ℤ) → IsInt32 code → encode_zig_zag32 (int32_bits code) ≡ zig_zag code
unfolding encode_zig_zag32 int32_bits
encode_zig_zag32-int32_bits (pos n) h = ground arith
encode_zig_zag32-int32_bits (negsuc n) h = ground arith

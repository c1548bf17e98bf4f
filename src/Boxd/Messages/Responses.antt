-- ===== src/Boxd/Messages/Responses.antt =====
-- The writers of protobuf responses (marshalProto… of internal/boxd/server/process.go).
use novita_box.Common.{
  ℕ, ◌-◌, ◌%◌, ◌^◌, true, Option, none, some, List, [], ◌∷◌, ◌++◌, ltb, if◌then◌else◌,
}
use novita_box.Common.Int.{ℤ, pos, negsuc}
use novita_box.Boxd.Wire.{
  Bytes, proto_bytes_field, proto_string_field, proto_varint_field, encode_zig_zag32, bool_varint,
}
use novita_box.Boxd.Base64.{is_empty, encode_to_string, decode_string}
use novita_box.Boxd.Messages.{
  ConnectProcessConfig, ConnectProcessInfo, ConnectListResponse, ConnectStartEvent,
  ConnectDataEvent, ConnectEndEvent, ConnectProcessEvent, ConnectStreamResponse,
  ProcessOutputStream, output_pty, output_stdout, output_stderr, ProcessOutput, ProcessExit,
}

-- `if value != "" { … }`
unfoldable pub string_field_if_set : ℕ → Bytes → Bytes
string_field_if_set field value = if is_empty value then [] else proto_string_field field value

unfoldable pub optional_string_field : ℕ → Option Bytes → Bytes
optional_string_field field none = []
optional_string_field field (some value) = proto_string_field field value

unfoldable pub marshal_args : List Bytes → Bytes
marshal_args [] = []
marshal_args (arg ∷ args) = proto_string_field 2 arg ++ marshal_args args

unfoldable pub marshal_envs : List (Bytes × Bytes) → Bytes
marshal_envs [] = []
marshal_envs ((key, value) ∷ envs) =
    proto_bytes_field 3 (proto_string_field 1 key ++ proto_string_field 2 value)
    ++ marshal_envs envs

unfoldable pub marshal_process_config : ConnectProcessConfig → Bytes
marshal_process_config cfg =
    string_field_if_set 1 cfg.cmd
    ++ (marshal_args cfg.args ++ (marshal_envs cfg.envs ++ optional_string_field 4 cfg.cwd))

unfoldable pub marshal_process_info : ConnectProcessInfo → Bytes
marshal_process_info proc =
    proto_bytes_field 1 (marshal_process_config proc.config)
    ++ ((if ltb 0 proc.pid then proto_varint_field 2 proc.pid else [])
        ++ string_field_if_set 3 proc.tag)

unfoldable pub marshal_process_infos : List ConnectProcessInfo → Bytes
marshal_process_infos [] = []
marshal_process_infos (proc ∷ procs) =
    proto_bytes_field 1 (marshal_process_info proc) ++ marshal_process_infos procs

unfoldable pub marshal_list_response : ConnectListResponse → Bytes
marshal_list_response response = marshal_process_infos response.processes

-- An error of the decoder is dropped, and what it decoded before is sent.
unfoldable pub marshal_data_event : ConnectDataEvent → Bytes
marshal_data_event event =
    if is_empty event.stdout
    then if is_empty event.stderr
      then if is_empty event.pty then [] else proto_bytes_field 3 (decode_string event.pty).0
      else proto_bytes_field 2 (decode_string event.stderr).0
    else proto_bytes_field 1 (decode_string event.stdout).0

unfoldable pub marshal_end_event : ConnectEndEvent → Bytes
marshal_end_event event =
    proto_varint_field 1 (encode_zig_zag32 event.exit_code)
    ++ (proto_varint_field 2 (bool_varint event.exited)
        ++ (string_field_if_set 3 event.status ++ optional_string_field 4 event.error))

unfoldable pub marshal_process_event : ConnectProcessEvent → Bytes
marshal_process_event event = first event.start event.data_event event.end_event
  where
    first : Option ConnectStartEvent → Option ConnectDataEvent → Option ConnectEndEvent → Bytes
    first (some start) data_event end_event = proto_bytes_field 1 (proto_varint_field 1 start.pid)
    first none (some data_event) end_event = proto_bytes_field 2 (marshal_data_event data_event)
    first none none (some end_event) = proto_bytes_field 3 (marshal_end_event end_event)
    first none none none = elim event.keepalive [ none ↦ [] | some k ↦ proto_bytes_field 4 [] ]

unfoldable pub marshal_stream_response : ConnectStreamResponse → Bytes
marshal_stream_response response = proto_bytes_field 1 (marshal_process_event response.event)

abbrev pub no_data : ConnectDataEvent
no_data = record { stdout = []; stderr = []; pty = [] }

unfoldable pub data_event_for_output : ProcessOutput → ConnectDataEvent
data_event_for_output output = for_stream output.stream
  where
    encoded : Bytes
    encoded = encode_to_string output.content

    for_stream : ProcessOutputStream → ConnectDataEvent
    for_stream output_stdout = record no_data { stdout = encoded }
    for_stream output_stderr = record no_data { stderr = encoded }
    for_stream output_pty = record no_data { pty = encoded }

-- `int32(x)` of an int, as 32 bits.
unfoldable pub int32_bits : ℤ → ℕ
int32_bits (pos n) = n % 2 ^ 32
int32_bits (negsuc n) = 2 ^ 32 - 1 - n % 2 ^ 32

unfoldable pub end_from_process_exit : Option ProcessExit → ConnectEndEvent
end_from_process_exit none = record { exit_code = 0; exited = true; status = []; error = none }
end_from_process_exit (some exit) = record {
  exit_code = int32_bits exit.exit_code;
  exited = exit.exited;
  status = exit.status;
  error = if is_empty exit.error then none else some exit.error;
}

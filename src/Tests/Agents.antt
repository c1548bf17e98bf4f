-- ===== src/Tests/Agents.antt =====
-- An agent with one process, the requests of a client, and runs of its output hub.
use novita_box.Boxd.Stream.{
  Stimulus, got, keepalive_tick, channel_closed, start_message, data_message,
  stream_connect_process, stream_loop,
}
use novita_box.Boxd.Stream.Sent.{sent, events, stream_connect_process-sent}
use novita_box.Boxd.Processes.{pid}
use novita_box.Boxd.Processes.{get_by_pid}
use novita_box.Boxd.Wire.{
  walk, proto_string_field, take_field, uvarint, uvarint_from, take_value, take_sized, take_bytes,
  take_varint,
}
use novita_box.Boxd.Body.{read_connect_request, without_envelope, trim_space, trim_front}
use novita_box.Boxd.Messages.Responses.{
  string_field_if_set, optional_string_field, marshal_args, marshal_envs,
}
use novita_box.Boxd.Messages.Requests.{
  selector_field, send_signal_request_field, unmarshal_selector,
}
use novita_box.Boxd.Processes.{signal_from_number}
use novita_box.Boxd.Handlers.{send_signal_to}
use novita_box.Boxd.Wire.{put_uvarint}
use novita_box.Boxd.Wire.{proto_varint}
use novita_box.Boxd.Wire.{proto_varint_field}
use mathlib.Core.List.{Sublistᴰ}
use novita_box.Common.{
  ℕ, Bool, ◌==◌, ◌≡◌, ◌≢◌, ◌++◌, ◌-◌, refl, arith, true, false, none, some, List, [], ◌∷◌, All, map,
  length, ok, err,
}
use novita_box.Common.Int.{negsuc}
use novita_box.Boxd.Wire.{Bytes, stuck, walk_proto_fields, proto_bytes_field, encode_zig_zag32}
use novita_box.Boxd.Wire.Walking.{walk_proto_fields-ne-stuck}
use novita_box.Boxd.Base64.{encode_to_string, decode_string}
use novita_box.Boxd.Base64.RoundTrip.{decode_string-encode_to_string}
use novita_box.Boxd.Body.{
  connect_codec_from_content_type, codec_proto, request_payload, connect_envelope,
}
use novita_box.Boxd.Body.Framing.{request_payload-connect_envelope, request_payload-misframed}
use novita_box.Boxd.Messages.{
  ConnectProcessConfig, ConnectProcessSelector, output_stdout, output_stderr, ProcessOutput,
}
use novita_box.Boxd.Messages.Requests.{unmarshal_process_config, unmarshal_send_signal_request}
use novita_box.Boxd.Messages.Responses.{
  marshal_process_config, marshal_data_event, data_event_for_output, int32_bits,
}
use novita_box.Boxd.Messages.RoundTrip.{unmarshal_process_config-marshal_process_config}
use novita_box.Boxd.Messages.Client.{
  IsSelector, selector_message, send_signal_message, send_input_message, varint_part,
}
use novita_box.Boxd.Messages.Events.{
  marshal_data_event-data_event_for_output, encode_zig_zag32-int32_bits,
}
use novita_box.Boxd.Hub.{
  new_output_hub, subscribe, HubEvent, published, subscribed, closed_hub, received_from, run_hub,
}
use novita_box.Boxd.Hub.Order.{outputs_while_open, seen}
use novita_box.Boxd.Hub.Runs.{run_hub_lem}
use novita_box.Boxd.Hub.Backlog.{publish_all, last_outputs, first_outputs, late_subscriber}
use novita_box.Boxd.Processes.{ManagedProcess, process_from_selector}
use novita_box.Boxd.Processes.Selecting.{IsSelection, process_from_selector-IsSelection}
use novita_box.Boxd.Handlers.{
  post_method, http_error, signalled, HttpRequest, Os, wrote, Agent, unary, empty_map, codec_of,
  note_effect, reply, handle_connect_send_signal, handle_connect_send_input,
}
use novita_box.Boxd.Handlers.Start.{handle_connect_start}
use novita_box.Boxd.Handlers.Guards.{
  IsStartEnd, IsSignalEnd, IsSignalOf, handle_connect_start-cases, handle_connect_send_signal-cases,
}
use novita_box.Boxd.Handlers.Signals.{
  signal_request_of, handle_connect_send_signal-signal_request_of,
}
use novita_box.Boxd.Handlers.Delivery.{input_request, handle_connect_send_input-input_request}

walk_proto_fields-ne-stuck_example :
    walk_proto_fields (λ f (n : ℕ). ok n) (8 ∷ 1 ∷ []) 0 ≢ err stuck
walk_proto_fields-ne-stuck_example =
    walk_proto_fields-ne-stuck (λ f (n : ℕ). ok n) (λ f n e. cc) (8 ∷ 1 ∷ []) 0

decode_string-encode_to_string_example :
    decode_string (encode_to_string (108 ∷ 115 ∷ [])) ≡ (108 ∷ 115 ∷ [], true)
decode_string-encode_to_string_example =
    decode_string-encode_to_string (108 ∷ 115 ∷ []) (omega arith)

request_payload-connect_envelope_example :
    request_payload (connect_envelope 0 ((123 ∷ []) ++ (125 ∷ []))) ≡ (123 ∷ []) ++ (125 ∷ [])
request_payload-connect_envelope_example =
    request_payload-connect_envelope 0 125 (123 ∷ []) (omega arith) refl (omega arith)

-- A signal 9 to process 5: the number is a tab.
request_payload-misframed_example :
    let message = connect_envelope 0 ((10 ∷ 2 ∷ 8 ∷ 5 ∷ []) ++ (16 ∷ 9 ∷ [])) in
    (envelope : Bytes) × (length envelope ≡ 5)
    × (message ≡ envelope ++ ((10 ∷ 2 ∷ 8 ∷ 5 ∷ []) ++ (16 ∷ 9 ∷ [])))
    × (request_payload message ≡ envelope ++ ((10 ∷ 2 ∷ 8 ∷ 5 ∷ []) ++ (16 ∷ [])))
request_payload-misframed_example =
    request_payload-misframed 0 16 9 (10 ∷ 2 ∷ 8 ∷ 5 ∷ []) (omega arith) refl refl (omega arith)

abbrev shell : ConnectProcessConfig
shell = record {
  cmd = 115 ∷ 104 ∷ [];
  args = (45 ∷ 99 ∷ []) ∷ (108 ∷ 115 ∷ []) ∷ [];
  envs = (65 ∷ [], 49 ∷ []) ∷ (66 ∷ [], []) ∷ [];
  cwd = some (47 ∷ []);
}

shell_fits : length (marshal_process_config shell) ≡ 30
unfolding marshal_process_config string_field_if_set optional_string_field marshal_args marshal_envs
    proto_bytes_field proto_string_field proto_varint put_uvarint
shell_fits = refl

unmarshal_process_config-marshal_process_config_example :
    unmarshal_process_config (marshal_process_config shell) ≡ ok shell
unmarshal_process_config-marshal_process_config_example =
    unmarshal_process_config-marshal_process_config shell (refl, (refl, tt))
      (omega (arith, shell_fits))

abbrev by_pid : ConnectProcessSelector
by_pid = record { pid = 5; tag = [] }

length-by_pid : length (selector_message by_pid) ≡ 2
unfolding selector_message proto_varint_field proto_varint put_uvarint
length-by_pid = refl

by_pid-IsSelector : IsSelector by_pid
by_pid-IsSelector = record {
  pid_fits = omega arith;
  tag_fits = omega arith;
  message_fits = omega (arith, length-by_pid);
}

abbrev line : ProcessOutput
line = record { stream = output_stdout; content = 111 ∷ 107 ∷ [] }

abbrev warning : ProcessOutput
warning = record { stream = output_stderr; content = 33 ∷ [] }

marshal_data_event-data_event_for_output_example :
    marshal_data_event (data_event_for_output line) ≡ proto_bytes_field 1 (111 ∷ 107 ∷ [])
marshal_data_event-data_event_for_output_example =
    marshal_data_event-data_event_for_output line (omega arith) refl

encode_zig_zag32-int32_bits_example : encode_zig_zag32 (int32_bits (negsuc 0)) ≡ 1
encode_zig_zag32-int32_bits_example = encode_zig_zag32-int32_bits (negsuc 0) (omega arith)

abbrev attached_run : List HubEvent
attached_run =
    published line
    ∷ subscribed
    ∷ published warning
    ∷ received_from 0
    ∷ closed_hub
    ∷ published line
    ∷ []

run_hub_lem_example :
    All
      (λ c. Sublistᴰ (seen c) (outputs_while_open attached_run))
      (run_hub attached_run new_output_hub).channels
run_hub_lem_example = run_hub_lem attached_run

late_subscriber_example :
    map
      (λ c. c.queue)
      (publish_all (warning ∷ []) (subscribe (publish_all (line ∷ []) new_output_hub)).1).channels
    ≡ (last_outputs 64 (line ∷ [])
        ++ first_outputs (64 - length (last_outputs 64 (line ∷ []))) (warning ∷ []))
      ∷ []
late_subscriber_example = late_subscriber (line ∷ []) (warning ∷ [])

-- A shell in a terminal.
abbrev terminal_process : ManagedProcess
terminal_process = record {
  id = 112 ∷ 49 ∷ [];
  tag = 116 ∷ [];
  cmd = (115 ∷ 104 ∷ []) ∷ [];
  cwd = [];
  tty = true;
  started_at = [];
  os_pid = some 5;
  has_terminal = true;
  has_stdin = false;
  exit = none;
  output = new_output_hub;
}

process_from_selector-IsSelection_example :
    IsSelection by_pid
      (terminal_process ∷ [])
      (process_from_selector (some by_pid) (terminal_process ∷ []))
process_from_selector-IsSelection_example =
    process_from_selector-IsSelection by_pid (terminal_process ∷ [])

abbrev working_os : Os
working_os = record {
  json_start = λ b. none;
  json_connect = λ b. none;
  json_update = λ b. none;
  json_send_input = λ b. none;
  json_send_signal = λ b. none;
  start_pty = λ cmd args cwd env cols rows. ok 6;
  start_pipe = λ cmd args cwd env stdin. ok 6;
  new_process_id = some (112 ∷ 50 ∷ []);
  now = [];
  signal = λ n s. none;
  write = λ id bytes. none;
  resize = λ id cols rows. none;
}

abbrev one_process : Agent
one_process = record { processes = terminal_process ∷ []; effects = [] }

-- "proto"
abbrev proto_type : Bytes
proto_type = 112 ∷ 114 ∷ 111 ∷ 116 ∷ 111 ∷ []

-- A start of "a", and a signal 15 to process 5, each in an envelope.
abbrev start_request : HttpRequest
start_request = record {
  method = post_method;
  content_type = proto_type;
  body = connect_envelope 0 (10 ∷ 3 ∷ 10 ∷ 1 ∷ 97 ∷ []);
}

abbrev signal_request : HttpRequest
signal_request = record {
  method = post_method;
  content_type = proto_type;
  body = connect_envelope 0 (10 ∷ 2 ∷ 8 ∷ 5 ∷ 16 ∷ 15 ∷ []);
}

handle_connect_start-cases_example :
    IsStartEnd working_os
      (codec_of start_request)
      one_process
      (handle_connect_start working_os start_request one_process)
handle_connect_start-cases_example = handle_connect_start-cases working_os start_request one_process

handle_connect_send_signal-cases_example :
    IsSignalEnd working_os signal_request one_process
      (handle_connect_send_signal working_os signal_request one_process)
handle_connect_send_signal-cases_example =
    handle_connect_send_signal-cases working_os signal_request one_process

codec_is_proto : connect_codec_from_content_type proto_type ≡ codec_proto
unfolding connect_codec_from_content_type
codec_is_proto = refl

found_by_pid : process_from_selector (some by_pid) (terminal_process ∷ []) ≡ some terminal_process
unfolding process_from_selector get_by_pid pid
found_by_pid = refl

-- The signal 9 is a tab, which is trimmed from the end of the body: the request is refused.
abbrev lost_signal_request : HttpRequest
lost_signal_request = record {
  method = post_method;
  content_type = proto_type;
  body = connect_envelope 0 (10 ∷ 2 ∷ 8 ∷ 5 ∷ 16 ∷ 9 ∷ []);
}

lost_signal :
    handle_connect_send_signal working_os lost_signal_request one_process
    ≡ (http_error 400 "invalid send signal request body", one_process)
unfolding handle_connect_send_signal read_connect_request connect_codec_from_content_type
    unmarshal_send_signal_request walk_proto_fields walk request_payload without_envelope trim_space
    trim_front connect_envelope take_field uvarint uvarint_from take_value take_sized take_bytes
    take_varint send_signal_to selector_field send_signal_request_field unmarshal_selector
    get_by_pid pid process_from_selector signal_from_number
lost_signal = refl

kept_signal :
    handle_connect_send_signal working_os signal_request one_process
    ≡ (unary codec_proto empty_map, note_effect (signalled 5 15) one_process)
unfolding handle_connect_send_signal read_connect_request connect_codec_from_content_type
    unmarshal_send_signal_request walk_proto_fields walk request_payload without_envelope trim_space
    trim_front connect_envelope take_field uvarint uvarint_from take_value take_sized take_bytes
    take_varint send_signal_to selector_field send_signal_request_field unmarshal_selector
    get_by_pid pid process_from_selector signal_from_number
kept_signal = refl

length-input : length (send_input_message by_pid ((108 ∷ []) ++ (3 ∷ []))) ≡ 10
unfolding send_input_message selector_message proto_varint_field proto_bytes_field
    proto_string_field proto_varint put_uvarint
length-input = refl

handle_connect_send_input-input_request_example :
    handle_connect_send_input working_os
      (input_request proto_type by_pid ((108 ∷ []) ++ (3 ∷ [])))
      one_process
    ≡ (unary codec_proto empty_map, note_effect (wrote (112 ∷ 49 ∷ []) (108 ∷ 3 ∷ [])) one_process)
handle_connect_send_input-input_request_example =
    handle_connect_send_input-input_request working_os proto_type by_pid terminal_process (108 ∷ [])
      3 one_process codec_is_proto by_pid-IsSelector (omega arith) refl
      (omega (arith, length-input)) found_by_pid refl refl

-- The second write fails.
abbrev one_write : ℕ → Bool
one_write n = n == 0

abbrev stream_stimuli : List Stimulus
stream_stimuli = got line ∷ keepalive_tick ∷ channel_closed ∷ []

stream_connect_process-sent_example :
    stream_connect_process one_write none 5 stream_stimuli
    ≡ sent one_write 0 (start_message 5 ∷ events none stream_stimuli)
stream_connect_process-sent_example = stream_connect_process-sent one_write none 5 stream_stimuli

cut_short :
    stream_connect_process one_write none 5 stream_stimuli
    ≡ start_message 5 ∷ data_message line ∷ []
unfolding stream_connect_process stream_loop
cut_short = refl

length-interrupt : length (send_signal_message by_pid 2) ≡ 6
unfolding send_signal_message varint_part selector_message proto_varint_field proto_bytes_field
    proto_string_field proto_varint put_uvarint
length-interrupt = refl

handle_connect_send_signal-signal_request_of_example :
    (sent_number : ℕ) × IsSignalOf 2 sent_number
    × (handle_connect_send_signal working_os (signal_request_of proto_type by_pid 2) one_process
        ≡ reply codec_proto 500
            (working_os.signal 5 sent_number)
            (note_effect (signalled 5 sent_number) one_process))
handle_connect_send_signal-signal_request_of_example =
    handle_connect_send_signal-signal_request_of working_os proto_type by_pid terminal_process 2 5
      one_process codec_is_proto by_pid-IsSelector (omega arith) (omega arith) refl
      (omega (arith, length-interrupt)) found_by_pid refl

-- ===== src/Boxd/Handlers.antt =====
-- The handlers of the Connect API in internal/boxd/server/process.go. A request sees the operating
-- system through `Os`: what each call would answer. `effects` records the calls that were made.
pub mod Start
pub mod Rest
pub mod Guards
pub mod Signals
pub mod Delivery
use novita_box.Common.{
  ℕ, ◌+◌, Bool, true, false, not, ◌||◌, Option, none, some, List, [], ◌∷◌, ◌++◌, map, length,
  String, Result, ok, err, if◌then◌else◌,
}
use novita_box.Boxd.Wire.{Bytes}
use novita_box.Boxd.Base64.{is_empty}
use novita_box.Boxd.Body.{
  ConnectCodec, RequestError, connect_codec_from_content_type, read_connect_request,
}
use novita_box.Boxd.Messages.{
  ConnectProcessConfig, ConnectPty, ConnectProcessInput, ConnectStartRequest, ConnectConnectRequest,
  ConnectUpdateRequest, ConnectSendInputRequest, ConnectSendSignalRequest, ConnectListResponse,
}
use novita_box.Boxd.Messages.Requests.{
  unmarshal_start_request, unmarshal_connect_request, unmarshal_update_request,
  unmarshal_send_input_request, unmarshal_send_signal_request, decode_connect_input,
}
use novita_box.Boxd.Hub.{new_output_hub, subscribe}
use novita_box.Boxd.Processes.{
  ManagedProcess, ProcessManager, add, list, process_from_selector, signal_from_number,
  connect_pty_size_value, connect_string, connect_env, connect_process_info_from_process_info,
}

pub data Method : Type 0 where
  get_method post_method other_method : Method

pub record HttpRequest : Type 0 where
  pub method : Method
  pub content_type : Bytes
  pub body : Bytes

-- json.Unmarshal into each of the requests, startPTYProcess and startPipeProcess (with the number
-- of the process or an error), newProcessID, a signal, a write to the terminal or to stdin, and
-- the size of a terminal. An error is its text.
pub record Os : Type 0 where
  pub json_start : Bytes → Option ConnectStartRequest
  pub json_connect : Bytes → Option ConnectConnectRequest
  pub json_update : Bytes → Option ConnectUpdateRequest
  pub json_send_input : Bytes → Option ConnectSendInputRequest
  pub json_send_signal : Bytes → Option ConnectSendSignalRequest
  pub start_pty : Bytes → List Bytes → Bytes → List Bytes → ℕ → ℕ → Result String ℕ
  pub start_pipe : Bytes → List Bytes → Bytes → List Bytes → Bool → Result String ℕ
  pub new_process_id : Option Bytes
  pub now : Bytes
  pub signal : ℕ → ℕ → Option String
  pub write : Bytes → Bytes → Option String
  pub resize : Bytes → ℕ → ℕ → Option String

pub data AgentEffect : Type 0 where
  started killed closed_terminal closed_stdin : ℕ → AgentEffect
  signalled : ℕ → ℕ → AgentEffect
  wrote : Bytes → Bytes → AgentEffect
  resized : Bytes → ℕ → ℕ → AgentEffect

pub record Agent : Type 0 where
  pub processes : ProcessManager
  pub effects : List AgentEffect

pub data UnaryBody : Type 0 where
  empty_map : UnaryBody
  list_response : ConnectListResponse → UnaryBody

-- `streaming` is the answer that goes on with the output of a process, read from a channel.
pub data Response : Type 0 where
  method_not_allowed : Response
  http_error : ℕ → String → Response
  unary : ConnectCodec → UnaryBody → Response
  streaming : ConnectCodec → Bytes → ℕ → Response

abbrev pub is_error : Response → Bool
is_error method_not_allowed = true
is_error (http_error code text) = true
is_error _ = false

abbrev pub codec_of : HttpRequest → ConnectCodec
codec_of r = connect_codec_from_content_type r.content_type

abbrev pub note_effect : AgentEffect → Agent → Agent
note_effect e a = record a { effects = a.effects ++ (e ∷ []) }

unfoldable pub handle_connect_list : HttpRequest → Agent → Response × Agent
handle_connect_list r a = for_method r.method
  where
    answer : Response × Agent
    answer = (
      unary (codec_of r) (
          list_response
            (record { processes = map connect_process_info_from_process_info (list a.processes) })),
      a,
    )

    for_method : Method → Response × Agent
    for_method post_method = answer
    for_method get_method = answer
    for_method other_method = (method_not_allowed, a)

-- The end of a handler that called the operating system.
abbrev pub reply : ConnectCodec → ℕ → Option String → Agent → Response × Agent
reply codec code none a = (unary codec empty_map, a)
reply codec code (some text) a = (http_error code text, a)

-- What a handler does with an agent.
abbrev pub Handling : Type 0
Handling = Agent → Response × Agent

-- The guards that the handlers share: the method, the body and the process of a selector.
abbrev pub posted : Method → Handling → Handling
posted post_method k a = k a
posted get_method k a = (method_not_allowed, a)
posted other_method k a = (method_not_allowed, a)

abbrev pub accepted : {A : Type 0} → String → Result RequestError A → (A → Handling) → Handling
accepted message (err e) k a = (http_error 400 message, a)
accepted message (ok req) k a = k req a

abbrev pub found : Option ManagedProcess → (ManagedProcess → Handling) → Handling
found none k a = (http_error 404 "process not found", a)
found (some proc) k a = k proc a

-- signalProcess with the number of the request.
unfoldable pub send_signal_to : Os → ConnectCodec → ℕ → Option ℕ → Handling
send_signal_to os codec number none a = (http_error 500 "process is not running", a)
send_signal_to os codec number (some n) a =
    reply codec 500 (os.signal n (signal_from_number number))
      (note_effect (signalled n (signal_from_number number)) a)

abbrev pub read_send_signal : Os → HttpRequest → Result RequestError ConnectSendSignalRequest
read_send_signal os r =
    read_connect_request os.json_send_signal
      (λ payload. unmarshal_send_signal_request payload (record { process = none; signal = 0 }))
      (codec_of r) r.body

unfoldable pub handle_connect_send_signal : Os → HttpRequest → Handling
handle_connect_send_signal os r a =
    posted r.method
      (accepted "invalid send signal request body" (read_send_signal os r) (λ req.
        found (process_from_selector req.process a.processes)
          (λ proc. send_signal_to os (codec_of r) req.signal proc.os_pid)))
      a

-- Input goes to stdin when there is one, otherwise to the terminal; an empty one goes nowhere.
unfoldable pub write_input_to : Os → ConnectCodec → ManagedProcess → Bytes → Handling
write_input_to os codec proc payload a =
    if is_empty payload
    then (unary codec empty_map, a)
    else if proc.has_stdin || proc.has_terminal
    then reply codec 500 (os.write proc.id payload) (note_effect (wrote proc.id payload) a)
    else (http_error 500 "process stdin is not enabled", a)

unfoldable pub decoded_input : Os → ConnectCodec → ManagedProcess → Option Bytes → Handling
decoded_input os codec proc none a = (http_error 400 "decode input bytes", a)
decoded_input os codec proc (some payload) a = write_input_to os codec proc payload a

unfoldable pub input_of : Os → ConnectCodec → ManagedProcess → Option ConnectProcessInput → Handling
input_of os codec proc none a = (http_error 400 "input is required", a)
input_of os codec proc (some input) a = decoded_input os codec proc (decode_connect_input input) a

abbrev pub read_send_input : Os → HttpRequest → Result RequestError ConnectSendInputRequest
read_send_input os r =
    read_connect_request os.json_send_input
      (λ payload. unmarshal_send_input_request payload (record { process = none; input = none }))
      (codec_of r) r.body

unfoldable pub handle_connect_send_input : Os → HttpRequest → Handling
handle_connect_send_input os r a =
    posted r.method
      (accepted "invalid send input request body" (read_send_input os r) (λ req.
        found (process_from_selector req.process a.processes)
          (λ proc. input_of os (codec_of r) proc req.input)))
      a

-- resizePTY: the columns and rows are not 0 here, since the fallback stands for 0.
unfoldable pub resize_to : Os → ConnectCodec → ManagedProcess → ℕ × ℕ → Handling
resize_to os codec proc (rows, cols) a =
    if proc.has_terminal
    then reply codec 400 (os.resize proc.id cols rows) (note_effect (resized proc.id cols rows) a)
    else (http_error 400 "pty is not assigned", a)

unfoldable pub update_size : Os → ConnectCodec → ManagedProcess → Option ConnectPty → Handling
update_size os codec proc none a = (unary codec empty_map, a)
update_size os codec proc (some pty) a =
    resize_to os codec proc (connect_pty_size_value (some pty) 24 80) a

unfoldable pub handle_connect_update : Os → HttpRequest → Handling
handle_connect_update os r a =
    posted r.method
      (accepted "invalid update request body"
        (read_connect_request os.json_update
          (λ payload. unmarshal_update_request payload (record { process = none; pty = none }))
          (codec_of r) r.body)
        (λ req.
          found (process_from_selector req.process a.processes)
            (λ proc. update_size os (codec_of r) proc req.pty)))
      a

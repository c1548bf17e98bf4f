-- ===== src/Boxd/Handlers/Rest.antt =====
-- The REST handlers of internal/boxd/server/process.go and the end of a process.
use novita_box.Common.{
  ℕ, ◌==◌, Bool, true, false, ◌||◌, Option, none, some, List, [], ◌∷◌, ◌++◌, String, str_eq, Result,
  ok, err, if◌then◌else◌,
}
use novita_box.Boxd.Wire.{Bytes}
use novita_box.Boxd.Base64.{is_empty}
use novita_box.Boxd.Messages.{ProcessExit}
use novita_box.Boxd.Messages.Requests.{eq_bytes}
use novita_box.Boxd.Hub.{new_output_hub, close}
use novita_box.Boxd.Processes.{
  ManagedProcess, ProcessInfo, add, get, info, list, connect_env, parse_process_path,
}
use novita_box.Boxd.Handlers.{
  Method, get_method, post_method, other_method, Os, AgentEffect, started, signalled, resized,
  closed_terminal, closed_stdin, Agent, note_effect,
}

pub record StartProcessRequest : Type 0 where
  pub cmd : List Bytes
  pub cwd : Bytes
  pub env : List (Bytes × Bytes)
  pub tty : Bool
  pub rows : ℕ
  pub cols : ℕ
  pub tag : Bytes

pub record ResizeProcessRequest : Type 0 where
  pub rows : ℕ
  pub cols : ℕ

-- A request, with what the decoder of encoding/json makes of its body for each handler. A signal
-- that cannot be decoded is the empty text.
pub record RestRequest : Type 0 where
  pub method : Method
  pub path : Bytes
  pub start_body : Option StartProcessRequest
  pub resize_body : Option ResizeProcessRequest
  pub signal_body : String

-- `waiting` is a request that has no answer before the process ends.
pub data RestResponse : Type 0 where
  rest_not_allowed rest_not_found rest_no_content waiting : RestResponse
  rest_error : ℕ → String → RestResponse
  process_list : List ProcessInfo → RestResponse
  process_created process_waited : ProcessInfo → RestResponse

abbrev pub RestHandling : Type 0
RestHandling = Agent → RestResponse × Agent

unfoldable pub new_terminal_process : Os → StartProcessRequest → ℕ → Bytes → ManagedProcess
new_terminal_process os req n id = record {
  id = id;
  tag = req.tag;
  cmd = req.cmd;
  cwd = req.cwd;
  tty = true;
  started_at = os.now;
  os_pid = some n;
  has_terminal = true;
  has_stdin = false;
  exit = none;
  output = new_output_hub;
}

unfoldable pub terminal_started : Os → StartProcessRequest → Bytes → Result String ℕ → RestHandling
terminal_started os req id (err text) a = (rest_error 400 text, a)
terminal_started os req id (ok n) a =
    let proc = new_terminal_process os req n id in
    (
      process_created (info proc),
      record { processes = add proc a.processes; effects = a.effects ++ (started n ∷ []) },
    )

-- The identifier is made before the process is started.
unfoldable pub start_terminal :
    Os → StartProcessRequest → Bytes → List Bytes → Option Bytes → RestHandling
start_terminal os req cmd args none a = (rest_error 500 "generate process id failed", a)
start_terminal os req cmd args (some id) a =
    terminal_started os req id
      (os.start_pty cmd args req.cwd (connect_env req.env) req.cols req.rows) a

unfoldable pub start_body_process : Os → Option StartProcessRequest → RestHandling
start_body_process os none a = (rest_error 400 "invalid process request body", a)
start_body_process os (some req) a = with_command req.cmd
  where
    with_command : List Bytes → RestResponse × Agent
    with_command [] = (rest_error 400 "cmd is required", a)
    with_command (cmd ∷ args) =
        if is_empty cmd
        then (rest_error 400 "cmd is required", a)
        else start_terminal os req cmd args os.new_process_id a

unfoldable pub handle_start_process : Os → RestRequest → RestHandling
handle_start_process os r a = start_body_process os r.start_body a

unfoldable pub handle_processes : Os → RestRequest → RestHandling
handle_processes os r a = for_method r.method
  where
    for_method : Method → RestResponse × Agent
    for_method get_method = (process_list (list a.processes), a)
    for_method post_method = handle_start_process os r a
    for_method other_method = (rest_not_allowed, a)

abbrev pub rest_reply : ℕ → Option String → Agent → RestResponse × Agent
rest_reply code none a = (rest_no_content, a)
rest_reply code (some text) a = (rest_error code text, a)

abbrev or_default : ℕ → ℕ → ℕ
or_default fallback n = if n == 0 then fallback else n

-- resizePTY puts 80 columns and 24 rows for 0.
unfoldable pub resize_body_process :
    Os → ManagedProcess → Option ResizeProcessRequest → RestHandling
resize_body_process os proc none a = (rest_error 400 "invalid resize request body", a)
resize_body_process os proc (some req) a =
    if proc.has_terminal
    then rest_reply 400 (os.resize proc.id (or_default 80 req.cols) (or_default 24 req.rows))
        (note_effect (resized proc.id (or_default 80 req.cols) (or_default 24 req.rows)) a)
    else (rest_error 400 "pty is not assigned", a)

unfoldable pub handle_resize_process : Os → RestRequest → ManagedProcess → RestHandling
handle_resize_process os r proc a = for_method r.method
  where
    for_method : Method → RestResponse × Agent
    for_method post_method = resize_body_process os proc r.resize_body a
    for_method _ = (rest_not_allowed, a)

abbrev one_of : String → String → String → String → Bool
one_of s x y z = str_eq s x || (str_eq s y || str_eq s z)

unfoldable pub signal_from_name : String → ℕ
signal_from_name s =
    if one_of s "SIGKILL" "KILL" "9"
    then 9
    else if one_of s "SIGINT" "INT" "2"
    then 2
    else if one_of s "SIGHUP" "HUP" "1"
    then 1
    else 15

unfoldable pub signal_body_process : Os → ℕ → Option ℕ → RestHandling
signal_body_process os sig none a = (rest_error 500 "process is not running", a)
signal_body_process os sig (some n) a =
    rest_reply 500 (os.signal n sig) (note_effect (signalled n sig) a)

unfoldable pub handle_signal_process : Os → RestRequest → ManagedProcess → RestHandling
handle_signal_process os r proc a = for_method r.method
  where
    for_method : Method → RestResponse × Agent
    for_method post_method = signal_body_process os (signal_from_name r.signal_body) proc.os_pid a
    for_method _ = (rest_not_allowed, a)

unfoldable pub handle_wait_process : RestRequest → ManagedProcess → RestHandling
handle_wait_process r proc a = for_method r.method
  where
    for_method : Method → RestResponse × Agent
    for_method get_method = elim proc.exit [
      | none ↦ (waiting, a)
      | some e ↦ (process_waited (info proc), a)
    ]
    for_method _ = (rest_not_allowed, a)

-- "resize", "signal" and "wait"; the action "connect" is a websocket and not here.
unfoldable pub process_action : Os → RestRequest → Bytes → Option ManagedProcess → RestHandling
process_action os r action none a = (rest_error 404 "process not found", a)
process_action os r action (some proc) a =
    if eq_bytes action (114 ∷ 101 ∷ 115 ∷ 105 ∷ 122 ∷ 101 ∷ [])
    then handle_resize_process os r proc a
    else if eq_bytes action (115 ∷ 105 ∷ 103 ∷ 110 ∷ 97 ∷ 108 ∷ [])
    then handle_signal_process os r proc a
    else if eq_bytes action (119 ∷ 97 ∷ 105 ∷ 116 ∷ [])
    then handle_wait_process r proc a
    else (rest_not_found, a)

unfoldable pub handle_process : Os → RestRequest → RestHandling
handle_process os r a = elim (parse_process_path r.path) [
  | none ↦ (rest_not_found, a)
  | some parsed ↦ process_action os r parsed.1 (get parsed.0 a.processes) a
]

-- The end of a process, after its outputs were read to their end: the exit is kept, the handles
-- are closed, and the hub is closed. Five minutes later it is removed from the table.
unfoldable pub finish : ProcessExit → ManagedProcess → ManagedProcess
finish exit proc = record proc { exit = some exit; output = close proc.output }

unfoldable pub finish_effects : ManagedProcess → ℕ → List AgentEffect
finish_effects proc n =
    (if proc.has_terminal then closed_terminal n ∷ [] else [])
    ++ (if proc.has_stdin then closed_stdin n ∷ [] else [])

-- ===== src/Boxd/Handlers/Start.antt =====
-- handleConnectStart and handleConnectAttach of internal/boxd/server/process.go.
use novita_box.Common.{
  ℕ, Bool, true, false, Option, none, some, List, [], ◌∷◌, ◌++◌, String, Result, ok, err,
  if◌then◌else◌,
}
use novita_box.Boxd.Wire.{Bytes}
use novita_box.Boxd.Base64.{is_empty}
use novita_box.Boxd.Body.{ConnectCodec, RequestError, read_connect_request}
use novita_box.Boxd.Messages.{ConnectProcessConfig, ConnectStartRequest}
use novita_box.Boxd.Messages.Requests.{unmarshal_start_request, unmarshal_connect_request, eq_bytes}
use novita_box.Boxd.Hub.{new_output_hub, subscribe}
use novita_box.Boxd.Processes.{
  ManagedProcess, ProcessManager, add, process_from_selector, connect_pty_size_value,
  connect_string, connect_env,
}
use novita_box.Boxd.Handlers.{
  HttpRequest, Os, AgentEffect, started, killed, closed_terminal, closed_stdin, http_error,
  streaming, codec_of, Handling, posted, accepted, found,
}

abbrev pub empty_start : ConnectStartRequest
empty_start = record { process = none; pty = none; tag = none; stdin = none }

-- What the request asks for: a terminal, or pipes with or without stdin.
abbrev pub wants_terminal : ConnectStartRequest → Bool
wants_terminal req = elim req.pty [ none ↦ false | some pty ↦ true ]

abbrev pub wants_stdin : ConnectStartRequest → Bool
wants_stdin req = if wants_terminal req then false else elim req.stdin [ none ↦ false | some b ↦ b ]

unfoldable pub spawn : Os → ConnectStartRequest → ConnectProcessConfig → Result String ℕ
spawn os req cfg =
    let (rows, cols) = connect_pty_size_value req.pty 24 80 in
    if wants_terminal req
    then os.start_pty cfg.cmd cfg.args (connect_string cfg.cwd) (connect_env cfg.envs) cols rows
    else os.start_pipe cfg.cmd cfg.args (connect_string cfg.cwd) (connect_env cfg.envs)
        (wants_stdin req)

-- The process with its first subscriber, whose channel has the number 0.
unfoldable pub new_process :
    Os → ConnectStartRequest → ConnectProcessConfig → ℕ → Bytes → ManagedProcess
new_process os req cfg n id = record {
  id = id;
  tag = connect_string req.tag;
  cmd = cfg.cmd ∷ cfg.args;
  cwd = connect_string cfg.cwd;
  tty = wants_terminal req;
  started_at = os.now;
  os_pid = some n;
  has_terminal = wants_terminal req;
  has_stdin = wants_stdin req;
  exit = none;
  output = (subscribe new_output_hub).1;
}

-- The handles are closed and the process is killed.
unfoldable pub clean_up : ConnectStartRequest → ℕ → List AgentEffect
clean_up req n =
    (if wants_terminal req then closed_terminal n ∷ [] else [])
    ++ ((if wants_stdin req then closed_stdin n ∷ [] else []) ++ (killed n ∷ []))

-- Behind the start of the process: an identifier, the table and the first subscriber. The output
-- is read, and so published, only after the subscription.
unfoldable pub register :
    Os → ConnectCodec → ConnectStartRequest → ConnectProcessConfig → ℕ → Option Bytes → Handling
register os codec req cfg n none a = (
  http_error 500 "generate process id failed",
  record a { effects = a.effects ++ clean_up req n },
)
register os codec req cfg n (some id) a = (
  streaming codec id (subscribe new_output_hub).0,
  record a { processes = add (new_process os req cfg n id) a.processes },
)

unfoldable pub spawned :
    Os → ConnectCodec → ConnectStartRequest → ConnectProcessConfig → Result String ℕ → Handling
spawned os codec req cfg (err text) a = (http_error 400 text, a)
spawned os codec req cfg (ok n) a =
    register os codec req cfg n os.new_process_id
      (record a { effects = a.effects ++ (started n ∷ []) })

unfoldable pub start_command :
    Os → ConnectCodec → ConnectStartRequest → Option ConnectProcessConfig → Handling
start_command os codec req none a = (http_error 400 "process.cmd is required", a)
start_command os codec req (some cfg) a =
    if is_empty cfg.cmd
    then (http_error 400 "process.cmd is required", a)
    else spawned os codec req cfg (spawn os req cfg) a

abbrev pub read_start : Os → HttpRequest → Result RequestError ConnectStartRequest
read_start os r =
    read_connect_request os.json_start (λ payload. unmarshal_start_request payload empty_start)
      (codec_of r) r.body

unfoldable pub handle_connect_start : Os → HttpRequest → Handling
handle_connect_start os r a =
    posted r.method
      (accepted "invalid connect start request body" (read_start os r)
        (λ req. start_command os (codec_of r) req req.process))
      a

-- A subscription to the process of this identifier.
unfoldable pub attach : Bytes → ProcessManager → ProcessManager
attach id [] = []
attach id (p ∷ ps) =
    let rest = attach id ps in
    if eq_bytes p.id id then record p { output = (subscribe p.output).1 } ∷ ps else p ∷ rest

unfoldable pub handle_connect_attach : Os → HttpRequest → Handling
handle_connect_attach os r a =
    posted r.method
      (accepted "invalid connect request body"
        (read_connect_request os.json_connect unmarshal_connect_request (codec_of r) r.body)
        (λ req. found (process_from_selector req.process a.processes) (λ proc b. (
          streaming (codec_of r) proc.id (subscribe proc.output).0,
          record b { processes = attach proc.id b.processes },
        ))))
      a

-- ===== src/Boxd/Handlers/Guards.antt =====
-- What the handlers of the Connect API do to the processes, on every branch.
use mathlib.Core.List.{append_assoc}
use novita_box.Common.{
  ℕ, ◌≡◌, refl, ap, sym, ◌⊎◌, inl, inr, true, arith, Option, none, some, List, [], ◌∷◌, ◌++◌,
  String, Result, ok, err, if_elim, if◌then◌else◌,
}
use novita_box.Boxd.Wire.{Bytes}
use novita_box.Boxd.Base64.{is_empty}
use novita_box.Boxd.Body.{ConnectCodec, RequestError}
use novita_box.Boxd.Messages.{ConnectProcessConfig, ConnectStartRequest, ConnectSendSignalRequest}
use novita_box.Boxd.Hub.{subscribe, new_output_hub}
use novita_box.Boxd.Processes.{ManagedProcess, add, process_from_selector, signal_from_number}
use novita_box.Boxd.Handlers.{
  Method, get_method, post_method, other_method, HttpRequest, Os, started, signalled, killed,
  closed_terminal, closed_stdin, AgentEffect, Agent, Response, is_error, method_not_allowed,
  http_error, streaming, codec_of, note_effect, reply, Handling, posted, accepted, found,
  send_signal_to, read_send_signal, handle_connect_send_signal,
}
use novita_box.Boxd.Handlers.Start.{
  spawn, new_process, clean_up, wants_terminal, wants_stdin, register, spawned, start_command,
  read_start, handle_connect_start,
}

module _ (P : Response × Agent → Type 0) where
  posted_elim :
      (m : Method) (k : Handling) (a : Agent)
      → P (method_not_allowed, a)
      → P (k a)
      → P (posted m k a)
  posted_elim post_method k a refused handled = handled
  posted_elim get_method k a refused handled = refused
  posted_elim other_method k a refused handled = refused

  accepted_elim :
      {A : Type 0} (text : String) (r : Result RequestError A) (k : A → Handling) (a : Agent)
      → P (http_error 400 text, a)
      → ((req : A) → r ≡ ok req → P (k req a))
      → P (accepted text r k a)
  accepted_elim text (err e) k a refused handled = refused
  accepted_elim text (ok req) k a refused handled = handled req refl

  found_elim :
      (p : Option ManagedProcess) (k : ManagedProcess → Handling) (a : Agent)
      → P (http_error 404 "process not found", a)
      → ((proc : ManagedProcess) → p ≡ some proc → P (k proc a))
      → P (found p k a)
  found_elim none k a refused handled = refused
  found_elim (some proc) k a refused handled = handled proc refl

module _ (os : Os) (codec : ConnectCodec) (a : Agent) where
  -- The three ends of a request to start a process.
  abbrev pub IsStartEnd : Response × Agent → Type 0
  IsStartEnd (response, b) =
      (b ≡ a)
      ⊎ ((n : ℕ) × (closes : List AgentEffect) × (b ≡ record a {
        effects = (a.effects ++ (started n ∷ [])) ++ (closes ++ (killed n ∷ []));
      }))
      ⊎ ((req : ConnectStartRequest) × (cfg : ConnectProcessConfig) × (n : ℕ) × (id : Bytes)
          × (spawn os req cfg ≡ ok n)
          × (response ≡ streaming codec id 0)
          × (b ≡ record {
            processes = add (new_process os req cfg n id) a.processes;
            effects = a.effects ++ (started n ∷ []);
          }))

  register-IsStartEnd :
      (req : ConnectStartRequest) (cfg : ConnectProcessConfig) (n : ℕ) (id : Option Bytes)
      → spawn os req cfg ≡ ok n
      → IsStartEnd
          (register os codec req cfg n id (record a { effects = a.effects ++ (started n ∷ []) }))
  unfolding register subscribe new_output_hub clean_up
  register-IsStartEnd req cfg n none h = inr (inl (n, handles, ap with_end ends))
    where
      handles : List AgentEffect
      handles =
          (if wants_terminal req then closed_terminal n ∷ [] else [])
          ++ (if wants_stdin req then closed_stdin n ∷ [] else [])

      with_end : List AgentEffect → Agent
      with_end end = record a { effects = (a.effects ++ (started n ∷ [])) ++ end }

      ends : clean_up req n ≡ handles ++ (killed n ∷ [])
      ends = sym (
          append_assoc (if wants_terminal req then closed_terminal n ∷ [] else [])
            (if wants_stdin req then closed_stdin n ∷ [] else []) (killed n ∷ []))
  register-IsStartEnd req cfg n (some id) h = inr (inr (req, cfg, n, id, h, refl, refl))

  spawned-IsStartEnd :
      (req : ConnectStartRequest) (cfg : ConnectProcessConfig) (r : Result String ℕ)
      → spawn os req cfg ≡ r
      → IsStartEnd (spawned os codec req cfg r a)
  unfolding spawned
  spawned-IsStartEnd req cfg (err text) h = inl refl
  spawned-IsStartEnd req cfg (ok n) h = register-IsStartEnd req cfg n os.new_process_id h

  start_command-IsStartEnd :
      (req : ConnectStartRequest) (cfg : Option ConnectProcessConfig)
      → IsStartEnd (start_command os codec req cfg a)
  unfolding start_command
  start_command-IsStartEnd req none = inl refl
  start_command-IsStartEnd req (some cfg) =
      if_elim IsStartEnd (is_empty cfg.cmd) (λ _. inl refl)
        (λ _. spawned-IsStartEnd req cfg (spawn os req cfg) refl)

-- A request to start a process leaves the agent as it was; or the process was started and killed
-- at the end, with the table as it was; or it was started, stands in the table, and the answer is
-- the stream of channel 0 of its hub. It never runs outside the table.
pub handle_connect_start-cases :
    (os : Os) (r : HttpRequest) (a : Agent)
    → IsStartEnd os (codec_of r) a (handle_connect_start os r a)
unfolding handle_connect_start
handle_connect_start-cases os r a =
    posted_elim (IsStartEnd os (codec_of r) a) r.method _ a (inl refl) (
      accepted_elim (IsStartEnd os (codec_of r) a) "invalid connect start request body"
        (read_start os r) (λ req. start_command os (codec_of r) req req.process) a (inl refl)
        (λ req h. start_command-IsStartEnd os (codec_of r) a req req.process))

-- The signal for a number: SIGKILL, SIGINT and SIGHUP are themselves, all else is SIGTERM.
abbrev IsKept : ℕ → Type 0
IsKept number = (number ≡ 9) ⊎ (number ≡ 2) ⊎ (number ≡ 1)

abbrev pub IsSignalOf : ℕ → ℕ → Type 0
IsSignalOf number sent = (IsKept number × (sent ≡ number)) ⊎ ((IsKept number → ⊥) × (sent ≡ 15))

pub signal_from_number-IsSignalOf : (number : ℕ) → IsSignalOf number (signal_from_number number)
unfolding signal_from_number
signal_from_number-IsSignalOf number = ground arith

module _ (os : Os) (r : HttpRequest) (a : Agent) where
  -- The ends of a request for a signal: nothing happened, or the process that the selector of the
  -- request finds got the signal of the request.
  abbrev pub IsSignalEnd : Response × Agent → Type 0
  IsSignalEnd (response, b) =
      ((b ≡ a) × (is_error response ≡ true))
      ⊎ ((req : ConnectSendSignalRequest) × (proc : ManagedProcess) × (n : ℕ) × (sent : ℕ)
          × (read_send_signal os r ≡ ok req)
          × (process_from_selector req.process a.processes ≡ some proc)
          × (proc.os_pid ≡ some n)
          × IsSignalOf req.signal sent
          × ((response, b)
              ≡ reply (codec_of r) 500 (os.signal n sent) (note_effect (signalled n sent) a)))

  send_signal_to-IsSignalEnd :
      (req : ConnectSendSignalRequest) (proc : ManagedProcess) (n : Option ℕ)
      → read_send_signal os r ≡ ok req
      → process_from_selector req.process a.processes ≡ some proc
      → proc.os_pid ≡ n
      → IsSignalEnd (send_signal_to os (codec_of r) req.signal n a)
  unfolding send_signal_to
  send_signal_to-IsSignalEnd req proc none h f e = inl (refl, refl)
  send_signal_to-IsSignalEnd req proc (some n) h f e = inr (
    req,
    proc,
    n,
    signal_from_number req.signal,
    h,
    f,
    e,
    signal_from_number-IsSignalOf req.signal,
    refl,
  )

-- A request for a signal is refused with an error and nothing happens; or it finds the process of
-- its selector, and exactly this process is sent a signal, once: the numbers 9, 2 and 1 (SIGKILL,
-- SIGINT and SIGHUP) as they are, and 15 (SIGTERM) for every other number.
pub handle_connect_send_signal-cases :
    (os : Os) (r : HttpRequest) (a : Agent) → IsSignalEnd os r a (handle_connect_send_signal os r a)
unfolding handle_connect_send_signal
handle_connect_send_signal-cases os r a =
    posted_elim (IsSignalEnd os r a) r.method _ a (inl (refl, refl)) (
      accepted_elim (IsSignalEnd os r a) "invalid send signal request body" (read_send_signal os r)
        _ a (inl (refl, refl))
        (λ req h.
          found_elim (IsSignalEnd os r a) (process_from_selector req.process a.processes)
            (λ proc. send_signal_to os (codec_of r) req.signal proc.os_pid) a (inl (refl, refl))
            (λ proc f. send_signal_to-IsSignalEnd os r a req proc proc.os_pid h f refl)))

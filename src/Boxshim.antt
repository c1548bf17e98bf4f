-- ===== src/Boxshim.antt =====
-- internal/boxshim/runtime/stub.go, unsupported.go and driver.go, and the service of
-- internal/boxshim/server/server.go. A driver takes its state and gives the next one back; its
-- lock makes each call one step.
pub mod Machine
use novita_box.Common.{
  ℕ, Bool, true, false, not, ◌&&◌, ◌||◌, Option, none, some, List, [], ◌∷◌, String, str_eq,
  if◌then◌else◌, Result, ok, err, ◌>>=◌,
}
use novita_box.Boxlet.Types.{
  RuntimeType, unspecified, firecracker, cloud_hypervisor, container, RuntimeSpec,
}

pub data RuntimeState : Type 0 where
  state_running state_paused state_stopped state_exited state_unknown : RuntimeState

pub record RuntimeInfo : Type 0 where
  pub sandbox_id : String
  pub runtime_type : RuntimeType
  pub state : RuntimeState
  pub pid : ℕ
  pub shim_socket_path : String
  pub runtime_socket_path : String
  pub error_message : String

pub data ShimError : Type 0 where
  spec_required spec_id_required id_required balloon_unsupported hinting_unsupported : ShimError
  not_created : String → ShimError
  -- the sandbox of the runtime, and that of the request
  sandbox_mismatch : String → String → ShimError
  -- the message of an unsupported driver
  unsupported : String → ShimError

-- os.Getpid, the configuration and filepath.Join.
pub record ShimEnv : Type 0 where
  pub pid : ℕ
  pub root_dir : String
  pub shim_socket_path : String
  pub join : List String → String

pub record StubDriver : Type 0 where
  pub info : Option RuntimeInfo
  pub spec : Option RuntimeSpec

abbrev pub new_stub_driver : StubDriver
new_stub_driver = record { info = none; spec = none }

abbrev pub or_firecracker : RuntimeType → RuntimeType
or_firecracker unspecified = firecracker
or_firecracker t = t

unfoldable pub normalize_spec : Option RuntimeSpec → Result ShimError RuntimeSpec
normalize_spec none = err spec_required
normalize_spec (some spec) =
    if str_eq spec.sandbox_id ""
    then err spec_id_required
    else ok (record spec { runtime_type = or_firecracker spec.runtime_type })

-- A call on a driver: the answer and the next state.
abbrev pub Call : Type 0 → Type 0 → Type 0
Call S A = S → Result ShimError A × S

module _ (env : ShimEnv) where
  unfoldable pub new_runtime_info : RuntimeSpec → RuntimeState → RuntimeInfo
  new_runtime_info spec state = record {
    sandbox_id = spec.sandbox_id;
    runtime_type = spec.runtime_type;
    state = state;
    pid = env.pid;
    shim_socket_path = env.shim_socket_path;
    runtime_socket_path =
        env.join
          (env.join (env.root_dir ∷ "sandboxes" ∷ spec.sandbox_id ∷ []) ∷ "runtime.sock" ∷ []);
    error_message = "";
  }

  abbrev fresh : RuntimeSpec → Result ShimError RuntimeInfo × StubDriver
  fresh spec = (
    ok (new_runtime_info spec state_running),
    record { info = some (new_runtime_info spec state_running); spec = some spec },
  )

  unfoldable pub stub_create_spec : Result ShimError RuntimeSpec → Call StubDriver RuntimeInfo
  stub_create_spec (err e) d = (err e, d)
  stub_create_spec (ok spec) d = fresh spec

  unfoldable pub stub_create : Option RuntimeSpec → Call StubDriver RuntimeInfo
  stub_create given d = stub_create_spec (normalize_spec given) d

  -- Resume and Start: without a runtime a new one, otherwise the same sandbox runs again.
  unfoldable pub stub_up : RuntimeSpec → Option RuntimeInfo → Call StubDriver RuntimeInfo
  stub_up spec none d = fresh spec
  stub_up spec (some info) d =
      if str_eq info.sandbox_id spec.sandbox_id
      then (let next = record info {
        runtime_type = spec.runtime_type;
        state = state_running;
        error_message = "";
      } in
          (ok next, record { info = some next; spec = some spec }))
      else (err (sandbox_mismatch info.sandbox_id spec.sandbox_id), d)

  unfoldable pub stub_up_spec : Result ShimError RuntimeSpec → Call StubDriver RuntimeInfo
  stub_up_spec (err e) d = (err e, d)
  stub_up_spec (ok spec) d = stub_up spec d.info d

  unfoldable pub stub_resume : Option RuntimeSpec → Call StubDriver RuntimeInfo
  stub_resume given d = stub_up_spec (normalize_spec given) d

  unfoldable pub stub_start : Option RuntimeSpec → Call StubDriver RuntimeInfo
  stub_start given d = stub_up_spec (normalize_spec given) d

unfoldable pub transition_of :
    String → RuntimeState → Option RuntimeInfo → Call StubDriver RuntimeInfo
transition_of id state none d = (err (not_created id), d)
transition_of id state (some info) d =
    if str_eq info.sandbox_id id
    then (let next = record info { state = state; error_message = "" } in
        (ok next, record d { info = some next }))
    else (err (sandbox_mismatch info.sandbox_id id), d)

unfoldable pub transition : String → RuntimeState → Call StubDriver RuntimeInfo
transition id state d =
    if str_eq id "" then (err id_required, d) else transition_of id state d.info d

unfoldable pub status_of : String → Option RuntimeInfo → Result ShimError RuntimeInfo
status_of id none = ok (record {
  sandbox_id = id;
  runtime_type = unspecified;
  state = state_unknown;
  pid = 0;
  shim_socket_path = "";
  runtime_socket_path = "";
  error_message = "";
})
status_of id (some info) =
    if not (str_eq id "") && not (str_eq info.sandbox_id id)
    then err (sandbox_mismatch info.sandbox_id id)
    else ok info

-- The interface of the drivers; a timeout in seconds goes to Stop and Reboot.
pub record Driver (S : Type 0) : Type 0 where
  pub create : Option RuntimeSpec → Call S RuntimeInfo
  pub pause : String → Call S RuntimeInfo
  pub resume : Option RuntimeSpec → Call S RuntimeInfo
  pub kill : String → Call S RuntimeInfo
  pub start : Option RuntimeSpec → Call S RuntimeInfo
  pub stop : String → ℕ → Call S RuntimeInfo
  pub reboot : String → ℕ → Call S RuntimeInfo
  pub status : String → Call S RuntimeInfo

unfoldable pub stub_driver : ShimEnv → Driver StubDriver
stub_driver env = record {
  create = stub_create env;
  pause = λ id. transition id state_paused;
  resume = stub_resume env;
  kill = λ id. transition id state_exited;
  start = stub_start env;
  stop = λ id timeout. transition id state_stopped;
  reboot = λ id timeout. transition id state_running;
  status = λ id d. (status_of id d.info, d);
}

unfoldable pub unsupported_driver : String → Driver (Unit {0})
unsupported_driver message = record {
  create = λ spec d. (err (unsupported message), d);
  pause = λ id d. (err (unsupported message), d);
  resume = λ spec d. (err (unsupported message), d);
  kill = λ id d. (err (unsupported message), d);
  start = λ spec d. (err (unsupported message), d);
  stop = λ id timeout d. (err (unsupported message), d);
  reboot = λ id timeout d. (err (unsupported message), d);
  status = λ id d. (err (unsupported message), d);
}

pub data ShimRequest : Type 0 where
  create_runtime resume_runtime start_runtime : Option RuntimeSpec → ShimRequest
  pause_runtime kill_runtime status_runtime : String → ShimRequest
  stop_runtime reboot_runtime : String → ℕ → ShimRequest

-- The service: a driver, and whether the server was asked to stop.
pub record Shim (S : Type 0) : Type 0 where
  pub driver_state : S
  pub stop_requested : Bool

module _ {S : Type 0} (driver : Driver S) where
  abbrev served :
      Result ShimError RuntimeInfo × S → Bool → Result ShimError (Option RuntimeInfo) × Shim S
  served (err e, s) stops = (err e, record { driver_state = s; stop_requested = stops })
  served (ok info, s) stops = (ok (some info), record { driver_state = s; stop_requested = stops })

  -- Kill answers with an empty message, and asks the server to stop when it succeeds.
  abbrev killed_runtime :
      Result ShimError RuntimeInfo × S → Bool → Result ShimError (Option RuntimeInfo) × Shim S
  killed_runtime (err e, s) stops = (err e, record { driver_state = s; stop_requested = stops })
  killed_runtime (ok info, s) stops = (ok none, record { driver_state = s; stop_requested = true })

  unfoldable pub serve : ShimRequest → Shim S → Result ShimError (Option RuntimeInfo) × Shim S
  serve (create_runtime spec) shim =
      served (driver.create spec shim.driver_state) shim.stop_requested
  serve (resume_runtime spec) shim =
      served (driver.resume spec shim.driver_state) shim.stop_requested
  serve (start_runtime spec) shim = served (driver.start spec shim.driver_state) shim.stop_requested
  serve (pause_runtime id) shim = served (driver.pause id shim.driver_state) shim.stop_requested
  serve (status_runtime id) shim = served (driver.status id shim.driver_state) shim.stop_requested
  serve (stop_runtime id t) shim = served (driver.stop id t shim.driver_state) shim.stop_requested
  serve (reboot_runtime id t) shim =
      served (driver.reboot id t shim.driver_state) shim.stop_requested
  serve (kill_runtime id) shim =
      killed_runtime (driver.kill id shim.driver_state) shim.stop_requested

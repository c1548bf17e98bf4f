-- ===== src/Boxshim/Machine.antt =====
-- The stub runtime as a machine that knows its sandbox and whether it runs.
use novita_box.Common.{
  ◌≡◌, refl, ap, ◌∙◌, Bool, true, false, not, ◌&&◌, Option, none, some, List, [], ◌∷◌, String,
  str_eq, if◌then◌else◌, arith, Result, ok, err,
}
use novita_box.Boxlet.Types.{RuntimeSpec}
use novita_box.Boxshim.{
  RuntimeState, state_running, state_paused, state_stopped, state_exited, RuntimeInfo, ShimError,
  ShimEnv, StubDriver, normalize_spec, new_runtime_info, stub_create_spec, stub_create, stub_up,
  stub_up_spec, stub_resume, stub_start, transition_of, transition, status_of, stub_driver,
  ShimRequest, create_runtime, resume_runtime, start_runtime, pause_runtime, kill_runtime,
  status_runtime, stop_runtime, reboot_runtime, Shim, serve,
}

-- No runtime, or that of a sandbox in a state; and whether the server is to stop.
pub record Machine : Type 0 where
  pub runtime : Option (String × RuntimeState)
  pub stopping : Bool

-- The identifier of a spec that names its sandbox.
abbrev pub spec_id : Option RuntimeSpec → Option String
spec_id none = none
spec_id (some spec) = if str_eq spec.sandbox_id "" then none else some spec.sandbox_id

-- Each step says whether it succeeds, and what the machine is afterwards.
abbrev machine_create : Option String → Machine → Bool × Machine
machine_create none m = (false, m)
machine_create (some id) m = (true, record m { runtime = some (id, state_running) })

abbrev machine_bring_up : String → Option (String × RuntimeState) → Machine → Bool × Machine
machine_bring_up id none m = (true, record m { runtime = some (id, state_running) })
machine_bring_up id (some (has, state)) m =
    if str_eq has id then (true, record m { runtime = some (has, state_running) }) else (false, m)

abbrev machine_up : Option String → Machine → Bool × Machine
machine_up none m = (false, m)
machine_up (some id) m = machine_bring_up id m.runtime m

abbrev move_to : String → RuntimeState → Option (String × RuntimeState) → Machine → Bool × Machine
move_to id next none m = (false, m)
move_to id next (some (has, state)) m =
    if str_eq has id then (true, record m { runtime = some (has, next) }) else (false, m)

abbrev machine_move : String → RuntimeState → Machine → Bool × Machine
machine_move id next m = if str_eq id "" then (false, m) else move_to id next m.runtime m

abbrev asks_other : String → Option (String × RuntimeState) → Bool
asks_other id none = false
asks_other id (some (has, state)) = not (str_eq id "") && not (str_eq has id)

abbrev stop_if : Bool × Machine → Bool × Machine
stop_if (false, m) = (false, m)
stop_if (true, m) = (true, record m { stopping = true })

abbrev pub machine_step : ShimRequest → Machine → Bool × Machine
machine_step (create_runtime spec) m = machine_create (spec_id spec) m
machine_step (resume_runtime spec) m = machine_up (spec_id spec) m
machine_step (start_runtime spec) m = machine_up (spec_id spec) m
machine_step (pause_runtime id) m = machine_move id state_paused m
machine_step (kill_runtime id) m = stop_if (machine_move id state_exited m)
machine_step (status_runtime id) m = (not (asks_other id m.runtime), m)
machine_step (stop_runtime id t) m = machine_move id state_stopped m
machine_step (reboot_runtime id t) m = machine_move id state_running m

abbrev view_info : Option RuntimeInfo → Option (String × RuntimeState)
view_info none = none
view_info (some info) = some (info.sandbox_id, info.state)

abbrev pub view : Shim StubDriver → Machine
view shim = record { runtime = view_info shim.driver_state.info; stopping = shim.stop_requested }

abbrev pub is_ok : {A : Type 0} → Result ShimError A → Bool
is_ok (ok a) = true
is_ok (err e) = false

abbrev seen_as : {A : Type 0} → Result ShimError A × Shim StubDriver → Bool × Machine
seen_as (r, shim) = (is_ok r, view shim)

module _ (env : ShimEnv) where
  serve_refines :
      (q : ShimRequest) (shim : Shim StubDriver)
      → seen_as (serve (stub_driver env) q shim) ≡ machine_step q (view shim)
  unfolding serve stub_driver stub_create stub_create_spec stub_resume stub_start stub_up_spec
      stub_up transition transition_of status_of normalize_spec new_runtime_info
  serve_refines (create_runtime spec) shim = ground arith
  serve_refines (resume_runtime spec) shim = ground arith
  serve_refines (start_runtime spec) shim = ground arith
  serve_refines (pause_runtime id) shim = ground arith
  serve_refines (kill_runtime id) shim = ground arith
  serve_refines (status_runtime id) shim = ground arith
  serve_refines (stop_runtime id t) shim = ground arith
  serve_refines (reboot_runtime id t) shim = ground arith

  -- The answers to a list of requests, by their success, and the end.
  abbrev pub serve_all : List ShimRequest → Shim StubDriver → List Bool × Shim StubDriver
  serve_all [] shim = ([], shim)
  serve_all (q ∷ qs) shim =
      let (r, next) = serve (stub_driver env) q shim in
      let (rs, last) = serve_all qs next in (is_ok r ∷ rs, last)

abbrev pub machine_run : List ShimRequest → Machine → List Bool × Machine
machine_run [] m = ([], m)
machine_run (q ∷ qs) m =
    let (r, next) = machine_step q m in let (rs, last) = machine_run qs next in (r ∷ rs, last)

-- Whatever requests the shim of a stub runtime serves, they succeed and fail as those of the
-- machine, and leave the sandbox, its state and the wish to stop as the machine has them.
pub serve_all-refines :
    (env : ShimEnv) (qs : List ShimRequest) (shim : Shim StubDriver)
    → let (answers, last) = serve_all env qs shim in
      (answers, view last) ≡ machine_run qs (view shim)
serve_all-refines env [] shim = refl
serve_all-refines env (q ∷ qs) shim =
    let rest = serve_all-refines env qs (serve (stub_driver env) q shim).1 in
    let one = serve_refines env q shim in
    ap (λ (p : List Bool × Machine). (is_ok (serve (stub_driver env) q shim).0 ∷ p.0, p.1)) rest
    ∙ ap (λ (p : Bool × Machine). (p.0 ∷ (machine_run qs p.1).0, (machine_run qs p.1).1)) one

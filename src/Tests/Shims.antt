-- ===== src/Tests/Shims.antt =====
-- A shim that pauses, resumes and kills its sandbox.
use novita_box.Common.{◌≡◌, refl, true, false, none, some, List, [], ◌∷◌}
use novita_box.Boxlet.Types.{firecracker, RuntimeSpec}
use novita_box.Boxshim.{
  ShimEnv, new_stub_driver, ShimRequest, create_runtime, pause_runtime, kill_runtime,
  resume_runtime, Shim, StubDriver,
}
use novita_box.Boxshim.Machine.{view, serve_all, machine_run, serve_all-refines}

abbrev shim_env : ShimEnv
shim_env = record { pid = 7; root_dir = "/r"; shim_socket_path = "/s"; join = λ parts. "joined" }

abbrev spec_of_sandbox : RuntimeSpec
spec_of_sandbox = record {
  sandbox_id = "a";
  runtime_type = firecracker;
  machine = none;
  rootfs = none;
  kernel = none;
  snapshot = none;
  network = none;
  agent = none;
  extra_drives = [];
}

abbrev shim_requests : List ShimRequest
shim_requests =
    pause_runtime "a"
    ∷ create_runtime (some spec_of_sandbox)
    ∷ pause_runtime "a"
    ∷ pause_runtime "b"
    ∷ resume_runtime (some spec_of_sandbox)
    ∷ kill_runtime "a"
    ∷ []

abbrev new_shim : Shim StubDriver
new_shim = record { driver_state = new_stub_driver; stop_requested = false }

serve_all-refines_example :
    let (answers, last) = serve_all shim_env shim_requests new_shim in
    (answers, view last) ≡ machine_run shim_requests (view new_shim)
serve_all-refines_example = serve_all-refines shim_env shim_requests new_shim

answers_of_run :
    (machine_run shim_requests (view new_shim)).0 ≡ false ∷ true ∷ true ∷ false ∷ true ∷ true ∷ []
answers_of_run = refl

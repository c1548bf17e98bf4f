-- ===== src/Boxlet/Sandboxes.antt =====
-- The handlers of internal/boxlet/server/services.go on a sandbox that exists. Closing the connection
-- to the shim is left out: its error is dropped.
use novita_box.Common.{ℕ, String, Bool, ◌||◌, List, [], ◌∷◌, str_eq, if◌then◌else◌, ok, map}
use novita_box.Store.Records.{
  State, state_eq, SandboxRecord, SnapshotRecord, running, pausing, paused, resuming, stopping,
  stopped, starting, rebooting, killing, killed, failed,
}
use novita_box.Store.Sandbox.{get_sandbox, list_sandboxes, delete_sandbox}
use novita_box.Store.Artifact.Snapshots.{
  create_snapshot, delete_snapshot, list_snapshots_by_sandbox,
}
use novita_box.Boxlet.Types.{
  RuntimeSpec, SandboxInfo, SnapshotInfo, sandbox_record_to_proto, snapshot_record_to_proto,
  runtime_type_from_record,
}
use novita_box.Boxlet.Spec.{sandbox_dir, sandbox_runtime_paths, runtime_spec_for_sandbox}
use novita_box.Boxlet.Exec.{
  Env, World, Exec, ◌>>=◌, ◌>>◌, return, ignore, on_error, query, change, call, pause_runtime,
  resume_runtime, kill_runtime, stop_runtime, start_runtime, reboot_runtime, terminate_shim_process,
  remove_sandbox_directory, Effect,
}
use novita_box.Boxlet.Rootfs.{
  provider_name, mount_overlaybd_rootfs, unmount_overlaybd_rootfs, remove_overlaybd_rootfs,
}
use novita_box.Boxlet.Steps.{
  found_sandbox, set_sandbox_state, assign_network_slot, release_sandbox_network, prepare_network,
  ensure_sandbox_agent_current, attach_agent_drive, dial_sandbox_shim, drop_missing,
}

abbrev nothing : Exec (Unit {0})
nothing = return tt

-- sandboxSnapshotRecord; the two readings of the clock are one here
module _ (env : Env) where
  unfoldable pub sandbox_snapshot_record : String → World → SnapshotRecord
  sandbox_snapshot_record id w =
      let paths = sandbox_runtime_paths env.host env.net env.digest env.cfg id in
      record {
        id = env.host.snapshot_id id (env.nanoseconds w);
        sandbox_id = id;
        rootfs_path = paths.rootfs_path;
        memfile_path = paths.memfile_path;
        snapfile_path = paths.snapfile_path;
        created_at = env.clock w;
        updated_at = env.clock w;
      }

  abbrev fail : String → String → Exec (Unit {0})
  fail id action = ignore (set_sandbox_state env id failed action)

  -- the cleanup of resume and start, after a slot was assigned
  unfoldable pub fail_and_release : SandboxRecord → String → Exec (Unit {0})
  fail_and_release r action = do fail r.id action; ignore (release_sandbox_network env r)

  abbrev info_of : SandboxRecord → SandboxInfo
  info_of r = sandbox_record_to_proto r (runtime_type_from_record env.host r.runtime_type)

  -- the last query of a handler
  unfoldable pub current_info : String → Exec SandboxInfo
  current_info id = do r ← query (get_sandbox id); return (info_of r)

  unfoldable pub get_sandbox_info : String → Exec SandboxInfo
  get_sandbox_info id = do r ← found_sandbox env id; return (info_of r)

  unfoldable pub list_sandbox_infos : Exec (List SandboxInfo)
  list_sandbox_infos = query (λ db. ok (map info_of (list_sandboxes db)))

  unfoldable pub pause_sandbox : String → Exec SnapshotInfo
  pause_sandbox id = do
    r ← found_sandbox env id
    set_sandbox_state env r.id pausing "pause"
    on_error (dial_sandbox_shim env r.id) (fail r.id "pause")
    on_error (call env (pause_runtime r.id)) (fail r.id "pause")
    snapshot ← λ w. return (sandbox_snapshot_record r.id w) w
    change env (λ now. create_snapshot now snapshot)
    set_sandbox_state env r.id paused "pause"
    release_sandbox_network env r
    return (snapshot_record_to_proto snapshot)

  -- The part of resume and start from the dial on: `invoke` is the call of the shim.
  unfoldable pub bring_up : SandboxRecord → String → (RuntimeSpec → Effect) → Exec (Unit {0})
  bring_up r action invoke =
      let cleanup = fail_and_release r action in
      do
        on_error (dial_sandbox_shim env r.id) cleanup
        spec ←
            on_error
              (attach_agent_drive env
                (runtime_spec_for_sandbox env.host env.net env.digest env.cfg r))
              cleanup
        on_error (prepare_network env spec.runtime_type spec.network) cleanup
        on_error (call env (invoke spec)) cleanup
        on_error (ensure_sandbox_agent_current env spec.network) cleanup

  -- the rest of ResumeSandbox, once its record is found
  abbrev pub resume_found : SandboxRecord → Exec SandboxInfo
  resume_found r = do
    set_sandbox_state env r.id resuming "resume"
    slot ← on_error (assign_network_slot env r.id) (fail r.id "resume")
    bring_up (record r { network_slot = slot }) "resume" resume_runtime
    set_sandbox_state env r.id running "resume"
    current_info r.id

  unfoldable pub resume_sandbox : String → Exec SandboxInfo
  resume_sandbox id = do r ← found_sandbox env id; resume_found r

  -- the rest of StartSandbox, once its record is found
  abbrev pub start_found : SandboxRecord → Exec SandboxInfo
  start_found r = do
    set_sandbox_state env r.id starting "start"
    slot ← on_error (assign_network_slot env r.id) (fail r.id "start")
    let mounted = str_eq r.rootfs_provider provider_name
    let with_slot = record r { network_slot = slot }
    on_error (if mounted then mount_overlaybd_rootfs env with_slot else nothing)
        (fail_and_release with_slot "start")
    on_error
        (do bring_up with_slot "start" start_runtime; set_sandbox_state env r.id running "start")
        (if mounted then ignore (unmount_overlaybd_rootfs env with_slot) else nothing)
    current_info r.id

  unfoldable pub start_sandbox : String → Exec SandboxInfo
  start_sandbox id = do r ← found_sandbox env id; start_found r

  abbrev pub delete_each : List SnapshotRecord → Exec (Unit {0})
  delete_each [] = nothing
  delete_each (s ∷ rest) = do
    drop_missing (change env (λ now. delete_snapshot s.id))
    delete_each rest

  unfoldable pub delete_sandbox_snapshots : String → Exec (Unit {0})
  delete_sandbox_snapshots id = do
    snapshots ← query (λ db. ok (list_snapshots_by_sandbox id db))
    delete_each snapshots

  -- the rest of KillSandbox, once its record is found
  abbrev pub kill_found : SandboxRecord → Exec (Unit {0})
  kill_found r = do
    set_sandbox_state env r.id killing "kill"
    let dir = sandbox_dir env.host env.net env.digest env.cfg r.id
    ignore (do dial_sandbox_shim env r.id; call env (kill_runtime r.id))
    ignore (call env (terminate_shim_process dir))
    remove_overlaybd_rootfs env r
    set_sandbox_state env r.id killed "kill"
    delete_sandbox_snapshots r.id
    change env (λ now. delete_sandbox r.id)
    call env (remove_sandbox_directory dir)
    ignore (release_sandbox_network env r)

  unfoldable pub kill_sandbox : String → Exec (Unit {0})
  kill_sandbox id = do r ← found_sandbox env id; kill_found r

  abbrev pub is_released : State → Bool
  is_released s = state_eq s stopped || state_eq s paused || state_eq s killed

  -- the rest of runtimeAction, once its record is found
  unfoldable pub action_found :
      SandboxRecord → State → State → String → (String → Effect) → Exec SandboxInfo
  action_found r transition_state final_state action invoke = do
    set_sandbox_state env r.id transition_state action
    on_error (dial_sandbox_shim env r.id) (fail r.id action)
    on_error (call env (invoke r.id)) (fail r.id action)
    set_sandbox_state env r.id final_state action
    if is_released final_state then release_sandbox_network env r else nothing
    current_info r.id

  unfoldable pub runtime_action :
      String → State → State → String → (String → Effect) → Exec SandboxInfo
  runtime_action id transition_state final_state action invoke = do
    r ← found_sandbox env id
    action_found r transition_state final_state action invoke

  unfoldable pub stop_sandbox : String → ℕ → Exec SandboxInfo
  stop_sandbox id timeout = do
    info ← runtime_action id stopping stopped "stop" (λ s. stop_runtime s timeout)
    r ← query (get_sandbox id)
    unmount_overlaybd_rootfs env r
    return info

  unfoldable pub reboot_sandbox : String → ℕ → Exec SandboxInfo
  reboot_sandbox id timeout =
      runtime_action id rebooting running "reboot" (λ s. reboot_runtime s timeout)

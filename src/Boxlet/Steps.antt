-- ===== src/Boxlet/Steps.antt =====
-- The steps that the handlers of internal/boxlet/server/services.go share: states, network slots,
-- the agent, and the files of a new sandbox.
use novita_box.Common.{
  ℕ, String, Bool, not, ◌||◌, Option, none, some, [], ◌∷◌, ltb, str_eq, if◌then◌else◌, Result, ok,
  err,
}
use novita_box.Store.Records.{State, state_eq, SandboxRecord, not_found}
use novita_box.Store.Sandbox.{
  get_sandbox, update_sandbox_state, assign_sandbox_network_slot, release_sandbox_network_slot,
}
use novita_box.Network.Net.{max_slots, network_slot_from_host_access_ip, veth_addrs_for_slot}
use novita_box.Network.Spec.{NetworkSpec, spec_for_slot}
use novita_box.Boxlet.Types.{RuntimeType, is_container, RuntimeSpec, SnapshotSpec}
use novita_box.Boxlet.Spec.{sandbox_dir, with_agent_drive, memfile_path_of, snapfile_path_of}
use novita_box.Boxlet.Exec.{
  Env, World, Exec, ServiceError, ◌>>=◌, ◌>>◌, return, raise, ignore, from_net, query, change,
  or_missing, call, store_failed, missing_setting, bad_boxd_address, ensure_agent_image, make_dir,
  build_namespace, remove_namespace, refresh_agent, dial_shim,
}

abbrev pub nothing : Exec (Unit {0})
nothing = return tt

-- `err != nil && !errors.Is(err, store.ErrNotFound)`
unfoldable pub unless_missing :
    Result ServiceError (Unit {0}) × World → Result ServiceError (Unit {0}) × World
unless_missing (err (store_failed not_found), w) = (ok tt, w)
unless_missing (r, w) = (r, w)

abbrev pub drop_missing : Exec (Unit {0}) → Exec (Unit {0})
drop_missing m w = unless_missing (m w)

abbrev pub host_access_ip_of : Option NetworkSpec → String
host_access_ip_of none = ""
host_access_ip_of (some spec) = spec.host_access_ip

module _ (env : Env) where
  -- GetSandbox, with its error as a status
  abbrev pub found_sandbox : String → Exec SandboxRecord
  found_sandbox id = or_missing (query (get_sandbox id))

  unfoldable pub set_sandbox_state : String → State → String → Exec (Unit {0})
  set_sandbox_state id to action = do
    r ← found_sandbox id
    if state_eq r.state to
        then nothing
        else or_missing (change env (λ now. update_sandbox_state now id r.state to action))

  unfoldable pub assign_network_slot : String → Exec ℕ
  assign_network_slot id = if not env.cfg.network.enabled then return 0 else do
    max_slot ←
        from_net (max_slots env.net env.cfg.network.host_access_cidr env.cfg.network.veth_cidr)
    change env (λ now. assign_sandbox_network_slot now id max_slot)

  abbrev pub remove_network : Option NetworkSpec → Exec (Unit {0})
  remove_network none = nothing
  remove_network (some spec) = ignore (call env (remove_namespace spec))

  -- sandboxNetworkManager.Cleanup: the errors of its commands are dropped
  unfoldable pub cleanup : String → ℕ → Exec (Unit {0})
  cleanup id slot = do
    spec ← from_net (spec_for_slot env.net env.digest env.cfg.network id slot)
    remove_network spec

  unfoldable pub release_sandbox_network : SandboxRecord → Exec (Unit {0})
  release_sandbox_network r = if not env.cfg.network.enabled then nothing else do
    if ltb 0 r.network_slot then cleanup r.id r.network_slot else nothing
    drop_missing (change env (λ now. release_sandbox_network_slot now r.id))

  abbrev build_network : RuntimeType → NetworkSpec → Exec (Unit {0})
  build_network runtime_type spec = do
    slot ← from_net (
        network_slot_from_host_access_ip env.net env.cfg.network.host_access_cidr
          spec.host_access_ip)
    veth ← from_net (veth_addrs_for_slot env.net env.cfg.network.veth_cidr slot)
    call env (build_namespace runtime_type spec veth)

  -- sandboxNetworkManager.Prepare
  unfoldable pub prepare_network : RuntimeType → Option NetworkSpec → Exec (Unit {0})
  prepare_network runtime_type none = nothing
  prepare_network runtime_type (some spec) =
      if str_eq spec.namespace_name "" then nothing else build_network runtime_type spec

  abbrev is_stub : Bool
  is_stub = env.host.equal_fold env.cfg.boxshim.runtime_driver "stub"

  abbrev pub refresh_at : String → Option String → Exec (Unit {0})
  refresh_at ip none = raise bad_boxd_address
  refresh_at ip (some port) = call env (refresh_agent ip port)

  unfoldable pub ensure_sandbox_agent_current : Option NetworkSpec → Exec (Unit {0})
  ensure_sandbox_agent_current spec =
      if is_stub || not env.cfg.network.enabled
      then nothing
      else if str_eq (host_access_ip_of spec) ""
      then raise missing_setting
      else refresh_at (host_access_ip_of spec) (env.host.port_of env.cfg.boxd.addr)

  unfoldable pub attach_agent_drive : RuntimeSpec → Exec RuntimeSpec
  attach_agent_drive spec =
      if is_stub || is_container spec.runtime_type
      then return spec
      else if str_eq env.cfg.template.boxd_binary_path ""
      then raise missing_setting
      else do call env ensure_agent_image; λ w. return (with_agent_drive (env.agent_image w) spec) w

  abbrev pub dial_sandbox_shim : String → Exec (Unit {0})
  dial_sandbox_shim id = call env (
      dial_shim
        (env.host.join (sandbox_dir env.host env.net env.digest env.cfg id ∷ "shim.sock" ∷ [])))

  -- ensureSnapshotSpecDirs
  abbrev ensure_dir : String → Exec (Unit {0})
  ensure_dir path = if str_eq path "" then nothing else call env (make_dir (env.host.dir path))

  unfoldable pub ensure_snapshot_spec_dirs : Option SnapshotSpec → Exec (Unit {0})
  ensure_snapshot_spec_dirs spec = do
    ensure_dir (memfile_path_of spec)
    ensure_dir (snapfile_path_of spec)

-- ===== src/Boxlet/Create.antt =====
-- CreateSandbox of internal/boxlet/server/services.go, with prepareSandboxRuntimeFiles.
use novita_box.Common.{
  String, not, ◌&&◌, ◌||◌, Option, none, some, [], ◌∷◌, str_eq, if◌then◌else◌, Result, ok, err,
}
use novita_box.Store.Records.{SandboxRecord, creating, running, failed, unique_failed, zero_time}
use novita_box.Store.Sandbox.{
  get_sandbox, create_sandbox, update_sandbox_state, update_sandbox_rootfs_digest,
}
use novita_box.Store.Artifact.Images.{get_image}
use novita_box.Store.Artifact.Templates.{Json, get_template}
use novita_box.Boxlet.Types.{
  RuntimeType, unspecified, firecracker, cloud_hypervisor, container, is_container,
  runtime_type_number, runtime_driver_from_runtime_type, RuntimeSpec, RootfsSource,
  CreateSandboxRequest, SandboxInfo, sandbox_record_to_proto,
}
use novita_box.Boxlet.Spec.{
  sandbox_dir, complete_runtime_spec, rootfs_path_of, kernel_path_of, memfile_path_of,
  snapfile_path_of,
}
use novita_box.Boxlet.Exec.{
  Env, World, Exec, ServiceError, ◌>>=◌, ◌>>◌, return, raise, ignore, on_error, query, change, call,
  store_failed, already_exists, invalid_argument, missing_setting, make_dir, link_or_copy_file,
  clone_or_copy_path, clone_or_copy_file, inject_boxd, open_provider, ensure_shim, create_runtime,
  kill_runtime,
}
use novita_box.Boxlet.Rootfs.{provider_name, snapshot_key, prepare, remove, remove_overlaybd_rootfs}
use novita_box.Boxlet.Steps.{
  assign_network_slot, release_sandbox_network, prepare_network, ensure_sandbox_agent_current,
  attach_agent_drive, dial_sandbox_shim, ensure_snapshot_spec_dirs,
}

abbrev pub nothing : Exec (Unit {0})
nothing = return tt

-- isAlreadyExistsError
unfoldable pub existing_error : ServiceError → ServiceError
existing_error (store_failed unique_failed) = already_exists
existing_error e = e

unfoldable pub existing_status :
    Result ServiceError (Unit {0}) × World → Result ServiceError (Unit {0}) × World
unfolding existing_error
existing_status (ok a, w) = (ok a, w)
existing_status (err e, w) = (err (existing_error e), w)

abbrev or_existing : Exec (Unit {0}) → Exec (Unit {0})
or_existing m w = existing_status (m w)

abbrev pub firecracker_if_unspecified : RuntimeType → RuntimeType
firecracker_if_unspecified unspecified = firecracker
firecracker_if_unspecified firecracker = firecracker
firecracker_if_unspecified cloud_hypervisor = cloud_hypervisor
firecracker_if_unspecified container = container

-- the fields of the record that a rootfs source sets, or the refusal of the source
unfoldable pub with_source : RuntimeType → Option RootfsSource → SandboxRecord → Exec SandboxRecord
with_source runtime_type none r = return r
with_source runtime_type (some source) r =
    if not (is_container runtime_type)
    then raise invalid_argument
    else if not (str_eq source.provider provider_name) || str_eq source.image ""
    then raise invalid_argument
    else if not (str_eq source.pull_mode "") && not (str_eq source.pull_mode "lazy")
    then raise invalid_argument
    else return (record r {
      rootfs_provider = provider_name;
      rootfs_source_ref = source.image;
      rootfs_snapshot_key = snapshot_key r.id;
    })

module _ (env : Env) {M : Type 0} (json : Json M) where
  abbrev pub new_record : CreateSandboxRequest → RuntimeType → SandboxRecord
  new_record req runtime_type = record {
    id = req.sandbox_id;
    state = creating;
    runtime_type = env.host.runtime_type_string (runtime_type_number runtime_type);
    template_id = req.template_id;
    image_id = req.image_id;
    snapshot_id = req.snapshot_id;
    network_slot = 0;
    rootfs_provider = "";
    rootfs_source_ref = "";
    rootfs_source_digest = "";
    rootfs_snapshot_key = "";
    created_at = zero_time;
    updated_at = zero_time;
  }

  unfoldable pub prepare_kernel : RuntimeSpec → Exec (Unit {0})
  prepare_kernel spec =
      if str_eq (kernel_path_of spec.kernel) ""
      then nothing
      else if str_eq env.cfg.template.kernel_path ""
      then raise missing_setting
      else call env (link_or_copy_file env.cfg.template.kernel_path (kernel_path_of spec.kernel))

  unfoldable pub prepare_overlaybd : SandboxRecord → RuntimeSpec → Exec (Unit {0})
  prepare_overlaybd r spec = do
    call env open_provider
    handle ← prepare env (record {
      sandbox_id = r.id;
      source_ref = r.rootfs_source_ref;
      target = rootfs_path_of spec.rootfs;
    })
    on_error
        (if str_eq handle.source_digest ""
          then nothing
          else change env (λ now. update_sandbox_rootfs_digest now r.id handle.source_digest))
        (ignore (remove env handle))
    on_error (call env (inject_boxd handle.target)) (ignore (remove env handle))

  -- a file of the template, if it has one and the runtime takes one
  abbrev pub clone_if_given : String → String → Exec (Unit {0})
  clone_if_given source target =
      if str_eq source "" || str_eq target ""
      then nothing
      else call env (clone_or_copy_file source target)

  unfoldable pub prepare_from_template : SandboxRecord → RuntimeSpec → Exec (Unit {0})
  prepare_from_template r spec = do
    template ← query (get_template json r.template_id)
    call env (clone_or_copy_path template.rootfs_path (rootfs_path_of spec.rootfs))
    clone_if_given template.memfile_path (memfile_path_of spec.snapshot)
    clone_if_given template.snapfile_path (snapfile_path_of spec.snapshot)

  unfoldable pub prepare_from_image : SandboxRecord → RuntimeSpec → Exec (Unit {0})
  prepare_from_image r spec = do
    image ← query (get_image r.image_id)
    call env (clone_or_copy_path image.rootfs_path (rootfs_path_of spec.rootfs))

  -- The spec comes back with the drive of the agent, which Go adds in place.
  unfoldable pub prepare_sandbox_runtime_files : SandboxRecord → RuntimeSpec → Exec RuntimeSpec
  prepare_sandbox_runtime_files r given = do
    spec ← attach_agent_drive env given
    prepare_kernel spec
    if str_eq r.rootfs_provider provider_name
        then prepare_overlaybd r spec
        else if not (str_eq r.template_id "")
        then prepare_from_template r spec
        else if not (str_eq r.image_id "")
        then prepare_from_image r spec
        else nothing
    return spec

  -- `_ = s.store.UpdateSandboxState(ctx, sandboxID, StateCreating, StateFailed, "create")`
  abbrev pub fail_create : String → Exec (Unit {0})
  fail_create id = ignore (change env (λ now. update_sandbox_state now id creating failed "create"))

  unfoldable pub fail_create_and_release : SandboxRecord → Exec (Unit {0})
  fail_create_and_release r = do fail_create r.id; ignore (release_sandbox_network env r)

  -- what follows the preparation of the files, up to the running state
  unfoldable pub launch : SandboxRecord → RuntimeType → RuntimeSpec → Exec (Unit {0})
  launch r runtime_type spec =
      let cleanup = fail_create_and_release r in
      let dir = sandbox_dir env.host env.net env.digest env.cfg r.id in
      do
        on_error (ensure_snapshot_spec_dirs env spec.snapshot) cleanup
        on_error (prepare_network env spec.runtime_type spec.network) cleanup
        on_error
            (call env (
              ensure_shim (env.host.join (dir ∷ "shim.sock" ∷ []))
                (runtime_driver_from_runtime_type runtime_type)))
            cleanup
        on_error (dial_sandbox_shim env r.id) cleanup
        on_error (call env (create_runtime spec)) cleanup
        on_error (ensure_sandbox_agent_current env spec.network)
            (do ignore (call env (kill_runtime r.id)); cleanup)
        change env (λ now. update_sandbox_state now r.id creating running "create")

  -- what follows the insertion of the record
  unfoldable pub run_new : Option RuntimeSpec → RuntimeType → SandboxRecord → Exec SandboxInfo
  run_new given runtime_type r = do
    slot ← on_error (assign_network_slot env r.id) (fail_create r.id)
    let with_slot = record r { network_slot = slot }
    spec ←
        on_error
          (prepare_sandbox_runtime_files with_slot
            (complete_runtime_spec env.host env.net env.digest env.cfg with_slot given))
          (fail_create_and_release with_slot)
    on_error (launch with_slot runtime_type spec) (
        if str_eq r.rootfs_provider provider_name
        then ignore (remove_overlaybd_rootfs env r)
        else nothing)
    created ← query (get_sandbox r.id)
    return (sandbox_record_to_proto created runtime_type)

  -- what follows the check of the id
  abbrev pub create_named : CreateSandboxRequest → Exec SandboxInfo
  create_named req =
      let runtime_type = firecracker_if_unspecified req.runtime_type in
      do
        call env (make_dir (sandbox_dir env.host env.net env.digest env.cfg req.sandbox_id))
        r ← with_source runtime_type req.rootfs_source (new_record req runtime_type)
        or_existing (change env (λ now. create_sandbox now r))
        run_new req.runtime_spec runtime_type r

  unfoldable pub create_sandbox_runtime : CreateSandboxRequest → Exec SandboxInfo
  create_sandbox_runtime req =
      if str_eq req.sandbox_id "" then raise invalid_argument else create_named req

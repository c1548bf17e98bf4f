-- ===== src/Boxlet/Spec.antt =====
-- internal/boxlet/server/services.go: the files of a sandbox and its runtime specification
-- (runtimeSpecForSandbox, completeRuntimeSpec, and the drive of the agent).
use novita_box.Common.{
  String, Bool, true, Option, none, some, List, [], ◌∷◌, ◌++◌, ltb, ◌==◌, str_eq, if◌then◌else◌,
  Result, ok, err,
}
use novita_box.Config.Types.{Config}
use novita_box.Store.Records.{SandboxRecord}
use novita_box.Network.Net.{NetLib, NetError}
use novita_box.Network.Spec.{NetworkSpec, spec_for_slot, complete, text_or}
use novita_box.Boxlet.Types.{
  Host, RuntimeType, is_container, is_firecracker, runtime_type_from_record, MachineSpec,
  RootfsSpec, KernelSpec, SnapshotSpec, AgentSpec, DriveSpec, RuntimeSpec,
}

pub record ArtifactPaths : Type 0 where
  pub kernel_path : String
  pub rootfs_path : String
  pub memfile_path : String
  pub snapfile_path : String

unfoldable pub template_kernel_args : List String → List String
template_kernel_args [] =
    "console=ttyS0" ∷ "reboot=k" ∷ "panic=1" ∷ "pci=off" ∷ "8250.nr_uarts=1" ∷ "root=/dev/vda"
    ∷ "rw" ∷ "loglevel=7" ∷ "init=/novitabox/init" ∷ []
template_kernel_args (arg ∷ args) = arg ∷ args

-- `spec.GetDriveId() == id`, and a nil drive
abbrev is_drive : String → Option DriveSpec → Bool
is_drive id none = true
is_drive id (some d) = str_eq d.drive_id id

unfoldable pub remove_extra_drive : List (Option DriveSpec) → String → List (Option DriveSpec)
remove_extra_drive [] id = []
remove_extra_drive (d ∷ ds) id =
    let rest = remove_extra_drive ds id in if is_drive id d then rest else d ∷ rest

-- the spec with the drive that attachAgentDrive appends
unfoldable pub with_agent_drive : String → RuntimeSpec → RuntimeSpec
with_agent_drive agent_path spec = record spec {
  extra_drives =
      remove_extra_drive spec.extra_drives "agent"
      ++ some (record { drive_id = "agent"; path = agent_path; readonly = true; format = "ext4" })
        ∷ [];
}

abbrev pub ok_or_none : Result NetError (Option NetworkSpec) → Option NetworkSpec
ok_or_none (ok spec) = spec
ok_or_none (err e) = none

abbrev ok_or : Option NetworkSpec → Result NetError (Option NetworkSpec) → Option NetworkSpec
ok_or given (ok spec) = spec
ok_or given (err e) = given

-- the getters of messages that may be absent
abbrev pub rootfs_path_of : Option RootfsSpec → String
rootfs_path_of none = ""
rootfs_path_of (some r) = r.path

abbrev pub kernel_path_of : Option KernelSpec → String
kernel_path_of none = ""
kernel_path_of (some k) = k.kernel_path

abbrev pub memfile_path_of : Option SnapshotSpec → String
memfile_path_of none = ""
memfile_path_of (some s) = s.memfile_path

abbrev pub snapfile_path_of : Option SnapshotSpec → String
snapfile_path_of none = ""
snapfile_path_of (some s) = s.snapfile_path

module _ (host : Host) (net : NetLib) (digest : List String → String) (cfg : Config) where
  unfoldable pub sandbox_dir : String → String
  sandbox_dir sandbox_id = host.join (cfg.root_dir ∷ "sandboxes" ∷ sandbox_id ∷ [])

  unfoldable pub sandbox_runtime_paths : String → ArtifactPaths
  unfolding sandbox_dir
  sandbox_runtime_paths sandbox_id =
      let dir = sandbox_dir sandbox_id in
      let snapshot_dir = host.join (dir ∷ "snapshot" ∷ []) in
      record {
        kernel_path = host.join (dir ∷ "kernel" ∷ []);
        rootfs_path = host.join (snapshot_dir ∷ "rootfs.ext4" ∷ []);
        memfile_path = host.join (snapshot_dir ∷ "memfile" ∷ []);
        snapfile_path = host.join (snapshot_dir ∷ "snapfile" ∷ []);
      }

  -- where the root file system of a sandbox is, and its format
  abbrev rootfs_of : String → RuntimeType → RootfsSpec
  rootfs_of sandbox_id runtime_type =
      if is_container runtime_type
      then record { path = host.join (sandbox_dir sandbox_id ∷ "rootfs" ∷ []); format = "dir" }
      else record { path = (sandbox_runtime_paths sandbox_id).rootfs_path; format = "ext4" }

  abbrev default_snapshot : String → SnapshotSpec
  default_snapshot sandbox_id =
      let paths = sandbox_runtime_paths sandbox_id in
      record {
        memfile_path = paths.memfile_path;
        snapfile_path = paths.snapfile_path;
        snapshot_type = "full";
      }

  abbrev default_kernel : String → KernelSpec
  default_kernel sandbox_id = record {
    kernel_path = (sandbox_runtime_paths sandbox_id).kernel_path;
    kernel_args = template_kernel_args cfg.template.kernel_args;
  }

  unfoldable pub runtime_spec_for_sandbox : SandboxRecord → RuntimeSpec
  runtime_spec_for_sandbox r =
      let runtime_type = runtime_type_from_record host r.runtime_type in
      record {
        sandbox_id = r.id;
        runtime_type = runtime_type;
        machine = some (record { vcpu = 1; memory_mb = 512 });
        rootfs = some (rootfs_of r.id runtime_type);
        kernel = if is_firecracker runtime_type then some (default_kernel r.id) else none;
        snapshot = if is_firecracker runtime_type then some (default_snapshot r.id) else none;
        network =
            if ltb 0 r.network_slot
            then ok_or_none (spec_for_slot net digest cfg.network r.id r.network_slot)
            else none;
        agent = none;
        extra_drives = [];
      }

  abbrev fill_machine : Option MachineSpec → MachineSpec
  fill_machine none = record { vcpu = cfg.template.vcpu; memory_mb = cfg.template.memory_mb }
  fill_machine (some m) = record {
    vcpu = if m.vcpu == 0 then cfg.template.vcpu else m.vcpu;
    memory_mb = if m.memory_mb == 0 then cfg.template.memory_mb else m.memory_mb;
  }

  abbrev fill_rootfs : String → RuntimeType → Option RootfsSpec → RootfsSpec
  fill_rootfs sandbox_id runtime_type none = rootfs_of sandbox_id runtime_type
  fill_rootfs sandbox_id runtime_type (some r) =
      if str_eq r.path "" then rootfs_of sandbox_id runtime_type else r

  abbrev args_or : List String → List String → List String
  args_or [] default = default
  args_or (arg ∷ args) default = arg ∷ args

  abbrev fill_kernel : String → Option KernelSpec → KernelSpec
  fill_kernel sandbox_id none = default_kernel sandbox_id
  fill_kernel sandbox_id (some k) = record {
    kernel_path = text_or k.kernel_path (default_kernel sandbox_id).kernel_path;
    kernel_args = args_or k.kernel_args (template_kernel_args cfg.template.kernel_args);
  }

  abbrev fill_snapshot : String → Option SnapshotSpec → SnapshotSpec
  fill_snapshot sandbox_id none = default_snapshot sandbox_id
  fill_snapshot sandbox_id (some s) = record {
    memfile_path = text_or s.memfile_path (default_snapshot sandbox_id).memfile_path;
    snapfile_path = text_or s.snapfile_path (default_snapshot sandbox_id).snapfile_path;
    snapshot_type = s.snapshot_type;
  }

  abbrev fill_agent : Option AgentSpec → AgentSpec
  fill_agent none = record { type_ = "boxd"; protocol = "grpc"; port = 49983 }
  fill_agent (some a) = a

  abbrev given_spec : SandboxRecord → Option RuntimeSpec → RuntimeSpec
  given_spec r none = runtime_spec_for_sandbox r
  given_spec r (some spec) = spec

  unfoldable pub complete_runtime_spec : SandboxRecord → Option RuntimeSpec → RuntimeSpec
  complete_runtime_spec r given =
      let spec = given_spec r given in
      let runtime_type = runtime_type_from_record host r.runtime_type in
      record {
        sandbox_id = r.id;
        runtime_type = runtime_type;
        machine = some (fill_machine spec.machine);
        rootfs = some (fill_rootfs r.id runtime_type spec.rootfs);
        kernel = if is_firecracker runtime_type then some (fill_kernel r.id spec.kernel) else none;
        snapshot =
            if is_firecracker runtime_type then some (fill_snapshot r.id spec.snapshot) else none;
        network =
            if ltb 0 r.network_slot
            then ok_or spec.network
                (complete net digest cfg.network r.id r.network_slot spec.network)
            else spec.network;
        agent = some (fill_agent spec.agent);
        extra_drives = spec.extra_drives;
      }

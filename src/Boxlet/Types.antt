-- ===== src/Boxlet/Types.antt =====
-- The messages of internal/boxlet/server/services.go: runtime types, runtime specifications, and what
-- is told of a sandbox. An absent message is `none`. `Host` is what is used of path/filepath and
-- strings.
use novita_box.Common.{
  ℕ, String, Bool, not, ◌&&◌, ◌||◌, Option, none, some, List, [], ◌∷◌, any, ◌==◌, str_eq,
  if◌then◌else◌,
}
use novita_box.Common.Int.{ℤ}
use novita_box.Store.Records.{State, SandboxRecord, SnapshotRecord}
use novita_box.Network.Spec.{NetworkSpec}

pub record Host : Type 0 where
  -- filepath.Join
  pub join : List String → String
  -- filepath.Dir
  pub dir : String → String
  -- strings.ToLower
  pub to_lower : String → String
  -- strings.TrimSpace
  pub trim_space : String → String
  -- strings.EqualFold
  pub equal_fold : String → String → Bool
  -- net.SplitHostPort, the port
  pub port_of : String → Option String
  -- RuntimeType.String, for a number
  pub runtime_type_string : ℕ → String
  -- fmt.Sprintf("snap-%s-%d", sandboxID, nanoseconds)
  pub snapshot_id : String → ℕ → String

pub data RuntimeType : Type 0 where
  unspecified firecracker cloud_hypervisor container : RuntimeType

abbrev pub runtime_type_number : RuntimeType → ℕ
runtime_type_number unspecified = 0
runtime_type_number firecracker = 1
runtime_type_number cloud_hypervisor = 2
runtime_type_number container = 3

abbrev pub is_container : RuntimeType → Bool
is_container t = runtime_type_number t == 3

abbrev pub is_firecracker : RuntimeType → Bool
is_firecracker t = runtime_type_number t == 1

abbrev one_of : List String → String → Bool
one_of names s = any (str_eq s) names

module _ (host : Host) where
  unfoldable pub runtime_type_from_record : String → RuntimeType
  runtime_type_from_record runtime_type =
      let name = host.to_lower runtime_type in
      if one_of ("runtime_type_cloud_hypervisor" ∷ "cloud-hypervisor" ∷ "cloud_hypervisor" ∷ [])
        name
      then cloud_hypervisor
      else if one_of ("runtime_type_container" ∷ "container" ∷ "gvisor" ∷ []) name
      then container
      else firecracker

  unfoldable pub runtime_driver_from_record : String → String
  runtime_driver_from_record runtime_type =
      let name = host.to_lower (host.trim_space runtime_type) in
      if str_eq name "stub"
      then "stub"
      else if one_of ("runtime_type_container" ∷ "container" ∷ "gvisor" ∷ []) name
      then "gvisor"
      else if one_of
          ("runtime_type_cloud_hypervisor" ∷ "cloud-hypervisor" ∷ "cloud_hypervisor" ∷ []) name
      then "cloud-hypervisor"
      else if one_of ("runtime_type_firecracker" ∷ "firecracker" ∷ "" ∷ []) name
      then "firecracker"
      else host.trim_space runtime_type

unfoldable pub runtime_driver_from_runtime_type : RuntimeType → String
runtime_driver_from_runtime_type container = "gvisor"
runtime_driver_from_runtime_type cloud_hypervisor = "cloud-hypervisor"
runtime_driver_from_runtime_type unspecified = "firecracker"
runtime_driver_from_runtime_type firecracker = "firecracker"

pub record MachineSpec : Type 0 where
  pub vcpu : ℕ
  pub memory_mb : ℕ

pub record RootfsSpec : Type 0 where
  pub path : String
  pub format : String

pub record KernelSpec : Type 0 where
  pub kernel_path : String
  pub kernel_args : List String

pub record SnapshotSpec : Type 0 where
  pub memfile_path : String
  pub snapfile_path : String
  pub snapshot_type : String

pub record AgentSpec : Type 0 where
  pub type_ : String
  pub protocol : String
  pub port : ℕ

pub record DriveSpec : Type 0 where
  pub drive_id : String
  pub path : String
  pub readonly : Bool
  pub format : String

pub record RuntimeSpec : Type 0 where
  pub sandbox_id : String
  pub runtime_type : RuntimeType
  pub machine : Option MachineSpec
  pub rootfs : Option RootfsSpec
  pub kernel : Option KernelSpec
  pub snapshot : Option SnapshotSpec
  pub network : Option NetworkSpec
  pub agent : Option AgentSpec
  pub extra_drives : List (Option DriveSpec)

pub record RootfsSource : Type 0 where
  pub provider : String
  pub image : String
  pub pull_mode : String

pub record CreateSandboxRequest : Type 0 where
  pub sandbox_id : String
  pub runtime_type : RuntimeType
  pub template_id : String
  pub image_id : String
  pub snapshot_id : String
  pub rootfs_source : Option RootfsSource
  pub runtime_spec : Option RuntimeSpec

pub record RootfsInfo : Type 0 where
  pub provider : String
  pub image : String
  pub digest : String
  pub snapshot_key : String

-- novitaboxv1.SandboxState has a value for each state of a record
pub record SandboxInfo : Type 0 where
  pub sandbox_id : String
  pub state : State
  pub runtime_type : RuntimeType
  pub template_id : String
  pub image_id : String
  pub snapshot_id : String
  pub rootfs : Option RootfsInfo
  pub created_at_unix : ℤ
  pub updated_at_unix : ℤ

unfoldable pub sandbox_record_to_proto : SandboxRecord → RuntimeType → SandboxInfo
sandbox_record_to_proto r runtime_type = record {
  sandbox_id = r.id;
  state = r.state;
  runtime_type = runtime_type;
  template_id = r.template_id;
  image_id = r.image_id;
  snapshot_id = r.snapshot_id;
  rootfs =
      if not (str_eq r.rootfs_provider "")
        && (not (str_eq r.rootfs_provider "directory")
            || not (str_eq r.rootfs_source_ref "")
            || not (str_eq r.rootfs_source_digest "")
            || not (str_eq r.rootfs_snapshot_key ""))
      then some (record {
        provider = r.rootfs_provider;
        image = r.rootfs_source_ref;
        digest = r.rootfs_source_digest;
        snapshot_key = r.rootfs_snapshot_key;
      })
      else none;
  created_at_unix = r.created_at;
  updated_at_unix = r.updated_at;
}

pub record SnapshotInfo : Type 0 where
  pub snapshot_id : String
  pub sandbox_id : String
  pub rootfs_path : String
  pub memfile_path : String
  pub snapfile_path : String
  pub created_at_unix : ℤ

unfoldable pub snapshot_record_to_proto : SnapshotRecord → SnapshotInfo
snapshot_record_to_proto r = record {
  snapshot_id = r.id;
  sandbox_id = r.sandbox_id;
  rootfs_path = r.rootfs_path;
  memfile_path = r.memfile_path;
  snapfile_path = r.snapfile_path;
  created_at_unix = r.created_at;
}

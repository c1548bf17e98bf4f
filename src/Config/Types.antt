-- ===== src/Config/Types.antt =====
-- internal/config/config.go: the configuration and its defaults.
use novita_box.Common.{ℕ, String, Bool, true, List, []}

pub record ServiceConfig : Type 0 where
  pub addr : String

pub record ShimConfig : Type 0 where
  pub socket_path : String
  pub runtime_driver : String
  pub binary_path : String

pub record StorageConfig : Type 0 where
  pub db_path : String

pub record FirecrackerConfig : Type 0 where
  pub binary_path : String

pub record GvisorConfig : Type 0 where
  pub runsc_binary_path : String

pub record OverlaybdConfig : Type 0 where
  pub containerd_address : String
  pub namespace : String
  pub snapshotter : String
  pub ctr_binary_path : String
  pub snapshotter_socket : String
  pub pull_mode : String

pub record NetworkConfig : Type 0 where
  pub enabled : Bool
  pub host_access_cidr : String
  pub veth_cidr : String
  pub guest_ip : String
  pub gateway_ip : String
  pub guest_mac : String

pub record TemplateBuildConfig : Type 0 where
  pub kernel_path : String
  pub kernel_args : List String
  pub snapshot_wait_secs : ℕ
  pub agent_health_url : String
  pub agent_exec_url : String
  pub agent_wait_secs : ℕ
  pub boxd_binary_path : String
  pub boxd_guest_path : String
  pub boxd_guest_addr : String
  pub vcpu : ℕ
  pub memory_mb : ℕ

pub record Config : Type 0 where
  pub root_dir : String
  pub boxapi : ServiceConfig
  pub boxlet : ServiceConfig
  pub boxproxy : ServiceConfig
  pub boxshim : ShimConfig
  pub boxd : ServiceConfig
  pub storage : StorageConfig
  pub firecracker : FirecrackerConfig
  pub gvisor : GvisorConfig
  pub overlaybd : OverlaybdConfig
  pub template : TemplateBuildConfig
  pub network : NetworkConfig

abbrev pub default_root : String
default_root = "/var/lib/novitabox"

unfoldable pub default_config : Config
default_config = record {
  root_dir = default_root;
  boxapi = record { addr = "127.0.0.1:8080" };
  boxlet = record { addr = "127.0.0.1:8081" };
  boxproxy = record { addr = "127.0.0.1:8082" };
  boxshim = record { socket_path = ""; runtime_driver = "firecracker"; binary_path = "" };
  boxd = record { addr = "169.254.0.21:49983" };
  storage = record { db_path = "" };
  firecracker = record { binary_path = "" };
  gvisor = record { runsc_binary_path = "" };
  overlaybd = record {
    containerd_address = "/run/containerd/containerd.sock";
    namespace = "novitabox";
    snapshotter = "overlaybd";
    ctr_binary_path = "/opt/overlaybd/snapshotter/ctr";
    snapshotter_socket = "/run/overlaybd-snapshotter/overlaybd.sock";
    pull_mode = "lazy";
  };
  template = record {
    kernel_path = "";
    kernel_args = [];
    snapshot_wait_secs = 3;
    agent_health_url = "";
    agent_exec_url = "";
    agent_wait_secs = 30;
    boxd_binary_path = "";
    boxd_guest_path = "/novitabox/agent/boxd";
    boxd_guest_addr = "0.0.0.0:49983";
    vcpu = 1;
    memory_mb = 512;
  };
  network = record {
    enabled = true;
    host_access_cidr = "10.11.0.0/16";
    veth_cidr = "10.12.0.0/16";
    guest_ip = "169.254.0.21";
    gateway_ip = "169.254.0.22";
    guest_mac = "02:FC:00:00:00:05";
  };
}

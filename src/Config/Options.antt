-- ===== src/Config/Options.antt =====
-- internal/config/options.go: the options of the services over the defaults. path/filepath and the
-- address functions of the net package are the parameter `HostLib`.
use novita_box.Common.{
  ℕ, String, Bool, Option, List, [], ◌∷◌, ltb, str_eq, if◌then◌else◌, Result, ok, err, ◌>>=◌,
  or_error,
}
use novita_box.Common.Int.{ℤ, is_nonpos}
use novita_box.Config.Types.{Config}

pub record ServiceOptions : Type 0 where
  pub root_dir : String
  pub addr : String
  pub port : ℤ
  pub db_path : String
  pub boxlet_addr : String
  pub runtime_driver : String
  pub boxshim_binary_path : String
  pub firecracker_binary_path : String
  pub runsc_binary_path : String
  pub overlaybd_containerd : String
  pub overlaybd_namespace : String
  pub overlaybd_snapshotter : String
  pub overlaybd_ctr_binary : String
  pub overlaybd_socket : String
  pub template_kernel_path : String
  pub template_snapshot_wait : ℕ
  pub template_agent_health : String
  pub template_agent_exec : String
  pub template_agent_wait : ℕ
  pub template_boxd_binary : String
  pub template_boxd_guest_path : String
  pub template_boxd_guest_addr : String
  pub network_enabled : Bool
  pub network_host_access_cidr : String
  pub network_veth_cidr : String
  pub network_guest_ip : String
  pub network_gateway_ip : String
  pub network_guest_mac : String

pub record BoxshimOptions : Type 0 where
  pub root_dir : String
  pub socket_path : String
  pub runtime_driver : String
  pub firecracker_binary_path : String
  pub runsc_binary_path : String
  pub db_path : String

pub record HostLib : Type 0 where
  -- filepath.Join
  pub join : List String → String
  -- net.SplitHostPort
  pub split_host_port : String → Option (String × String)
  -- net.JoinHostPort
  pub join_host_port : String → String → String
  -- fmt.Sprintf("%d", port)
  pub print_port : ℤ → String

pub data OptionError : Type 0 where
  -- "parse address"
  bad_address : OptionError
  -- "unknown service"
  unknown_service : OptionError

-- an option that is given overrides
unfoldable pub given : String → String → String
given option current = if str_eq option "" then current else option

unfoldable pub given_number : ℕ → ℕ → ℕ
given_number option current = if ltb 0 option then option else current

module _ (lib : HostLib) where
  unfoldable pub default_db_path : String → String
  default_db_path root = lib.join (root ∷ "db" ∷ "novitabox.db" ∷ [])

  unfoldable pub default_kernel_path : String → String
  default_kernel_path root = lib.join (root ∷ "vmlinux.bin" ∷ [])

  unfoldable pub default_boxd_binary_path : String → String
  default_boxd_binary_path root = lib.join (root ∷ "boxd" ∷ [])

  unfoldable pub default_boxshim_binary_path : String → String
  default_boxshim_binary_path root = lib.join (root ∷ "boxshim" ∷ [])

  unfoldable pub default_firecracker_binary_path : String → String
  default_firecracker_binary_path root = lib.join (root ∷ "firecracker" ∷ [])

  unfoldable pub default_runsc_binary_path : String → String
  default_runsc_binary_path root = lib.join (root ∷ "runsc" ∷ [])

  unfoldable pub with_port : String → ℤ → Result OptionError String
  with_port addr port = do
    (host, _) ← or_error bad_address (lib.split_host_port addr)
    ok (lib.join_host_port host (lib.print_port port))

  -- The part of ApplyServiceOptions above the address: every field that the options override.
  unfoldable pub overridden : Config → ServiceOptions → Config
  unfolding default_db_path default_kernel_path default_boxd_binary_path default_boxshim_binary_path
      default_firecracker_binary_path default_runsc_binary_path
  overridden d o = record d {
    root_dir = o.root_dir;
    storage = record { db_path = given o.db_path (default_db_path o.root_dir) };
    boxlet = record { addr = given o.boxlet_addr d.boxlet.addr };
    boxshim = record d.boxshim {
      runtime_driver = given o.runtime_driver d.boxshim.runtime_driver;
      binary_path =
          given (given o.boxshim_binary_path d.boxshim.binary_path)
            (default_boxshim_binary_path o.root_dir);
    };
    firecracker = record {
      binary_path =
          given (given o.firecracker_binary_path d.firecracker.binary_path)
            (default_firecracker_binary_path o.root_dir);
    };
    gvisor = record {
      runsc_binary_path =
          given (given o.runsc_binary_path d.gvisor.runsc_binary_path)
            (default_runsc_binary_path o.root_dir);
    };
    overlaybd = record d.overlaybd {
      containerd_address = given o.overlaybd_containerd d.overlaybd.containerd_address;
      namespace = given o.overlaybd_namespace d.overlaybd.namespace;
      snapshotter = given o.overlaybd_snapshotter d.overlaybd.snapshotter;
      ctr_binary_path = given o.overlaybd_ctr_binary d.overlaybd.ctr_binary_path;
      snapshotter_socket = given o.overlaybd_socket d.overlaybd.snapshotter_socket;
    };
    template = record d.template {
      kernel_path =
          given (given o.template_kernel_path d.template.kernel_path)
            (default_kernel_path o.root_dir);
      snapshot_wait_secs = given_number o.template_snapshot_wait d.template.snapshot_wait_secs;
      agent_health_url = given o.template_agent_health d.template.agent_health_url;
      agent_exec_url = given o.template_agent_exec d.template.agent_exec_url;
      agent_wait_secs = given_number o.template_agent_wait d.template.agent_wait_secs;
      boxd_binary_path =
          given (given o.template_boxd_binary d.template.boxd_binary_path)
            (default_boxd_binary_path o.root_dir);
      boxd_guest_path = given o.template_boxd_guest_path d.template.boxd_guest_path;
      boxd_guest_addr = given o.template_boxd_guest_addr d.template.boxd_guest_addr;
    };
    network = record d.network {
      enabled = o.network_enabled;
      host_access_cidr = given o.network_host_access_cidr d.network.host_access_cidr;
      veth_cidr = given o.network_veth_cidr d.network.veth_cidr;
      guest_ip = given o.network_guest_ip d.network.guest_ip;
      gateway_ip = given o.network_gateway_ip d.network.gateway_ip;
      guest_mac = given o.network_guest_mac d.network.guest_mac;
    };
  }

  unfoldable pub service_addr : ServiceOptions → Result OptionError String
  unfolding with_port
  service_addr o = if is_nonpos o.port then ok o.addr else with_port o.addr o.port

  -- the `switch` on the name of the service
  unfoldable pub set_addr : String → String → Config → Result OptionError Config
  set_addr name addr c =
      if str_eq name "boxapi"
      then ok (record c { boxapi = record { addr = addr } })
      else if str_eq name "boxlet"
      then ok (record c { boxlet = record { addr = addr } })
      else if str_eq name "boxproxy"
      then ok (record c { boxproxy = record { addr = addr } })
      else if str_eq name "boxd"
      then ok (record c { boxd = record { addr = addr } })
      else err unknown_service

  unfoldable pub apply_service_options :
      Config → String → ServiceOptions → Result OptionError Config
  apply_service_options d name o = do addr ← service_addr o; set_addr name addr (overridden d o)

  unfoldable pub apply_boxshim_options : Config → BoxshimOptions → Config
  unfolding default_db_path default_firecracker_binary_path default_runsc_binary_path
  apply_boxshim_options d o = record d {
    root_dir = o.root_dir;
    boxshim = record d.boxshim { socket_path = o.socket_path; runtime_driver = o.runtime_driver };
    firecracker = record {
      binary_path = given o.firecracker_binary_path (default_firecracker_binary_path o.root_dir);
    };
    gvisor = record {
      runsc_binary_path = given o.runsc_binary_path (default_runsc_binary_path o.root_dir);
    };
    storage = record { db_path = given o.db_path (default_db_path o.root_dir) };
  }

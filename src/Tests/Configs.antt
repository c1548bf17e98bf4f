-- ===== src/Tests/Configs.antt =====
-- A configuration that the options of a service override.
use novita_box.Common.{String, some, List, [], ◌∷◌, true}
use novita_box.Common.Int.{pos}
use novita_box.Config.Types.{Config, default_config}
use novita_box.Config.Options.{ServiceOptions, HostLib, overridden}

-- A path or an address is its last part.
last : List String → String
last [] = ""
last (x ∷ []) = x
last (x ∷ y ∷ ys) = last (y ∷ ys)

abbrev plain_host : HostLib
plain_host = record {
  join = last;
  split_host_port = λ a. some (a, "");
  join_host_port = λ host port. host;
  print_port = λ p. "port";
}

abbrev options : ServiceOptions
options = record {
  root_dir = "/srv/box";
  addr = "127.0.0.1:9000";
  port = pos 0;
  db_path = "";
  boxlet_addr = "";
  runtime_driver = "gvisor";
  boxshim_binary_path = "";
  firecracker_binary_path = "";
  runsc_binary_path = "/usr/bin/runsc";
  overlaybd_containerd = "";
  overlaybd_namespace = "";
  overlaybd_snapshotter = "";
  overlaybd_ctr_binary = "";
  overlaybd_socket = "";
  template_kernel_path = "";
  template_snapshot_wait = 0;
  template_agent_health = "";
  template_agent_exec = "";
  template_agent_wait = 20;
  template_boxd_binary = "";
  template_boxd_guest_path = "";
  template_boxd_guest_addr = "";
  network_enabled = true;
  network_host_access_cidr = "";
  network_veth_cidr = "";
  network_guest_ip = "";
  network_gateway_ip = "";
  network_guest_mac = "";
}

abbrev served : Config
served = record (overridden plain_host default_config options) {
  boxlet = record { addr = "127.0.0.1:9000" };
}

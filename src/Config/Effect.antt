-- ===== src/Config/Effect.antt =====
-- What applying options gives: which field each option sets.
use novita_box.Common.{
  ℕ, ◌<◌, String, List, [], ◌∷◌, All, true, ◌≡◌, ◌≢◌, ◌⊎◌, str_eq, if◌then◌else◌,
}
use novita_box.Config.Types.{Config}
use novita_box.Config.Options.{HostLib, ServiceOptions}

-- The options that replace a text of the configuration, with the text that each replaces.
abbrev pub text_options : List ((ServiceOptions → String) × (Config → String))
text_options =
    ((λ o. o.runtime_driver), (λ c. c.boxshim.runtime_driver))
    ∷ ((λ o. o.overlaybd_containerd), (λ c. c.overlaybd.containerd_address))
    ∷ ((λ o. o.overlaybd_namespace), (λ c. c.overlaybd.namespace))
    ∷ ((λ o. o.overlaybd_snapshotter), (λ c. c.overlaybd.snapshotter))
    ∷ ((λ o. o.overlaybd_ctr_binary), (λ c. c.overlaybd.ctr_binary_path))
    ∷ ((λ o. o.overlaybd_socket), (λ c. c.overlaybd.snapshotter_socket))
    ∷ ((λ o. o.template_agent_health), (λ c. c.template.agent_health_url))
    ∷ ((λ o. o.template_agent_exec), (λ c. c.template.agent_exec_url))
    ∷ ((λ o. o.template_boxd_guest_path), (λ c. c.template.boxd_guest_path))
    ∷ ((λ o. o.template_boxd_guest_addr), (λ c. c.template.boxd_guest_addr))
    ∷ ((λ o. o.network_host_access_cidr), (λ c. c.network.host_access_cidr))
    ∷ ((λ o. o.network_veth_cidr), (λ c. c.network.veth_cidr))
    ∷ ((λ o. o.network_guest_ip), (λ c. c.network.guest_ip))
    ∷ ((λ o. o.network_gateway_ip), (λ c. c.network.gateway_ip))
    ∷ ((λ o. o.network_guest_mac), (λ c. c.network.guest_mac))
    ∷ []

-- The options that name a file, with the name that the file has below the root.
abbrev pub file_options : List (String × (ServiceOptions → String) × (Config → String))
file_options =
    ("boxshim", (λ o. o.boxshim_binary_path), (λ c. c.boxshim.binary_path))
    ∷ ("firecracker", (λ o. o.firecracker_binary_path), (λ c. c.firecracker.binary_path))
    ∷ ("runsc", (λ o. o.runsc_binary_path), (λ c. c.gvisor.runsc_binary_path))
    ∷ ("vmlinux.bin", (λ o. o.template_kernel_path), (λ c. c.template.kernel_path))
    ∷ ("boxd", (λ o. o.template_boxd_binary), (λ c. c.template.boxd_binary_path))
    ∷ []

abbrev pub number_options : List ((ServiceOptions → ℕ) × (Config → ℕ))
number_options =
    ((λ o. o.template_snapshot_wait), (λ c. c.template.snapshot_wait_secs))
    ∷ ((λ o. o.template_agent_wait), (λ c. c.template.agent_wait_secs))
    ∷ []

-- An option that is given is the new value, and otherwise the old value stays.
abbrev pub IsReplaced : String → String → String → Type 0
IsReplaced option old new = (option ≢ "" → new ≡ option) × (option ≡ "" → new ≡ old)

abbrev pub IsReplacedNumber : ℕ → ℕ → ℕ → Type 0
IsReplacedNumber option old new = (0 < option → new ≡ option) × (option ≡ 0 → new ≡ old)

-- The same, but behind an old value that is empty there is a fallback.
abbrev pub IsReplacedFile : String → String → String → String → Type 0
IsReplacedFile fallback option old new =
    (option ≢ "" → new ≡ option)
    × (option ≡ "" → old ≢ "" → new ≡ old)
    × (option ≡ "" → old ≡ "" → new ≡ fallback)

-- The address of the service of this name.
abbrev pub address_of : String → Config → String
address_of name c =
    if str_eq name "boxapi"
    then c.boxapi.addr
    else if str_eq name "boxlet"
    then c.boxlet.addr
    else if str_eq name "boxproxy"
    then c.boxproxy.addr
    else c.boxd.addr

module _ (lib : HostLib) where
  -- A configuration `c` that is `d` under the options, but for the addresses of services.
  abbrev pub IsOverridden : Config → ServiceOptions → Config → Type 0
  IsOverridden d o c =
      All
        (λ (row : (ServiceOptions → String) × (Config → String)).
          IsReplaced (row.0 o) (row.1 d) (row.1 c))
        text_options
      × All
          (λ (row : String × (ServiceOptions → String) × (Config → String)).
            IsReplacedFile (lib.join (o.root_dir ∷ row.0 ∷ [])) (row.1 o) (row.2 d) (row.2 c))
          file_options
      × All
          (λ (row : (ServiceOptions → ℕ) × (Config → ℕ)).
            IsReplacedNumber (row.0 o) (row.1 d) (row.1 c))
          number_options
      × (c.root_dir ≡ o.root_dir)
      × IsReplaced o.db_path (lib.join (o.root_dir ∷ "db" ∷ "novitabox.db" ∷ [])) c.storage.db_path
      × (c.network.enabled ≡ o.network_enabled)

  -- The address of the boxlet is an option of the other services.
  abbrev pub IsBoxletAddr : String → Config → ServiceOptions → Config → Type 0
  IsBoxletAddr name d o c =
      (str_eq name "boxlet" ≡ true) ⊎ IsReplaced o.boxlet_addr d.boxlet.addr c.boxlet.addr

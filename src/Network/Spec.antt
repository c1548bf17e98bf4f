-- ===== src/Network/Spec.antt =====
-- The network specification of a slot: SpecForSlot and Complete. The SHA-1 of a list of texts, each
-- closed by a zero byte, cut to five bytes and in hexadecimal, is the parameter `digest`.
use Prim.Native.String.{◌++◌ as ◌++ˢ◌}
use novita_box.Common.{
  ℕ, String, not, Option, none, some, List, [], ◌∷◌, ◌==◌, str_eq, if◌then◌else◌, Result, ok, err,
  ◌>>=◌,
}
use novita_box.Config.Types.{NetworkConfig}
use novita_box.Network.Net.{NetLib, NetError, slot_required, indexed_ip}

pub record NetworkSpec : Type 0 where
  pub namespace_name : String
  pub tap_name : String
  pub guest_ip : String
  pub gateway_ip : String
  pub host_access_ip : String
  pub mac : String
  pub slot : ℕ

abbrev pub sandbox_tap_name : String
sandbox_tap_name = "tap0"

abbrev pub text_or : String → String → String
text_or given default = if str_eq given "" then default else given

-- the fields of `spec` that are empty come from `defaults`
unfoldable pub fill_spec : NetworkSpec → NetworkSpec → NetworkSpec
fill_spec defaults spec = record {
  namespace_name = text_or spec.namespace_name defaults.namespace_name;
  tap_name = text_or spec.tap_name defaults.tap_name;
  guest_ip = text_or spec.guest_ip defaults.guest_ip;
  gateway_ip = text_or spec.gateway_ip defaults.gateway_ip;
  host_access_ip = text_or spec.host_access_ip defaults.host_access_ip;
  mac = text_or spec.mac defaults.mac;
  slot = if spec.slot == 0 then defaults.slot else spec.slot;
}

abbrev pub fill_optional : Option NetworkSpec → Option NetworkSpec → Option NetworkSpec
fill_optional none spec = none
fill_optional (some defaults) none = some defaults
fill_optional (some defaults) (some spec) = some (fill_spec defaults spec)

module _ (net : NetLib) (digest : List String → String) (cfg : NetworkConfig) where
  unfoldable pub hash_name : String → List String → String
  hash_name prefix values = prefix ++ˢ digest values

  unfoldable pub sandbox_net_ns_name : String → String
  unfolding hash_name
  sandbox_net_ns_name sandbox_id = hash_name "nb-" (sandbox_id ∷ [])

  -- `ok none` is a network that is switched off
  unfoldable pub spec_for_slot : String → ℕ → Result NetError (Option NetworkSpec)
  spec_for_slot sandbox_id slot =
      if not cfg.enabled then ok none else if slot == 0 then err slot_required else do
        host_access_ip ← indexed_ip net cfg.host_access_cidr slot
        ok (
            some (record {
              namespace_name = sandbox_net_ns_name sandbox_id;
              tap_name = sandbox_tap_name;
              guest_ip = cfg.guest_ip;
              gateway_ip = cfg.gateway_ip;
              host_access_ip = host_access_ip;
              mac = cfg.guest_mac;
              slot = slot;
            }))

  unfoldable pub complete : String → ℕ → Option NetworkSpec → Result NetError (Option NetworkSpec)
  complete sandbox_id slot spec = do
    defaults ← spec_for_slot sandbox_id slot
    ok (fill_optional defaults spec)

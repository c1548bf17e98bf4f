-- ===== src/Network/Net.antt =====
-- Go's net package, as far as internal/boxlet/server/network.go and internal/boxproxy/server use it,
-- and the address arithmetic of the former on uint32.
use novita_box.Common.{
  ℕ, ◌+◌, ◌-◌, ◌*◌, ◌/◌, ◌%◌, ◌^◌, ◌≤◌, ◌<◌, ◌≡◌, String, Bool, true, not, ◌||◌, Option, some,
  Result, ok, err, ◌>>=◌, or_error, ltb, leb, ◌==◌, if◌then◌else◌,
}

-- net.IPNet: `network.IP.To4()` as a number, `network.Mask.Size()` and `len(network.Mask)`.
pub record IpNet : Type 0 where
  pub ip4 : Option ℕ
  pub ones : ℕ
  pub bits : ℕ
  pub mask_len : ℕ

pub record NetLib : Type 0 where
  -- net.ParseCIDR
  pub parse_cidr : String → Option IpNet
  -- net.ParseIP(s).To4()
  pub parse_ip4 : String → Option ℕ
  -- net.IP.String of a 4-byte address
  pub ip_string : ℕ → String
  -- net.IPNet.Contains
  pub contains_ip : IpNet → ℕ → Bool

-- What the code relies on of the package: a parsed network whose mask has 32 bits has a mask of four
-- bytes, and an address of 32 bits with no bit below the mask; an address is in such a network when
-- it has its leading bits; and a printed address is read back. A network that is written as an
-- IPv6 address can have a four-byte address too, with a mask of 128 bits: the laws say nothing of it.
pub record NetLaws (net : NetLib) : Type 0 where
  pub ipv4 :
      (cidr : String) (n : IpNet) (b : ℕ)
      → net.parse_cidr cidr ≡ some n
      → n.bits ≡ 32
      → n.ip4 ≡ some b
      → (n.mask_len ≡ 4) × (n.ones ≤ 32) × (b < 2 ^ 32) × (b % 2 ^ (32 - n.ones) ≡ 0)
  pub mask :
      (cidr : String) (n : IpNet)
      → net.parse_cidr cidr ≡ some n
      → n.bits ≡ 32
      → (b : ℕ) × (n.ip4 ≡ some b)
  pub contains_block :
      (cidr : String) (n : IpNet) (b x : ℕ)
      → net.parse_cidr cidr ≡ some n
      → n.bits ≡ 32
      → n.ip4 ≡ some b
      → x / 2 ^ (32 - n.ones) ≡ b / 2 ^ (32 - n.ones)
      → net.contains_ip n x ≡ true
  pub parse_print : (x : ℕ) → x < 2 ^ 32 → net.parse_ip4 (net.ip_string x) ≡ some x

pub data NetError : Type 0 where
  -- net.ParseCIDR failed
  bad_cidr : NetError
  -- "must be IPv4"
  not_ipv4 : NetError
  -- "ip index is outside cidr"
  index_outside : NetError
  -- "too small for sandbox slots"
  too_small : NetError
  -- "host access ip is outside cidr"
  ip_outside : NetError
  -- "cannot be network base address"
  base_address : NetError
  -- "network slot is required"
  slot_required : NetError

abbrev pub u32 : ℕ → ℕ
u32 n = n % 2 ^ 32

-- uint32(1) << uint(32-ones)
abbrev pub total_ips : IpNet → ℕ
total_ips n = u32 (2 ^ (32 - n.ones))

abbrev pub veth_addresses_per_slot : ℕ
veth_addresses_per_slot = 2

pub record VethAddrs : Type 0 where
  pub host_ip : String
  pub peer_ip : String

module _ (net : NetLib) where
  unfoldable pub indexed_ip : String → ℕ → Result NetError String
  indexed_ip cidr index = do
    network ← or_error bad_cidr (net.parse_cidr cidr)
    base ← or_error not_ipv4 network.ip4
    if not (network.mask_len == 4) || not (network.bits == 32)
        then err not_ipv4
        else if index == 0 || leb (total_ips network) index
        then err index_outside
        else ok (net.ip_string (u32 (base + index)))

  unfoldable pub network_slots_for_cidr : String → ℕ → Result NetError ℕ
  network_slots_for_cidr cidr addresses_per_slot = do
    network ← or_error bad_cidr (net.parse_cidr cidr)
    let total_slots = total_ips network / addresses_per_slot
    if not (network.bits == 32)
        then err not_ipv4
        else if leb total_slots 1
        then err too_small
        else ok (total_slots - 1)

  unfoldable pub veth_addrs_for_slot : String → ℕ → Result NetError VethAddrs
  veth_addrs_for_slot cidr slot = do
    host_ip ← indexed_ip cidr (u32 (slot * veth_addresses_per_slot))
    peer_ip ← indexed_ip cidr (u32 (u32 (slot * veth_addresses_per_slot) + 1))
    ok (record { host_ip = host_ip; peer_ip = peer_ip })

  -- the subtraction is exact: the address is above the base
  unfoldable pub network_slot_from_host_access_ip : String → String → Result NetError ℕ
  network_slot_from_host_access_ip cidr host_access_ip = do
    network ← or_error bad_cidr (net.parse_cidr cidr)
    base ← or_error not_ipv4 network.ip4
    ip ← or_error not_ipv4 (net.parse_ip4 host_access_ip)
    if not (net.contains_ip network ip)
        then err ip_outside
        else if leb ip base
        then err base_address
        else ok (ip - base)

  -- sandboxNetworkManager.MaxSlots, for the two networks of the configuration
  unfoldable pub max_slots : String → String → Result NetError ℕ
  max_slots host_access_cidr veth_cidr = do
    host_access_slots ← network_slots_for_cidr host_access_cidr 1
    veth_slots ← network_slots_for_cidr veth_cidr veth_addresses_per_slot
    ok (if ltb host_access_slots veth_slots then host_access_slots else veth_slots)

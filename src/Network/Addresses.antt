-- ===== src/Network/Addresses.antt =====
-- Which indexes have an address, and that the address of a slot names the slot.
use native.Mathlib.Nat.{mod-eq_of_lt, zero-div}
use novita_box.Common.{
  ℕ, ◌+◌, ◌-◌, ◌/◌, ◌%◌, ◌^◌, ◌≤◌, ◌<◌, ◌≡◌, refl, String, true, some, ok, ◌==◌, arith,
  Option-cases, inl, inr, Bool-cases,
}
use novita_box.Network.Net.{
  IpNet, NetLib, NetLaws, total_ips, u32, indexed_ip, network_slots_for_cidr,
  network_slot_from_host_access_ip,
}
use novita_box.Network.Blocks.{block_splits, block_fits, block_div, shift_ones}

module _ (net : NetLib) (laws : NetLaws net) where
  -- A network that gives slots: its parts as the code reads them, with at least two slots' worth of
  -- addresses, and at most half of all addresses.
  pub record HasSlots (cidr : String) (per n : ℕ) : Type 0 where
    pub network : IpNet
    pub base : ℕ
    pub parsed : net.parse_cidr cidr ≡ some network
    pub ip4 : network.ip4 ≡ some base
    pub bits : network.bits ≡ 32
    pub mask_len : network.mask_len ≡ 4
    pub ones : network.ones ≤ 32
    pub small : base < 2 ^ 32
    pub aligned : base % 2 ^ (32 - network.ones) ≡ 0
    pub total : total_ips network ≡ 2 ^ (32 - network.ones)
    pub count : n + 1 ≡ total_ips network / per
    pub some_slots : 1 ≤ n

  -- A network whose mask has no bit has, by the uint32 shift, no address, and gives no slot.
  masked :
      (network : IpNet) (per n : ℕ) → n + 1 ≡ total_ips network / per → 0 < per → 0 < network.ones
  masked network per n count pos = elim (Bool-cases (network.ones == 0)) [
    | inr some_bits ↦ ground arith
    | inl no_bits ↦
        let whole : network.ones ≡ 0 = ground arith in
        let none_left : total_ips network ≡ 0 = rw whole refl in
        absurd (omega (arith, zero-div per))
  ]

  -- What a successful count of slots says of the network.
  pub network_slots-HasSlots :
      (cidr : String) (per n : ℕ)
      → network_slots_for_cidr net cidr per ≡ ok n
      → 0 < per
      → HasSlots cidr per n
  unfolding network_slots_for_cidr
  network_slots-HasSlots cidr per n h pos = elim (Option-cases (net.parse_cidr cidr)) [
    | inl bad ↦ absurd (ground arith)
    | inr (network, parsed) ↦
        let bits : network.bits ≡ 32 = ground arith in
        let count : n + 1 ≡ total_ips network / per = ground arith in
        let some_slots : 1 ≤ n = ground arith in
        let (base, ip4) = laws.mask cidr network parsed bits in
        let (mask_len, ones, small, aligned) = laws.ipv4 cidr network base parsed bits ip4 in
        record {
          network = network;
          base = base;
          parsed = parsed;
          ip4 = ip4;
          bits = bits;
          mask_len = mask_len;
          ones = ones;
          small = small;
          aligned = aligned;
          total = shift_ones network.ones (masked network per n count pos) ones;
          count = count;
          some_slots = some_slots;
        }
  ]

  -- In such a network, an index below the number of addresses has an address: the base plus the
  -- index, with no wrap-around.
  pub indexed_ip-HasSlots :
      {cidr : String} {per n : ℕ} (s : HasSlots cidr per n) (index : ℕ)
      → 0 < index
      → index < total_ips s.network
      → (indexed_ip net cidr index ≡ ok (net.ip_string (s.base + index)))
        × (s.base + index < 2 ^ 32)
  unfolding indexed_ip
  indexed_ip-HasSlots {cidr} s index pos lt =
      let below : index < 2 ^ (32 - s.network.ones) = rw (← s.total) lt in
      let fits : s.base + index < 2 ^ 32 =
        block_fits s.base (2 ^ (32 - s.network.ones)) (2 ^ s.network.ones) index
          (block_splits s.network.ones s.ones) s.small s.aligned below in
      let plain : u32 (s.base + index) ≡ s.base + index = mod-eq_of_lt fits in
      (rw (s.parsed, s.ip4) (ground (arith, s.mask_len, s.bits)), fits)

  -- And the address leads back to the index.
  pub slot_from_indexed :
      {cidr : String} {per n : ℕ} (s : HasSlots cidr per n) (index : ℕ)
      → 0 < index
      → index < total_ips s.network
      → network_slot_from_host_access_ip net cidr (net.ip_string (s.base + index)) ≡ ok index
  unfolding network_slot_from_host_access_ip
  slot_from_indexed {cidr} s index pos lt =
      let below : index < 2 ^ (32 - s.network.ones) = rw (← s.total) lt in
      let (_, fits) = indexed_ip-HasSlots s index pos lt in
      let back : net.parse_ip4 (net.ip_string (s.base + index)) ≡ some (s.base + index) =
        laws.parse_print (s.base + index) fits in
      let inside : net.contains_ip s.network (s.base + index) ≡ true =
        laws.contains_block cidr s.network s.base (s.base + index) s.parsed s.bits s.ip4
          (block_div s.base (2 ^ (32 - s.network.ones)) index s.aligned below) in
      rw (s.parsed, s.ip4, back) (ground arith)

-- ===== src/Network/Slots.antt =====
-- Every slot up to MaxSlots has its addresses in both networks, and no two slots share one.
use native.Mathlib.Nat.{mod-eq_of_lt, mod-lt}
use novita_box.Common.{
  ℕ, ◌+◌, ◌-◌, ◌*◌, ◌^◌, ◌≤◌, ◌<◌, ◌≡◌, ◌≢◌, refl, String, Result, ok, ltb, if◌then◌else◌, arith,
  Result-cases, inl, inr,
}
use novita_box.Network.Net.{
  NetLib, NetLaws, total_ips, u32, indexed_ip, network_slots_for_cidr, veth_addrs_for_slot,
  network_slot_from_host_access_ip, max_slots, VethAddrs,
}
use novita_box.Network.Addresses.{
  HasSlots, network_slots-HasSlots, indexed_ip-HasSlots, slot_from_indexed,
}

ok-injective : {E : Type 0} (s t : ℕ) (r : Result E ℕ) → r ≡ ok s → r ≡ ok t → s ≡ t
ok-injective s t r hs ht = ground arith

module _ (net : NetLib) (laws : NetLaws net) where
  -- Both networks have room for `m` slots.
  pub record HasRoom (host_access_cidr veth_cidr : String) (m : ℕ) : Type 0 where
    pub host_slots : ℕ
    pub veth_slots : ℕ
    pub host : HasSlots net laws host_access_cidr 1 host_slots
    pub veth : HasSlots net laws veth_cidr 2 veth_slots
    pub host_room : m ≤ host_slots
    pub veth_room : m ≤ veth_slots
    pub positive : 0 < m

  pub max_slots-HasRoom :
      (host_access_cidr veth_cidr : String) (m : ℕ)
      → max_slots net host_access_cidr veth_cidr ≡ ok m
      → HasRoom host_access_cidr veth_cidr m
  unfolding max_slots
  max_slots-HasRoom a v m h = elim (Result-cases (network_slots_for_cidr net a 1)) [
    | inl (e, bad) ↦ absurd (ground arith)
    | inr (n, host_ok) ↦ elim (Result-cases (network_slots_for_cidr net v 2)) [
      | inl (e, bad) ↦ absurd (ground arith)
      | inr (k, veth_ok) ↦
          let host = network_slots-HasSlots net laws a 1 n host_ok (omega arith) in
          let veth = network_slots-HasSlots net laws v 2 k veth_ok (omega arith) in
          let least : (if ltb n k then n else k) ≡ m = ground arith in
          record {
            host_slots = n;
            veth_slots = k;
            host = host;
            veth = veth;
            host_room = ground arith;
            veth_room = ground arith;
            positive = ground (arith, host.some_slots, veth.some_slots);
          }
    ]
  ]

  -- MaxSlots is positive and, with every slot number up to it, a uint32.
  pub max_slots_bounds :
      (host_access_cidr veth_cidr : String) (m : ℕ)
      → max_slots net host_access_cidr veth_cidr ≡ ok m
      → (0 < m) × (m < 2 ^ 32)
  max_slots_bounds a v m h =
      let room = max_slots-HasRoom a v m h in
      (
        room.positive,
        omega (
          arith,
          room.host.count,
          room.host_room,
          mod-lt (2 ^ (32 - room.host.network.ones)) {m = 2 ^ 32} (omega arith),
        ),
      )

  module _ (host_access_cidr veth_cidr : String) (m slot : ℕ)
      (counted : max_slots net host_access_cidr veth_cidr ≡ ok m) (pos : 0 < slot)
      (le : slot ≤ m) where
    -- For a slot from 1 to MaxSlots: the host access address exists and leads back to the slot.
    pub slot-indexed_ip :
        (ip : String) × (indexed_ip net host_access_cidr slot ≡ ok ip)
        × (network_slot_from_host_access_ip net host_access_cidr ip ≡ ok slot)
    slot-indexed_ip =
        let room = max_slots-HasRoom host_access_cidr veth_cidr m counted in
        let lt : slot < total_ips room.host.network =
          omega (arith, room.host.count, room.host_room) in
        (
          net.ip_string (room.host.base + slot),
          (indexed_ip-HasSlots net laws room.host slot pos lt).0,
          slot_from_indexed net laws room.host slot pos lt,
        )

    -- And the two ends of its veth pair are two neighbouring addresses, at twice the slot.
    veth_addrs_lem :
        let base = (max_slots-HasRoom host_access_cidr veth_cidr m counted).veth.base in
        (base + (slot * 2 + 1) < 2 ^ 32)
        × (veth_addrs_for_slot net veth_cidr slot
            ≡ ok (record {
              host_ip = net.ip_string (base + slot * 2);
              peer_ip = net.ip_string (base + (slot * 2 + 1));
            }))
    unfolding veth_addrs_for_slot
    veth_addrs_lem =
        let room = max_slots-HasRoom host_access_cidr veth_cidr m counted in
        let lt : slot * 2 + 1 < total_ips room.veth.network =
          omega (arith, room.veth.count, room.veth_room) in
        let small : total_ips room.veth.network < 2 ^ 32 =
          mod-lt (2 ^ (32 - room.veth.network.ones)) {m = 2 ^ 32} (omega arith) in
        let first : u32 (slot * 2) ≡ slot * 2 = mod-eq_of_lt (omega arith) in
        let second : u32 (slot * 2 + 1) ≡ slot * 2 + 1 = mod-eq_of_lt (omega arith) in
        let (host_ok, _) =
          indexed_ip-HasSlots net laws room.veth (slot * 2) (omega arith) (omega arith) in
        let (peer_ok, fits) =
          indexed_ip-HasSlots net laws room.veth (slot * 2 + 1) (omega arith) lt in
        (fits, rw (first, second, host_ok, peer_ok) refl)

  -- The slot that an address leads back to is the only one that it belongs to.
  pub host_access-injective :
      (host_access_cidr veth_cidr : String) (m s t : ℕ)
      → max_slots net host_access_cidr veth_cidr ≡ ok m
      → 0 < s
      → s ≤ m
      → 0 < t
      → t ≤ m
      → indexed_ip net host_access_cidr s ≡ indexed_ip net host_access_cidr t
      → s ≡ t
  host_access-injective a v m s t h sp sm tp tm same =
      let (ip, here, back) = slot-indexed_ip a v m s h sp sm in
      let (jp, there, again) = slot-indexed_ip a v m t h tp tm in
      let one_address : ip ≡ jp = cc in
      ok-injective s t (network_slot_from_host_access_ip net a ip) back (rw one_address again)

  veth_apart :
      (base s t : ℕ) (vs vt : VethAddrs)
      → base + (s * 2 + 1) < 2 ^ 32
      → base + (t * 2 + 1) < 2 ^ 32
      → s ≢ t
      → vs ≡ record {
        host_ip = net.ip_string (base + s * 2);
        peer_ip = net.ip_string (base + (s * 2 + 1));
      }
      → vt ≡ record {
        host_ip = net.ip_string (base + t * 2);
        peer_ip = net.ip_string (base + (t * 2 + 1));
      }
      → (vs.host_ip ≢ vs.peer_ip)
        × (vs.host_ip ≢ vt.host_ip)
        × (vs.host_ip ≢ vt.peer_ip)
        × (vs.peer_ip ≢ vt.host_ip)
        × (vs.peer_ip ≢ vt.peer_ip)
  veth_apart base s t vs vt fs ft ne es et =
      rw (es, et)
        (
          apart _ _ (omega arith) fs (omega arith),
          apart _ _ (omega arith) (omega arith) (omega arith),
          apart _ _ (omega arith) ft (omega arith),
          apart _ _ fs (omega arith) (omega arith),
          apart _ _ fs ft (omega arith),
        )
    where
      apart : (x y : ℕ) → x < 2 ^ 32 → y < 2 ^ 32 → x ≢ y → net.ip_string x ≢ net.ip_string y
      apart x y hx hy d same = ground (arith, laws.parse_print x hx, laws.parse_print y hy)

  -- For networks of which MaxSlots counts `m` slots: two different slots from 1 to `m` have different
  -- host access addresses, and their veth pairs exist and have four different addresses.
  pub slots-apart :
      (host_access_cidr veth_cidr : String) (m s t : ℕ)
      → max_slots net host_access_cidr veth_cidr ≡ ok m
      → 0 < s
      → s ≤ m
      → 0 < t
      → t ≤ m
      → s ≢ t
      → (indexed_ip net host_access_cidr s ≢ indexed_ip net host_access_cidr t)
        × ((vs vt : VethAddrs) × (veth_addrs_for_slot net veth_cidr s ≡ ok vs)
            × (veth_addrs_for_slot net veth_cidr t ≡ ok vt)
            × (vs.host_ip ≢ vs.peer_ip)
            × (vs.host_ip ≢ vt.host_ip)
            × (vs.host_ip ≢ vt.peer_ip)
            × (vs.peer_ip ≢ vt.host_ip)
            × (vs.peer_ip ≢ vt.peer_ip))
  slots-apart a v m s t h sp sm tp tm ne =
      let (fs, es) = veth_addrs_lem a v m s h sp sm in
      let (ft, et) = veth_addrs_lem a v m t h tp tm in
      let base = (max_slots-HasRoom a v m h).veth.base in
      let (p, q, r, u, w) = veth_apart base s t _ _ fs ft ne refl refl in
      (
        λ same. ne (host_access-injective a v m s t h sp sm tp tm same),
        (_, _, es, et, p, q, r, u, w),
      )

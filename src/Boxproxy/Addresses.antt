-- ===== src/Boxproxy/Addresses.antt =====
-- The address that the proxy resolves belongs to the slot that the boxlet gave to the sandbox.
use novita_box.Common.{
  ℕ, ◌<◌, ◌≡◌, refl, inl, inr, some, String, Option-cases, ok, arith, ◌==◌, Bool-cases,
}
use novita_box.Store.Table.{find}
use novita_box.Store.Records.{SandboxRecord, Db}
use novita_box.Store.Sandbox.{has_id}
use novita_box.Store.Request.{Request}
use novita_box.Network.Net.{NetLib, NetLaws, indexed_ip}
use novita_box.Boxproxy.Targets.{proxy_indexed_ip}

module _ (net : NetLib) (laws : NetLaws net) where
  -- The proxy's copy of indexedIP agrees with that of the boxlet on every network and index,
  -- though it does not ask for the length of the mask: a mask of 32 bits has four bytes.
  pub proxy_indexed_ip-eq-indexed_ip :
      (cidr : String) (index : ℕ) → proxy_indexed_ip net cidr index ≡ indexed_ip net cidr index
  unfolding proxy_indexed_ip indexed_ip
  proxy_indexed_ip-eq-indexed_ip cidr index = elim (Option-cases (net.parse_cidr cidr)) [
    | inl bad ↦ rw bad refl
    | inr (network, parsed) ↦ elim (Option-cases network.ip4) [
      | inl bad ↦ ground (arith, parsed, bad)
      | inr (base, four) ↦ elim (Bool-cases (network.bits == 32)) [
        | inl wide ↦
            let (mask_len, _, _, _) = laws.ipv4 cidr network base parsed (ground arith) four in
            rw (parsed, four, wide, mask_len) refl
        | inr other ↦ ground (arith, parsed, four, other)
      ]
    ]
  ]

  -- What a resolved address says of the database.
  abbrev IsResolved : String → Db → String → String → Type 0
  IsResolved cidr db id ip =
      (r : SandboxRecord) × (find (has_id id) db.sandboxes ≡ some r)
      × (0 < r.network_slot)
      × (indexed_ip net cidr r.network_slot ≡ ok ip)

-- ===== src/Boxlet/BringUp.antt =====
-- Slots, their release, and the steps that bring a sandbox up: what each leaves in the store.
use novita_box.Common.{
  ℕ, ◌≤◌, ◌<◌, ◌≡◌, refl, ap, String, Bool, true, false, not, some, arith, ok, Result, Bool-cases,
  inl, inr, ◌⊎◌, ◌==◌, ltb, if◌then◌else◌,
}
use novita_box.Store.Records.{State, failed, SandboxRecord}
use novita_box.Network.Net.{NetLaws, NetError, max_slots}
use novita_box.Network.Slots.{slot-indexed_ip, max_slots_bounds}
use novita_box.Network.Spec.{NetworkSpec, spec_for_slot}
use novita_box.Boxlet.Types.{RuntimeSpec}
use novita_box.Common.{◌>>=◌ as ◌>>=ʳ◌}
use novita_box.Boxlet.Exec.{
  remove_namespace, on_error, Env, World, Exec, Effect, next, from_store, written, call,
}
use novita_box.Boxlet.Steps.{
  set_sandbox_state, assign_network_slot, cleanup, release_sandbox_network, nothing,
}
use novita_box.Boxlet.Sandboxes.{fail_and_release, bring_up}
use novita_box.Boxlet.Holds.{
  Holds, assign_sandbox_network_slot-Holds, release_sandbox_network_slot-Holds,
}
use novita_box.Boxlet.Logic.{
  Ends, Never, At, IsQuiet, next-Ends, cleaned-Ends, Ends-world, then-Ends, else-Ends, from_net-ok,
  sure-world, unless_missing-ok, written-ok, call-IsQuiet, set_sandbox_state-Ends,
}
use novita_box.Boxlet.Quiet.{
  attach_agent_drive-IsQuiet, prepare_network-IsQuiet, ensure_agent-IsQuiet,
}

module _ (env : Env) (laws : NetLaws env.net) (m : ℕ) (enabled : env.cfg.network.enabled ≡ true)
    (counted : max_slots env.net env.cfg.network.host_access_cidr env.cfg.network.veth_cidr
      ≡ ok m) where
  is_on : not env.cfg.network.enabled ≡ false
  is_on = ap not enabled

  -- AssignSandboxNetworkSlot of a sandbox without a slot.
  pub assign_network_slot-Ends :
      {id : String} {st : State} (w : World)
      → At id st 0 w
      → Ends (λ s w'. (0 < s) × (s ≤ m) × At id st s w') (At id st 0) (assign_network_slot env id w)
  unfolding assign_network_slot written from_store
  assign_network_slot-Ends {id} {st} w h =
      let (pos, small) = max_slots_bounds env.net laws _ _ m counted in
      else-Ends _ _ _ w is_on (
        from_net-ok _ m _ w counted
          (elim (assign_sandbox_network_slot-Holds (env.clock w) m h pos small) [
            | inl none_left ↦ rw none_left (record { ends = h })
            | inr (s, db', got, sp, le, there) ↦ written-ok _ w s db' got (sp, le, there)
          ]))

  -- A slot that MaxSlots counts has a specification.
  spec_for_slot-ok :
      (id : String) (slot : ℕ)
      → 0 < slot
      → slot ≤ m
      → (spec : NetworkSpec) × (spec_for_slot env.net env.digest env.cfg.network id slot
          ≡ ok (some spec))
  unfolding spec_for_slot
  spec_for_slot-ok id slot pos le =
      let (ip, made, back) = slot-indexed_ip env.net laws _ _ m slot counted pos le in
      let above : (slot == 0) ≡ false = ground arith in (_, given_parts _ _ _ _ _ is_on above made)
    where
      given_parts :
          {A : Type 0} (off zero_slot : Result NetError A) (b z : Bool)
          (k : String → Result NetError A) {ip : String} {r : Result NetError String}
          → b ≡ false
          → z ≡ false
          → r ≡ ok ip
          → (if b then off else if z then zero_slot else r >>=ʳ k) ≡ k ip
      given_parts off zero_slot b z k e f g = rw (e, f, g) refl

  -- The cleanup of a slot that MaxSlots counts drops all errors of its commands, and has no other.
  cleanup-Ends :
      (id : String) (st : State) (s slot : ℕ) (w : World)
      → 0 < slot
      → slot ≤ m
      → At id st s w
      → Ends (λ a. At id st s) Never (cleanup env id slot w)
  unfolding cleanup
  cleanup-Ends id st s slot w pos le h =
      let (spec, made) = spec_for_slot-ok id slot pos le in
      from_net-ok _ (some spec) _ w made (record {
        ends =
            Ends-world (call env (remove_namespace spec) w)
              (call-IsQuiet env (remove_namespace spec) (Holds id st s) w h) (λ a w' q. q)
              (λ w' q. q);
      })

  -- Releasing the network of a sandbox leaves it without a slot.
  pub release_sandbox_network-Ends :
      {st : State} {s : ℕ} (r : SandboxRecord) (w : World)
      → r.network_slot ≤ m
      → At r.id st s w
      → Ends (λ a. At r.id st 0) Never (release_sandbox_network env r w)
  unfolding release_sandbox_network
  release_sandbox_network-Ends {st} {s} r w le h = else-Ends _ _ _ w is_on (
      next-Ends {post = λ a. At r.id st s} _ _ (network_gone (Bool-cases (ltb 0 r.network_slot)))
        (λ a w' h'.
          let (db', done, free) = release_sandbox_network_slot-Holds h' (env.clock w') in
          unless_missing-ok _ (written-ok _ w' tt db' done free)))
    where
      network_gone :
          ((ltb 0 r.network_slot ≡ true) ⊎ (ltb 0 r.network_slot ≡ false))
          → Ends
              (λ a. At r.id st s)
              Never
              ((if ltb 0 r.network_slot then cleanup env r.id r.network_slot else nothing) w)
      network_gone (inl some_slot) =
          then-Ends _ _ _ w some_slot (cleanup-Ends r.id st s r.network_slot w (ground arith) le h)
      network_gone (inr no_slot) = else-Ends _ _ _ w no_slot (record { ends = h })

  pub fail_and_release-Ends :
      {st : State} {s : ℕ} (r : SandboxRecord) (action : String) (w : World)
      → r.network_slot ≤ m
      → At r.id st s w
      → At r.id failed 0 (fail_and_release env r action w).1
  unfolding fail_and_release next
  fail_and_release-Ends r action w le h =
      let w' = (set_sandbox_state env r.id failed action w).1 in
      sure-world _ (
        release_sandbox_network-Ends r w' le
          (sure-world _ (set_sandbox_state-Ends env failed action w h)))

  -- From the dial on, a sandbox keeps its state and slot, or fails and loses the slot.
  pub bring_up-Ends :
      {st : State} {s : ℕ} (r : SandboxRecord) (action : String) (invoke : RuntimeSpec → Effect)
      (w : World)
      → r.network_slot ≤ m
      → At r.id st s w
      → Ends (λ a. At r.id st s) (At r.id failed 0) (bring_up env r action invoke w)
  unfolding bring_up
  bring_up-Ends {st} {s} r action invoke w le h =
      next-Ends _ _ (guard _ (call-IsQuiet env _) w h) (λ a1 w1 h1.
        next-Ends _ _ (guard _ (attach_agent_drive-IsQuiet env _) w1 h1) (λ spec w2 h2.
          next-Ends _ _ (guard _ (prepare_network-IsQuiet env _ _) w2 h2) (λ a3 w3 h3.
            next-Ends _ _ (guard _ (call-IsQuiet env _) w3 h3)
              (λ a4 w4 h4. guard _ (ensure_agent-IsQuiet env _) w4 h4))))
    where
      guard :
          {A : Type 0} (step : Exec A)
          → IsQuiet step
          → (w : World) → At r.id st s w
          → Ends
              (λ a. At r.id st s)
              (At r.id failed 0)
              (on_error step (fail_and_release env r action) w)
      guard step quiet w h =
          cleaned-Ends _ _ (quiet (Holds r.id st s) w h)
            (λ w' h'. fail_and_release-Ends r action w' le h')

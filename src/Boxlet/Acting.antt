-- ===== src/Boxlet/Acting.antt =====
-- Stop and reboot: what each leaves in the store.
use mathlib.Core.Path.{subst}
use novita_box.Common.{
  ℕ, ◌≤◌, ◌≡◌, sym, String, Bool, true, false, ◌⊎◌, inl, inr, ok, if◌then◌else◌,
}
use novita_box.Store.Records.{
  State, state_eq, failed, running, stopped, stopping, rebooting, SandboxRecord,
}
use novita_box.Store.Sandbox.{get_sandbox, scan_sandbox}
use novita_box.Network.Net.{NetLaws, max_slots}
use novita_box.Boxlet.Types.{SandboxInfo, sandbox_record_to_proto}
use novita_box.Boxlet.Exec.{
  Env, World, Effect, next, from_store, query, reboot_runtime, stop_runtime,
}
use novita_box.Boxlet.Steps.{release_sandbox_network, nothing}
use novita_box.Boxlet.Sandboxes.{
  action_found, runtime_action, stop_sandbox, reboot_sandbox, current_info, is_released,
}
use novita_box.Boxlet.Holds.{Holds, get_sandbox-Holds}
use novita_box.Boxlet.Logic.{
  Ends, Never, At, next-Ends, cleaned-Ends, Ends-weaken, sure-world, call-IsQuiet, query-IsQuiet,
  set_sandbox_state-Ends, found_sandbox-Ends,
}
use novita_box.Boxlet.Quiet.{unmount-IsQuiet}
use novita_box.Boxlet.BringUp.{release_sandbox_network-Ends}

module _ (env : Env) (laws : NetLaws env.net) (m : ℕ) (enabled : env.cfg.network.enabled ≡ true)
    (counted : max_slots env.net env.cfg.network.host_access_cidr env.cfg.network.veth_cidr
      ≡ ok m) where
  current_state-Ends :
      {st : State} {s : ℕ} (id : String) (w : World)
      → At id st s w
      → Ends (λ (i : SandboxInfo) w'. (i.state ≡ st) × At id st s w') Never (current_info env id w)
  unfolding current_info from_store next sandbox_record_to_proto scan_sandbox
  current_state-Ends id w h = rw (get_sandbox-Holds h) (record { ends = (h.state, h) })

  abbrev slot_after : State → ℕ → ℕ
  slot_after final s = if is_released env final then 0 else s

  action_found-Ends :
      {st : State} (r : SandboxRecord) (through final : State) (action : String)
      (invoke : String → Effect) (w : World)
      → r.network_slot ≤ m
      → At r.id st r.network_slot w
      → Ends
          (λ (i : SandboxInfo) w'.
            (i.state ≡ final) × At r.id final (slot_after final r.network_slot) w')
          (At r.id failed r.network_slot)
          (action_found env r through final action invoke w)
  unfolding action_found
  action_found-Ends r through final action invoke w le h =
      let P = Holds r.id through r.network_slot in
      next-Ends _ _
        (Ends-weaken _ (set_sandbox_state-Ends env through action w h) (λ a w' q. q)
          (λ w' q. absurd q))
        (λ a1 w1 h1.
          next-Ends _ _
            (cleaned-Ends _ _ (call-IsQuiet env _ P w1 h1)
              (λ w' h'. sure-world _ (set_sandbox_state-Ends env failed action w' h')))
            (λ a2 w2 h2.
              next-Ends _ _
                (cleaned-Ends _ _ (call-IsQuiet env _ P w2 h2)
                  (λ w' h'. sure-world _ (set_sandbox_state-Ends env failed action w' h')))
                (λ a3 w3 h3.
                  next-Ends _ _
                    (Ends-weaken _ (set_sandbox_state-Ends env final action w3 h3) (λ a w' q. q)
                      (λ w' q. absurd q))
                    (λ a4 w4 h4.
                      next-Ends _ _
                        (Ends-weaken _ (freed (is_released env final) w4 h4) (λ a w' q. q)
                          (λ w' q. absurd q))
                        (λ a5 w5 h5.
                          Ends-weaken _ (current_state-Ends r.id w5 h5) (λ i w' q. q)
                            (λ w' q. absurd q))))))
    where
      freed :
          (b : Bool) (w : World)
          → At r.id final r.network_slot w
          → Ends
              (λ a. At r.id final (if b then 0 else r.network_slot))
              Never
              ((if b then release_sandbox_network env r else nothing) w)
      freed true w h = release_sandbox_network-Ends env laws m enabled counted r w le h
      freed false w h = record { ends = h }

  runtime_action-Ends :
      (id : String) (st through final : State) (s : ℕ) (action : String) (invoke : String → Effect)
      (w : World)
      → s ≤ m
      → Holds id st s w.db
      → Ends
          (λ (i : SandboxInfo) w'. (i.state ≡ final) × At id final (slot_after final s) w')
          (At id failed s)
          (runtime_action env id through final action invoke w)
  unfolding runtime_action
  runtime_action-Ends id st through final s action invoke w le h =
      next-Ends _ _ (Ends-weaken _ (found_sandbox-Ends env w h) (λ r w1 q. q) (λ w1 q. absurd q))
        (λ r w1 (h1, same, _, slot).
          subst
            (λ j.
              Ends (λ (i : SandboxInfo) w'. (i.state ≡ final) × At j final (slot_after final s) w')
                (At j failed s) (action_found env r through final action invoke w1))
            same
            (subst
              (λ n.
                Ends
                  (λ (i : SandboxInfo) w'.
                    (i.state ≡ final) × At r.id final (slot_after final n) w')
                  (At r.id failed n) (action_found env r through final action invoke w1))
              slot
              (action_found-Ends r through final action invoke w1 (rw slot le) (
                subst (λ n. Holds r.id st n w1.db) (sym slot)
                  (subst (λ j. Holds j st s w1.db) (sym same) h1)))))

  -- Take a sandbox of a valid database, with a slot up to MaxSlots or none, on a host whose network is
  -- switched on. Whatever the world outside answers: RebootSandbox either succeeds, and then tells of
  -- and leaves a running sandbox with the slot that it had, or fails, and then leaves it failed with
  -- that slot. The database is valid again.
  pub reboot_sandbox-Ends :
      (id : String) (st : State) (s timeout : ℕ) (w : World)
      → s ≤ m
      → Holds id st s w.db
      → Ends
          (λ (i : SandboxInfo) w'. (i.state ≡ running) × Holds id running s w'.db)
          (λ w'. Holds id failed s w'.db)
          (reboot_sandbox env id timeout w)
  unfolding reboot_sandbox state_eq
  reboot_sandbox-Ends id st s timeout w le h =
      runtime_action-Ends id st rebooting running s "reboot" (λ j. reboot_runtime j timeout) w le h

  -- Take a sandbox of a valid database, with a slot up to MaxSlots or none, on a host whose network is
  -- switched on. Whatever the world outside answers: StopSandbox either succeeds, and then tells of and
  -- leaves a stopped sandbox without a slot; or it fails, and then the sandbox is failed with the slot
  -- that it had, or it is stopped without a slot. The database is valid again.
  pub stop_sandbox-Ends :
      (id : String) (st : State) (s timeout : ℕ) (w : World)
      → s ≤ m
      → Holds id st s w.db
      → Ends
          (λ (i : SandboxInfo) w'. (i.state ≡ stopped) × Holds id stopped 0 w'.db)
          (λ w'. Holds id failed s w'.db ⊎ Holds id stopped 0 w'.db)
          (stop_sandbox env id timeout w)
  unfolding stop_sandbox state_eq
  stop_sandbox-Ends id st s timeout w le h =
      next-Ends _ _
        (Ends-weaken _
          (runtime_action-Ends id st stopping stopped s "stop" (λ j. stop_runtime j timeout) w le h)
          (λ i w1 q. q) (λ w1 q. inl q))
        (λ i w1 (told, h1).
          next-Ends _ _ (Ends-weaken _ (read_row w1 h1) (λ r w2 q. q) (λ w2 q. inr q)) (λ r w2 h2.
            next-Ends _ _
              (Ends-weaken _ (unmount-IsQuiet env r (Holds id stopped 0) w2 h2) (λ a w3 q. q)
                (λ w3 q. inr q))
              (λ a w3 h3. record { ends = (told, h3) })))
    where
      read_row :
          (w : World)
          → At id stopped 0 w
          → Ends (λ r. At id stopped 0) (At id stopped 0) (query (get_sandbox id) w)
      read_row w h = query-IsQuiet (get_sandbox id) (Holds id stopped 0) w h

-- ===== src/Boxlet/Running.antt =====
-- Resume and start: a sandbox without a slot ends up running with one, or failed without one.
use novita_box.Common.{ℕ, ◌≤◌, ◌<◌, ◌≡◌, sym, String, Bool, true, ok, str_eq, if◌then◌else◌}
use mathlib.Core.Path.{subst}
use novita_box.Store.Records.{State, failed, running, resuming, starting, SandboxRecord}
use novita_box.Network.Net.{NetLaws, max_slots}
use novita_box.Store.Sandbox.{scan_sandbox}
use novita_box.Boxlet.Types.{sandbox_record_to_proto, SandboxInfo}
use novita_box.Boxlet.Rootfs.{provider_name, mount_overlaybd_rootfs, unmount_overlaybd_rootfs}
use novita_box.Boxlet.Exec.{
  ◌>>◌, resume_runtime, start_runtime, Env, World, next, from_store, ignore,
}
use novita_box.Boxlet.Steps.{set_sandbox_state, nothing}
use novita_box.Boxlet.Sandboxes.{
  bring_up, current_info, resume_found, start_found, resume_sandbox, start_sandbox,
}
use novita_box.Boxlet.Holds.{Holds, get_sandbox-Holds, row-id}
use novita_box.Boxlet.Logic.{
  Ends, Never, At, IsQuiet, next-Ends, cleaned-Ends, Ends-world, Ends-weaken, sure-world,
  return-IsQuiet, if-IsQuiet, ignore-IsQuiet, set_sandbox_state-Ends, found_sandbox-Ends,
}
use novita_box.Boxlet.BringUp.{assign_network_slot-Ends, fail_and_release-Ends, bring_up-Ends}
use novita_box.Boxlet.Quiet.{mount-IsQuiet, unmount-IsQuiet}

module _ (env : Env) (laws : NetLaws env.net) (m : ℕ) (enabled : env.cfg.network.enabled ≡ true)
    (counted : max_slots env.net env.cfg.network.host_access_cidr env.cfg.network.veth_cidr
      ≡ ok m) where
  -- What the caller of resume and start is told, and finds in the store.
  abbrev pub IsRunning : String → SandboxInfo → World → Type 0
  IsRunning id info w =
      (info.sandbox_id ≡ id)
      × (info.state ≡ running)
      × ((s : ℕ) × (0 < s) × (s ≤ m) × Holds id running s w.db)

  current_info-Ends :
      {s : ℕ} (id : String) (w : World)
      → 0 < s
      → s ≤ m
      → At id running s w
      → Ends (IsRunning id) Never (current_info env id w)
  unfolding current_info from_store next sandbox_record_to_proto scan_sandbox
  current_info-Ends {s} id w pos le h =
      rw (get_sandbox-Holds h) (record { ends = (row-id h, h.state, (s, pos, le, h)) })

  -- Take a valid database in which a sandbox has no slot, a switched-on network, and networks of
  -- which MaxSlots counts `m` slots. Whatever the world outside answers: ResumeSandbox either
  -- succeeds, tells of this sandbox as running, and leaves it running with a slot from 1 to `m`; or it
  -- fails and leaves it failed with no slot. The database is valid again.
  pub resume_sandbox-Ends :
      (id : String) (st : State) (w : World)
      → Holds id st 0 w.db
      → Ends (IsRunning id) (λ w'. Holds id failed 0 w'.db) (resume_sandbox env id w)
  unfolding resume_sandbox
  resume_sandbox-Ends id st w h =
      next-Ends _ _ (Ends-weaken _ (found_sandbox-Ends env w h) (λ r w1 q. q) (λ w1 q. absurd q))
        (λ r w1 (h1, same, _, _).
          subst (λ j. Ends (IsRunning j) (λ w'. Holds j failed 0 w'.db) (resume_found env r w1))
            same (resumed r w1 (subst (λ j. Holds j st 0 w1.db) (sym same) h1)))
    where
      resumed :
          (r : SandboxRecord) (w1 : World)
          → At r.id st 0 w1
          → Ends (IsRunning r.id) (At r.id failed 0) (resume_found env r w1)
      resumed r w1 h1 =
          next-Ends _ _
            (Ends-weaken _ (set_sandbox_state-Ends env resuming "resume" w1 h1) (λ a w' q. q)
              (λ w' q. absurd q))
            (λ a w2 h2.
              next-Ends _ _
                (cleaned-Ends _ _ (assign_network_slot-Ends env laws m enabled counted w2 h2)
                  (λ w' h'. sure-world _ (set_sandbox_state-Ends env failed "resume" w' h')))
                (λ s w3 (pos, le, h3).
                  next-Ends _ _
                    (bring_up-Ends env laws m enabled counted (record r { network_slot = s })
                      "resume" resume_runtime w3 le h3)
                    (λ b w4 h4.
                      next-Ends _ _
                        (Ends-weaken _ (set_sandbox_state-Ends env running "resume" w4 h4)
                          (λ a w' q. q) (λ w' q. absurd q))
                        (λ c w5 h5.
                          Ends-weaken _ (current_info-Ends r.id w5 pos le h5) (λ i w' q. q)
                            (λ w' q. absurd q)))))

  mount_if-IsQuiet :
      (mounted : Bool) (r : SandboxRecord)
      → IsQuiet (if mounted then mount_overlaybd_rootfs env r else nothing)
  mount_if-IsQuiet mounted r = if-IsQuiet mounted _ _ (mount-IsQuiet env r) (return-IsQuiet tt)

  unmount_if-IsQuiet :
      (mounted : Bool) (r : SandboxRecord)
      → IsQuiet (if mounted then ignore (unmount_overlaybd_rootfs env r) else nothing)
  unmount_if-IsQuiet mounted r =
      if-IsQuiet mounted _ _ (ignore-IsQuiet _ (unmount-IsQuiet env r)) (return-IsQuiet tt)

  -- Take a valid database in which a sandbox has no slot, a switched-on network, and networks of
  -- which MaxSlots counts `m` slots. Whatever the world outside answers: StartSandbox either succeeds,
  -- tells of this sandbox as running, and leaves it running with a slot from 1 to `m`; or it fails and
  -- leaves it failed with no slot. The database is valid again.
  pub start_sandbox-Ends :
      (id : String) (st : State) (w : World)
      → Holds id st 0 w.db
      → Ends (IsRunning id) (λ w'. Holds id failed 0 w'.db) (start_sandbox env id w)
  unfolding start_sandbox
  start_sandbox-Ends id st w h =
      next-Ends _ _ (Ends-weaken _ (found_sandbox-Ends env w h) (λ r w1 q. q) (λ w1 q. absurd q))
        (λ r w1 (h1, same, _, _).
          subst (λ j. Ends (IsRunning j) (λ w'. Holds j failed 0 w'.db) (start_found env r w1)) same
            (started r w1 (subst (λ j. Holds j st 0 w1.db) (sym same) h1)))
    where
      started :
          (r : SandboxRecord) (w1 : World)
          → At r.id st 0 w1
          → Ends (IsRunning r.id) (At r.id failed 0) (start_found env r w1)
      started r w1 h1 =
          next-Ends _ _
            (Ends-weaken _ (set_sandbox_state-Ends env starting "start" w1 h1) (λ a w' q. q)
              (λ w' q. absurd q))
            (λ a w2 h2.
              next-Ends _ _
                (cleaned-Ends _ _ (assign_network_slot-Ends env laws m enabled counted w2 h2)
                  (λ w' h'. sure-world _ (set_sandbox_state-Ends env failed "start" w' h')))
                (λ s w3 (pos, le, h3).
                  let with_slot = record r { network_slot = s } in
                  next-Ends _ _
                    (cleaned-Ends _ _
                      (mount_if-IsQuiet (str_eq r.rootfs_provider provider_name) with_slot
                        (Holds r.id starting s) w3 h3)
                      (λ w' h'.
                        fail_and_release-Ends env laws m enabled counted with_slot "start" w' le
                          h'))
                    (λ b w4 h4.
                      next-Ends _ _
                        (cleaned-Ends _ _ (running_or_failed with_slot w4 le h4) (λ w' h'.
                          Ends-world _
                            (unmount_if-IsQuiet (str_eq r.rootfs_provider provider_name) with_slot
                              (Holds r.id failed 0) w' h')
                            (λ a w q. q) (λ w q. q)))
                        (λ c w5 h5.
                          Ends-weaken _ (current_info-Ends r.id w5 pos le h5) (λ i w' q. q)
                            (λ w' q. absurd q)))))
        where
          running_or_failed :
              {s : ℕ} (q : SandboxRecord) (w : World)
              → q.network_slot ≤ m
              → At q.id starting s w
              → Ends
                  (λ a. At q.id running s)
                  (At q.id failed 0)
                  ((bring_up env q "start" start_runtime
                      >> set_sandbox_state env q.id running "start")
                    w)
          running_or_failed q w le h =
              next-Ends _ _
                (bring_up-Ends env laws m enabled counted q "start" start_runtime w le h)
                (λ a w' h'.
                  Ends-weaken _ (set_sandbox_state-Ends env running "start" w' h') (λ a w q. q)
                    (λ w q. absurd q))

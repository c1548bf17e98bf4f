-- ===== src/Boxlet/Creating.antt =====
-- CreateSandbox: the sandbox runs with a slot, or is failed without one, or nothing was written.
use mathlib.Core.Path.{subst}
use novita_box.Common.{
  ℕ, ◌≤◌, ◌<◌, ◌≡◌, refl, sym, String, Bool, true, ◌⊎◌, inl, inr, Option, ok, str_eq, if◌then◌else◌,
}
use novita_box.Store.Records.{creating, running, failed, SandboxRecord, Db, IsValid}
use novita_box.Store.Sandbox.{get_sandbox, create_sandbox, scan_sandbox}
use novita_box.Store.Artifact.Templates.{Json}
use novita_box.Network.Net.{NetLaws, max_slots}
use novita_box.Boxlet.Types.{
  RuntimeType, RuntimeSpec, CreateSandboxRequest, SandboxInfo, sandbox_record_to_proto,
}
use novita_box.Boxlet.Rootfs.{provider_name, remove_overlaybd_rootfs}
use novita_box.Boxlet.Exec.{
  invalid_argument, Env, World, next, from_store, written, query, return, ignore,
}
use novita_box.Boxlet.Create.{
  run_new, create_named, firecracker_if_unspecified, create_sandbox_runtime, nothing,
}
use novita_box.Boxlet.Holds.{Holds, get_sandbox-Holds, row-id}
use novita_box.Boxlet.Logic.{
  Ends, Never, At, IsQuiet, next-Ends, cleaned-Ends, Ends-world, Ends-weaken, written-ok,
  call-IsQuiet, return-IsQuiet, if-IsQuiet, ignore-IsQuiet,
}
use novita_box.Boxlet.Quiet.{remove-IsQuiet}
use novita_box.Boxlet.BringUp.{assign_network_slot-Ends}
use novita_box.Boxlet.Files.{prepare_files-Keeps}
use novita_box.Boxlet.Launch.{
  create_sandbox-Holds, existing_status-Ends, refuse-Ends, with_source-Ends, fail_create-At,
  fail_create_and_release-At, launch-Ends,
}

module _ (env : Env) {M : Type 0} (json : Json M) (laws : NetLaws env.net) (m : ℕ)
    (enabled : env.cfg.network.enabled ≡ true)
    (counted : max_slots env.net env.cfg.network.host_access_cidr env.cfg.network.veth_cidr
      ≡ ok m) where
  -- What the caller of CreateSandbox is told, and finds in the store.
  abbrev pub IsCreated : String → SandboxInfo → World → Type 0
  IsCreated id info w =
      (info.sandbox_id ≡ id)
      × (info.state ≡ running)
      × ((s : ℕ) × (0 < s) × (s ≤ m) × Holds id running s w.db)

  -- Nothing was written, or the sandbox is there as failed and has no slot.
  abbrev pub IsRefused : String → Db → World → Type 0
  IsRefused id db w = (w.db ≡ db) ⊎ Holds id failed 0 w.db

  new_info-Ends :
      {s : ℕ} (id : String) (t : RuntimeType) (w : World)
      → 0 < s
      → s ≤ m
      → At id running s w
      → Ends
          (IsCreated id)
          Never
          (next (query (get_sandbox id) w) (λ r. return (sandbox_record_to_proto r t)))
  unfolding from_store next sandbox_record_to_proto scan_sandbox
  new_info-Ends {s} id t w pos le h =
      rw (get_sandbox-Holds h) (record { ends = (row-id h, h.state, (s, pos, le, h)) })

  remove_if-IsQuiet :
      (made : Bool) (r : SandboxRecord)
      → IsQuiet (if made then ignore (remove_overlaybd_rootfs env r) else nothing)
  remove_if-IsQuiet made r =
      if-IsQuiet made _ _ (ignore-IsQuiet _ (remove-IsQuiet env r)) (return-IsQuiet tt)

  run_new-Ends :
      (given : Option RuntimeSpec) (t : RuntimeType) (r : SandboxRecord) (w : World)
      → At r.id creating 0 w
      → Ends (IsCreated r.id) (At r.id failed 0) (run_new env json given t r w)
  unfolding run_new
  run_new-Ends given t r w h =
      next-Ends _ _
        (cleaned-Ends _ _ (assign_network_slot-Ends env laws m enabled counted w h)
          (λ w' h'. fail_create-At env json laws m enabled counted r.id w' h'))
        (λ s w1 (pos, le, h1).
          let with_slot = record r { network_slot = s } in
          next-Ends _ _
            (cleaned-Ends _ _ (prepare_files-Keeps env json with_slot _ w1 h1) (λ w' h'.
              fail_create_and_release-At env json laws m enabled counted with_slot w' le h'))
            (λ spec w2 h2.
              next-Ends _ _
                (cleaned-Ends _ _
                  (launch-Ends env json laws m enabled counted with_slot t spec w2 le h2)
                  (λ w' h'.
                    Ends-world _
                      (remove_if-IsQuiet (str_eq r.rootfs_provider provider_name) r
                        (Holds r.id failed 0) w' h')
                      (λ a w q. q) (λ w q. q)))
                (λ b w3 h3.
                  Ends-weaken _ (new_info-Ends r.id t w3 pos le h3) (λ i w' q. q)
                    (λ w' q. absurd q))))

  inserted :
      {db : Db} (r : SandboxRecord) (w : World)
      → IsValid db
      → w.db ≡ db
      → r.state ≡ creating
      → r.network_slot ≡ 0
      → Ends
          (λ a. At r.id creating 0)
          (λ w'. w'.db ≡ db)
          (written (create_sandbox (env.clock w) r w.db) w)
  unfolding written from_store
  inserted r w v same st slot =
      elim (create_sandbox-Holds json (env.clock w) r w.db (subst IsValid (sym same) v)) [
        | inl refused ↦ rw refused (record { ends = same })
        | inr (db', done, there) ↦ written-ok _ w tt db' done (rw (← st, ← slot) there)
      ]

  -- Take a valid database, a switched-on network, and networks of which MaxSlots counts `m` slots.
  -- Whatever the world outside answers: CreateSandbox either succeeds, tells of this sandbox as
  -- running, and leaves it running with a slot from 1 to `m` in a valid database; or it fails, and
  -- then the database is as it was, or is valid and has the sandbox as failed with no slot.
  pub create_sandbox_runtime-Ends :
      (req : CreateSandboxRequest) (w : World)
      → IsValid w.db
      → Ends
          (IsCreated req.sandbox_id)
          (IsRefused req.sandbox_id w.db)
          (create_sandbox_runtime env json req w)
  unfolding create_sandbox_runtime
  create_sandbox_runtime-Ends req w v =
      refuse-Ends (str_eq req.sandbox_id "") invalid_argument (create_named env json req) w
        (inl refl) (named (λ r w' h. run_new-Ends req.runtime_spec _ r w' h))
    where
      named :
          ((r : SandboxRecord) (w' : World)
            → At r.id creating 0 w'
            → Ends (IsCreated r.id) (At r.id failed 0) (
                run_new env json req.runtime_spec
                  (firecracker_if_unspecified req.runtime_type)
                  r
                  w'))
          → Ends
              (IsCreated req.sandbox_id)
              (IsRefused req.sandbox_id w.db)
              (create_named env json req w)
      named run =
          next-Ends _ _
            (Ends-weaken _ (call-IsQuiet env _ (λ db. db ≡ w.db) w refl) (λ a w1 q. q)
              (λ w1 q. inl q))
            (λ a w1 same.
              next-Ends _ _
                (Ends-weaken _ (with_source-Ends {bad = λ w'. w'.db ≡ w.db} _ _ _ w1 same)
                  (λ r w2 q. q) (λ w2 q. inl q))
                (λ r w2 (kept, ids, sts, slots).
                  next-Ends _ _
                    (existing_status-Ends _ (
                      Ends-weaken _ (inserted r w2 v kept sts slots) (λ b w3 q. q) (λ w3 q. inl q)))
                    (λ b w3 there.
                      Ends-weaken _ (run r w3 there) (λ i w4 q. rw (← ids) q)
                        (λ w4 q. inr (rw (← ids) q)))))

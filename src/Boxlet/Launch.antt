-- ===== src/Boxlet/Launch.antt =====
-- The steps of CreateSandbox: what each leaves in the store.
use mathlib.Core.Path.{subst}
use novita_box.Common.{
  ℕ, ◌≤◌, ◌≡◌, refl, ap, String, Bool, true, false, not, ◌||◌, ◌&&◌, ◌⊎◌, inl, inr, Option, none,
  some, ◌∷◌, ok, err, Result, Bool-cases, str_eq, if◌then◌else◌, text_eq, nat_eq,
}
use text.Mathlib.TextPositions.{eq_refl}
use novita_box.Common.Int.{ℤ}
use novita_box.Store.Table.{find, is_unique}
use novita_box.Store.Records.{
  creating, running, failed, SandboxRecord, Db, IsValid, sandbox_key, slot_key, unique_failed, Tx,
}
use novita_box.Store.Sandbox.{create_sandbox, update_sandbox_state, sandbox_row}
use novita_box.Store.Artifact.Templates.{Json}
use novita_box.Store.Request.{after, add_sandbox}
use novita_box.Store.Request.Validity.{after-IsValid}
use novita_box.Network.Net.{NetLaws, max_slots}
use novita_box.Boxlet.Types.{is_container, RuntimeType, RuntimeSpec, RootfsSource}
use novita_box.Boxlet.Rootfs.{provider_name, snapshot_key}
use novita_box.Boxlet.Exec.{
  ◌>>◌, invalid_argument, Env, World, Exec, ServiceError, next, written, on_error, raise, return,
  ignore, call, kill_runtime,
}
use novita_box.Boxlet.Create.{
  existing_status, with_source, fail_create, fail_create_and_release, launch,
}
use novita_box.Boxlet.Holds.{Holds, update_sandbox_state-Holds}
use novita_box.Boxlet.Logic.{
  Ends, At, IsQuiet, next-Ends, cleaned-Ends, Ends-world, sure-world, written-ok, call-IsQuiet,
}
use novita_box.Boxlet.Quiet.{prepare_network-IsQuiet, ensure_agent-IsQuiet}
use novita_box.Boxlet.BringUp.{release_sandbox_network-Ends}
use novita_box.Boxlet.Files.{ensure_dirs-IsQuiet}

-- A new row, or an index refuses it and nothing is written.
pub create_sandbox-Holds :
    {M : Type 0} (json : Json M) (now : ℤ) (r : SandboxRecord) (db : Db)
    → IsValid db
    → (create_sandbox now r db ≡ (err unique_failed, db))
      ⊎ ((db' : Db) × (create_sandbox now r db ≡ (ok tt, db'))
          × Holds r.id r.state r.network_slot db')
unfolding create_sandbox sandbox_row after find
create_sandbox-Holds json now r db v =
    let row = sandbox_row now r in
    elim (Bool-cases (
      is_unique text_eq sandbox_key (row ∷ db.sandboxes)
      && is_unique nat_eq slot_key (row ∷ db.sandboxes))) [
        | inr refused ↦ inl (rw refused refl)
        | inl unique ↦
            let done : create_sandbox now r db
                ≡ (ok tt, record db { sandboxes = row ∷ db.sandboxes }) =
              rw unique refl in
            inr (
              _,
              done,
              record {
                valid =
                    subst IsValid (ap (λ (t : Tx (Unit {0})). t.1) done)
                      (after-IsValid json (add_sandbox now r) db v);
                row = row;
                here = rw (eq_refl r.id) refl;
                state = refl;
                slot = refl;
              },
            )
      ]

-- The status of an error is all that changes.
pub existing_status-Ends :
    {post : Unit {0} → World → Type 0} {bad : World → Type 0}
    (r : Result ServiceError (Unit {0}) × World)
    → Ends post bad r
    → Ends post bad (existing_status r)
unfolding existing_status
existing_status-Ends (ok a, w) h = record { ends = h.ends }
existing_status-Ends (err e, w) h = record { ends = h.ends }

pub refuse-Ends :
    {A : Type 0} {post : A → World → Type 0} {bad : World → Type 0} (b : Bool) (e : ServiceError)
    (n : Exec A) (w : World)
    → bad w
    → Ends post bad (n w)
    → Ends post bad ((if b then raise e else n) w)
refuse-Ends true e n w h k = record { ends = h }
refuse-Ends false e n w h k = k

pub with_source-Ends :
    {bad : World → Type 0} (t : RuntimeType) (source : Option RootfsSource) (r : SandboxRecord)
    (w : World)
    → bad w
    → Ends
        (λ q w'. bad w' × (q.id ≡ r.id) × (q.state ≡ r.state) × (q.network_slot ≡ r.network_slot))
        bad
        (with_source t source r w)
unfolding with_source
with_source-Ends t none r w h = record { ends = (h, refl, refl, refl) }
with_source-Ends t (some source) r w h =
    let given = record r {
      rootfs_provider = provider_name;
      rootfs_source_ref = source.image;
      rootfs_snapshot_key = snapshot_key r.id;
    } in
    refuse-Ends (not (is_container t)) invalid_argument _ w h (
      refuse-Ends (not (str_eq source.provider provider_name) || str_eq source.image "")
        invalid_argument _ w h
        (refuse-Ends (not (str_eq source.pull_mode "") && not (str_eq source.pull_mode "lazy"))
          invalid_argument (return given) w h (record { ends = (h, refl, refl, refl) })))

module _ (env : Env) {M : Type 0} (json : Json M) (laws : NetLaws env.net) (m : ℕ)
    (enabled : env.cfg.network.enabled ≡ true)
    (counted : max_slots env.net env.cfg.network.host_access_cidr env.cfg.network.veth_cidr
      ≡ ok m) where
  pub fail_create-At :
      {s : ℕ} (id : String) (w : World)
      → At id creating s w
      → At id failed s (fail_create env json id w).1
  fail_create-At {s} id w h =
      let (db', done, there) = update_sandbox_state-Holds h (env.clock w) failed "create" in
      sure-world {good = At id failed s}
        (written (update_sandbox_state (env.clock w) id creating failed "create" w.db) w)
        (written-ok _ w tt db' done there)

  pub fail_create_and_release-At :
      {s : ℕ} (r : SandboxRecord) (w : World)
      → r.network_slot ≤ m
      → At r.id creating s w
      → At r.id failed 0 (fail_create_and_release env json r w).1
  unfolding fail_create_and_release next
  fail_create_and_release-At r w le h =
      let w' = (fail_create env json r.id w).1 in
      sure-world _
        (release_sandbox_network-Ends env laws m enabled counted r w' le (fail_create-At r.id w h))

  kill_and_fail-At :
      {s : ℕ} (r : SandboxRecord) (w : World)
      → r.network_slot ≤ m
      → At r.id creating s w
      → At r.id failed 0
          ((ignore (call env (kill_runtime r.id)) >> fail_create_and_release env json r) w).1
  unfolding next
  kill_and_fail-At {s} r w le h =
      fail_create_and_release-At r (call env (kill_runtime r.id) w).1 le (
        Ends-world (call env (kill_runtime r.id) w)
          (call-IsQuiet env (kill_runtime r.id) (Holds r.id creating s) w h) (λ a w' q. q)
          (λ w' q. q))

  -- From the prepared files on, a new sandbox is running with its slot, or failed without one.
  pub launch-Ends :
      {s : ℕ} (r : SandboxRecord) (t : RuntimeType) (spec : RuntimeSpec) (w : World)
      → r.network_slot ≤ m
      → At r.id creating s w
      → Ends (λ a. At r.id running s) (At r.id failed 0) (launch env json r t spec w)
  unfolding launch
  launch-Ends {s} r t spec w le h =
      next-Ends _ _ (guard _ (ensure_dirs-IsQuiet env json spec.snapshot) w h) (λ a1 w1 h1.
        next-Ends _ _ (guard _ (prepare_network-IsQuiet env _ _) w1 h1) (λ a2 w2 h2.
          next-Ends _ _ (guard _ (call-IsQuiet env _) w2 h2) (λ a3 w3 h3.
            next-Ends _ _ (guard _ (call-IsQuiet env _) w3 h3) (λ a4 w4 h4.
              next-Ends _ _ (guard _ (call-IsQuiet env _) w4 h4) (λ a5 w5 h5.
                next-Ends _ _
                  (cleaned-Ends _ _
                    (ensure_agent-IsQuiet env spec.network (Holds r.id creating s) w5 h5)
                    (λ w' h'. kill_and_fail-At r w' le h'))
                  (λ a6 w6 h6.
                    let (db', done, there) =
                      update_sandbox_state-Holds h6 (env.clock w6) running "create" in
                    written-ok _ w6 tt db' done there))))))
    where
      guard :
          {A : Type 0} (step : Exec A)
          → IsQuiet step
          → (w : World) → At r.id creating s w
          → Ends
              (λ a. At r.id creating s)
              (At r.id failed 0)
              (on_error step (fail_create_and_release env json r) w)
      guard step quiet w h =
          cleaned-Ends _ _ (quiet (Holds r.id creating s) w h)
            (λ w' h'. fail_create_and_release-At r w' le h')

-- ===== src/Boxlet/Ending.antt =====
-- KillSandbox: what it leaves in the store.
pub mod Snapshots
use mathlib.Core.Path.{subst}
use novita_box.Common.{
  ℕ, ◌≤◌, ◌<◌, ◌≡◌, refl, sym, ap, String, Bool, true, false, not, ◌⊎◌, inl, inr, Option, none,
  some, List, [], ◌∷◌, arith, ok, err, Result, Bool-cases, str_eq, ◌==◌, ltb, if◌then◌else◌,
}
use novita_box.Common.Int.{ℤ}
use novita_box.Store.Table.{find, select, delete, affected}
use novita_box.Store.Table.Laws.{affected-find-none, affected-find-some, find-delete}
use novita_box.Store.Records.{
  State, killing, killed, SandboxRecord, SnapshotRecord, Db, IsValid, not_found, Tx,
}
use novita_box.Store.Sandbox.{has_id, delete_sandbox, release_sandbox_network_slot}
use novita_box.Store.Artifact.Snapshots.{
  of_sandbox, has_snapshot_id, delete_snapshot, list_snapshots_by_sandbox,
}
use novita_box.Store.Request.Validity.{delete_sandbox-IsValid, delete_snapshot-IsValid}
use novita_box.Boxlet.Exec.{
  Env, World, Exec, ServiceError, next, written, from_store, ignore, call, remove_namespace,
}
use novita_box.Network.Spec.{NetworkSpec}
use novita_box.Boxlet.Steps.{unless_missing, cleanup, remove_network, release_sandbox_network}
use novita_box.Boxlet.Sandboxes.{delete_each, delete_sandbox_snapshots, kill_sandbox, kill_found}
use novita_box.Boxlet.Holds.{Holds}
use novita_box.Boxlet.Logic.{
  Ends, Never, At, IsQuiet, Keeps, next-Ends, cleaned-Ends, Ends-world, Ends-weaken, sure-world,
  written-ok, unless_missing-ok, call-IsQuiet, return-IsQuiet, from_net-IsQuiet, >>=-IsQuiet,
  if-IsQuiet, ignore-IsQuiet, >>=-Keeps, if-Keeps, ignore-Keeps, set_sandbox_state-Ends,
  found_sandbox-Ends,
}
use novita_box.Boxlet.Quiet.{remove-IsQuiet}
use novita_box.Boxlet.Ending.Snapshots.{
  IsCovered, IsCovered-nil, IsCovered-absent, IsCovered-delete, listed-IsCovered,
}

-- No row and no snapshot of the sandbox is left, in a valid database.
pub record IsGone (id : String) (db : Db) : Type 0 where
  pub valid : IsValid db
  pub row : find (has_id id) db.sandboxes ≡ none
  pub snapshots : select (of_sandbox id) db.snapshots ≡ []

-- one deletion, of a snapshot that is there or not
delete_snapshot-IsCovered :
    {id : String} {st : State} {n : ℕ} (s : SnapshotRecord) (ss : List SnapshotRecord) (db : Db)
    → Holds id st n db
    → IsCovered id (s ∷ ss) db.snapshots
    → ((delete_snapshot s.id db ≡ (err not_found, db)) × IsCovered id ss db.snapshots)
      ⊎ ((db' : Db) × (delete_snapshot s.id db ≡ (ok tt, db'))
          × Holds id st n db'
          × IsCovered id ss db'.snapshots)
unfolding delete_snapshot
delete_snapshot-IsCovered {id} s ss db h c =
    elim (Bool-cases (affected (has_snapshot_id s.id) db.snapshots == 0)) [
      | inl absent ↦ inl (rw absent refl, IsCovered-absent id s ss db.snapshots (ground arith) c)
      | inr there ↦
          let db' = record db { snapshots = delete (has_snapshot_id s.id) db.snapshots } in
          let done : delete_snapshot s.id db ≡ (ok tt, db') = rw there refl in
          inr (
            db',
            done,
            record {
              valid =
                  subst IsValid (ap (λ (t : Tx (Unit {0})). t.1) done)
                    (delete_snapshot-IsValid s.id db h.valid);
              row = h.row;
              here = h.here;
              state = h.state;
              slot = h.slot;
            },
            IsCovered-delete id s ss db.snapshots c,
          )
    ]

-- ErrNotFound, where it is dropped
missing-dropped :
    {post : Unit {0} → World → Type 0} (t : Tx (Unit {0})) (w : World)
    → t ≡ (err not_found, w.db)
    → post tt w
    → Ends post Never (unless_missing (written t w))
unfolding unless_missing written from_store
missing-dropped t w e h = rw e (record { ends = h })

release-missing :
    (now : ℤ) (id : String) (db : Db)
    → find (has_id id) db.sandboxes ≡ none
    → release_sandbox_network_slot now id db ≡ (err not_found, db)
unfolding release_sandbox_network_slot
release-missing now id db absent = rw (affected-find-none (has_id id) db.sandboxes absent) refl

-- DeleteSandbox of a sandbox whose snapshots are deleted
delete_sandbox-IsGone :
    {id : String} {st : State} {n : ℕ} (db : Db)
    → Holds id st n db
    → select (of_sandbox id) db.snapshots ≡ []
    → (db' : Db) × (delete_sandbox id db ≡ (ok tt, db')) × IsGone id db'
unfolding delete_sandbox
delete_sandbox-IsGone {id} db h none_left =
    let there = affected-find-some (has_id id) db.sandboxes h.row h.here in
    let some_row : (affected (has_id id) db.sandboxes == 0) ≡ false = ground arith in
    let db' = record db { sandboxes = delete (has_id id) db.sandboxes } in
    let done : delete_sandbox id db ≡ (ok tt, db') = rw some_row refl in
    (
      db',
      done,
      record {
        valid =
            subst IsValid (ap (λ (t : Tx (Unit {0})). t.1) done)
              (delete_sandbox-IsValid id db h.valid);
        row = find-delete (has_id id) db.sandboxes;
        snapshots = none_left;
      },
    )

module _ (env : Env) where
  delete_each-Ends :
      {id : String} {st : State} {n : ℕ} (ss : List SnapshotRecord) (w : World)
      → At id st n w
      → IsCovered id ss w.db.snapshots
      → Ends
          (λ a w'. At id st n w' × (select (of_sandbox id) w'.db.snapshots ≡ []))
          Never
          (delete_each env ss w)
  delete_each-Ends {id} [] w h c = record { ends = (h, IsCovered-nil id w.db.snapshots c) }
  delete_each-Ends {id} {st} {n} (s ∷ ss) w h c =
      next-Ends {post = λ a w'. At id st n w' × IsCovered id ss w'.db.snapshots} _ _
        (deleted (delete_snapshot-IsCovered s ss w.db h c))
        (λ a w' (h', c'). delete_each-Ends ss w' h' c')
    where
      deleted :
          (((delete_snapshot s.id w.db ≡ (err not_found, w.db)) × IsCovered id ss w.db.snapshots)
            ⊎ ((db' : Db) × (delete_snapshot s.id w.db ≡ (ok tt, db'))
                × Holds id st n db'
                × IsCovered id ss db'.snapshots))
          → Ends
              (λ a w'. At id st n w' × IsCovered id ss w'.db.snapshots)
              Never
              (unless_missing (written (delete_snapshot s.id w.db) w))
      deleted (inl (none_left, rest)) = missing-dropped _ w none_left (h, rest)
      deleted (inr (db', done, h', rest)) =
          unless_missing-ok _ (written-ok _ w tt db' done (h', rest))

  cleanup-IsQuiet : (id : String) (slot : ℕ) → IsQuiet (cleanup env id slot)
  unfolding cleanup
  cleanup-IsQuiet id slot = >>=-IsQuiet _ _ (from_net-IsQuiet _) (λ spec. removed spec)
    where
      removed : (spec : Option NetworkSpec) → IsQuiet (remove_network env spec)
      removed none = return-IsQuiet tt
      removed (some spec) = ignore-IsQuiet _ (call-IsQuiet env (remove_namespace spec))

  -- Releasing the network of a sandbox that is gone brings nothing back.
  snapshots-Ends :
      {st : State} {n : ℕ} (id : String) (w : World)
      → At id st n w
      → Ends
          (λ a w'. At id st n w' × (select (of_sandbox id) w'.db.snapshots ≡ []))
          Never
          (delete_sandbox_snapshots env id w)
  unfolding delete_sandbox_snapshots from_store next
  snapshots-Ends id w h =
      delete_each-Ends (list_snapshots_by_sandbox id w.db) w h (listed-IsCovered id w.db)

  release-IsGone : (r : SandboxRecord) → Keeps (IsGone r.id) (release_sandbox_network env r)
  unfolding release_sandbox_network
  release-IsGone r =
      let P = IsGone r.id in
      if-Keeps P _ _ _ (return-IsQuiet tt P) (
        >>=-Keeps P _ _
          (if-Keeps P (ltb 0 r.network_slot) _ _ (cleanup-IsQuiet r.id r.network_slot P)
            (return-IsQuiet tt P))
          (λ a w h.
            Ends-weaken _
              (missing-dropped {post = λ b w'. IsGone r.id w'.db}
                (release_sandbox_network_slot (env.clock w) r.id w.db) w
                (release-missing (env.clock w) r.id w.db h.row) h)
              (λ b w' q. q) (λ w' q. absurd q)))

  kill_found-Ends :
      (r : SandboxRecord) (st : State) (s : ℕ) (w : World)
      → At r.id st s w
      → Ends
          (λ a w'. IsGone r.id w'.db)
          (λ w'. Holds r.id killing s w'.db ⊎ IsGone r.id w'.db)
          (kill_found env r w)
  kill_found-Ends r st s w h =
      let P = Holds r.id killing s in
      next-Ends _ _
        (Ends-weaken _ (set_sandbox_state-Ends env killing "kill" w h) (λ a w' q. q)
          (λ w' q. absurd q))
        (λ a1 w1 h1.
          next-Ends _ _
            (Ends-weaken _
              (ignore-IsQuiet _ (>>=-IsQuiet _ _ (call-IsQuiet env _) (λ a. call-IsQuiet env _)) P
                w1 h1)
              (λ a w' q. q) (λ w' q. inl q))
            (λ a2 w2 h2.
              next-Ends _ _
                (Ends-weaken _ (ignore-IsQuiet _ (call-IsQuiet env _) P w2 h2) (λ a w' q. q)
                  (λ w' q. inl q))
                (λ a3 w3 h3.
                  next-Ends _ _
                    (Ends-weaken _ (remove-IsQuiet env r P w3 h3) (λ a w' q. q) (λ w' q. inl q))
                    (λ a4 w4 h4.
                      next-Ends _ _
                        (Ends-weaken _ (set_sandbox_state-Ends env killed "kill" w4 h4)
                          (λ a w' q. q) (λ w' q. absurd q))
                        (λ a5 w5 h5.
                          next-Ends _ _
                            (Ends-weaken _ (snapshots-Ends r.id w5 h5) (λ a w' q. q)
                              (λ w' q. absurd q))
                            (λ a6 w6 (h6, none_left).
                              let (db', done, gone) = delete_sandbox-IsGone w6.db h6 none_left in
                              next-Ends {post = λ a w'. IsGone r.id w'.db} _ _
                                (written-ok _ w6 tt db' done gone)
                                (λ a7 w7 g7.
                                  next-Ends _ _
                                    (Ends-weaken _ (call-IsQuiet env _ (IsGone r.id) w7 g7)
                                      (λ a w' q. q) (λ w' q. inr q))
                                    (λ a8 w8 g8.
                                      Ends-weaken _
                                        (ignore-Keeps (IsGone r.id) _ (release-IsGone r) w8 g8)
                                        (λ a w' q. q) (λ w' q. inr q)))))))))

  -- Take a sandbox of a valid database. Whatever the world outside answers: KillSandbox either
  -- succeeds, and then neither the sandbox nor a snapshot of it is left; or it fails, and then the
  -- sandbox is there in the killing state with its slot, or it and its snapshots are gone. The
  -- database is valid again.
  pub kill_sandbox-Ends :
      (id : String) (st : State) (s : ℕ) (w : World)
      → Holds id st s w.db
      → Ends
          (λ a w'. IsGone id w'.db)
          (λ w'. Holds id killing s w'.db ⊎ IsGone id w'.db)
          (kill_sandbox env id w)
  unfolding kill_sandbox
  kill_sandbox-Ends id st s w h =
      next-Ends _ _ (Ends-weaken _ (found_sandbox-Ends env w h) (λ r w1 q. q) (λ w1 q. absurd q))
        (λ r w1 (h1, same, _, _).
          subst
            (λ j.
              Ends (λ a w'. IsGone j w'.db) (λ w'. Holds j killing s w'.db ⊎ IsGone j w'.db)
                (kill_found env r w1))
            same (kill_found-Ends r st s w1 (subst (λ j. Holds j st s w1.db) (sym same) h1)))

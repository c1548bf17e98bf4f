-- ===== src/Store/Migrations/Resuming.antt =====
-- Runs of migrate that fail are taken up again by later ones.
use mathlib.Core.Path.{subst}
use mathlib.Core.List.{append_assoc, append-nil, map-append}
use novita_box.Common.{
  ℕ, ◌≡◌, ◌⊎◌, inl, inr, refl, sym, ap, ◌∙◌, true, Option, none, some, List, [], ◌∷◌, ◌++◌, All,
  Option-cases, if_elim, ok, err, arith,
}
use novita_box.Store.Migrations.Steps.{
  AllNew, versions, healthy, AllNew-append, passed_over, exec_all, and_exec, exec_all-append,
  exec_all-none, none-ne-some, schema, skip_step, apply_step,
}
use novita_box.Store.Migrations.{
  Migration, MigrationError, Schema, Outside, is_recorded, versions_of, insert_version,
  found_version, Answer, has_migration, in_transaction, or_rollback, apply_migration,
  unless_applied, and_then, migrate_loop, migrate, migrate_all,
}

module _ {D Sql : Type 0} (exec : Sql → D → Option D) where
  -- The first migrations have been applied, each once, and are recorded; the others have not.
  abbrev pub IsResumable : D → List (Migration Sql) → Schema D → Type 0
  IsResumable initial ms s =
      (done : List (Migration Sql)) × (rest : List (Migration Sql)) × (d : D) × (ms ≡ done ++ rest)
      × (exec_all exec done (some initial) ≡ some d)
      × (s ≡ schema d (versions done))

  module _ (o : Outside) (d : D) (vs : List ℕ) (rest : List (Migration Sql))
      (P : Answer D → Type 0) where
    skip_all :
        (seen : List (Migration Sql))
        → All (λ (m : Migration Sql). is_recorded m.version vs ≡ true) seen
        → ((e : MigrationError) → P (err e, schema d vs))
        → P (migrate_loop exec o rest (schema d vs))
        → P (migrate_loop exec o (seen ++ rest) (schema d vs))
    unfolding migrate_loop and_then
    skip_all [] recorded stop go = go
    skip_all (m ∷ seen) (here, later) stop go =
        skip_step exec (λ a. P (and_then a (migrate_loop exec o (seen ++ rest)))) o d vs m here stop
          (skip_all seen later stop go)

  versions-snoc :
      (done : List (Migration Sql)) (m : Migration Sql)
      → versions (done ++ m ∷ []) ≡ versions done ++ m.version ∷ []
  versions-snoc [] m = refl
  versions-snoc (n ∷ done) m = ap (λ l. n.version ∷ l) (versions-snoc done m)

  module _ (o : Outside) (initial : D) where
    apply_all :
        (done rest : List (Migration Sql)) (d : D)
        → exec_all exec done (some initial) ≡ some d
        → AllNew (versions done) rest
        → IsResumable initial (done ++ rest) (migrate_loop exec o rest (schema d (versions done))).1
    unfolding migrate_loop and_then
    apply_all done [] d run new = (done, [], d, refl, run, refl)
    apply_all done (m ∷ ms) d run (here, later) =
        apply_step exec
          (λ a. IsResumable initial (done ++ m ∷ ms) (and_then a (migrate_loop exec o ms)).1) o d
          (versions done) m here (λ e. (done, m ∷ ms, d, refl, run, refl))
          (λ t ran.
            subst
              (λ l.
                IsResumable initial l
                  (migrate_loop exec o ms (schema t (versions done ++ m.version ∷ []))).1)
              (append_assoc done (m ∷ []) ms)
              (subst
                (λ vs.
                  IsResumable initial ((done ++ m ∷ []) ++ ms)
                    (migrate_loop exec o ms (schema t vs)).1)
                (versions-snoc done m)
                (apply_all (done ++ m ∷ []) ms t
                  (exec_all-append exec done (m ∷ []) (some initial)
                    ∙ ap (and_exec exec m) run
                    ∙ ran)
                  (subst (λ vs. AllNew vs ms) (sym (versions-snoc done m)) later))))

    resume :
        (done rest : List (Migration Sql)) (d : D)
        → exec_all exec done (some initial) ≡ some d
        → AllNew [] (done ++ rest)
        → IsResumable initial
            (done ++ rest)
            (migrate_loop exec o (done ++ rest) (schema d (versions done))).1
    resume done rest d run new =
        skip_all o d (versions done) rest (λ a. IsResumable initial (done ++ rest) a.1) done
          (passed_over [] done) (λ e. (done, rest, d, refl, run, refl))
          (apply_all done rest d run (AllNew-append [] done rest new))

  -- A run in which no call fails.
  skip_healthy :
      (d : D) (vs : List ℕ) (seen rest : List (Migration Sql))
      → All (λ (m : Migration Sql). is_recorded m.version vs ≡ true) seen
      → migrate_loop exec healthy (seen ++ rest) (schema d vs)
        ≡ migrate_loop exec healthy rest (schema d vs)
  unfolding migrate_loop and_then has_migration found_version unless_applied
  skip_healthy d vs [] rest recorded = refl
  skip_healthy d vs (m ∷ seen) rest (here, later) = rw here (skip_healthy d vs seen rest later)

  apply_healthy :
      (d : D) (vs : List ℕ) (rest : List (Migration Sql)) (last : D)
      → AllNew vs rest
      → exec_all exec rest (some d) ≡ some last
      → migrate_loop exec healthy rest (schema d vs) ≡ (ok tt, schema last (vs ++ versions rest))
  unfolding migrate_loop and_then has_migration found_version unless_applied apply_migration
      in_transaction or_rollback insert_version
  apply_healthy d vs [] last new run =
      let same : d ≡ last = (ground arith) in rw (append-nil vs, same) refl
  apply_healthy d vs (m ∷ ms) last (here, later) run = elim (Option-cases (exec m.sql d)) [
    | inl none_left ↦
        elim (none-ne-some
          (sym (exec_all-none exec ms) ∙ ap (exec_all exec ms) (sym none_left) ∙ run)) [ ]
    | inr (t, ran) ↦
        rw (here, ran)
          (subst
            (λ l.
              migrate_loop exec healthy ms (schema t (vs ++ m.version ∷ []))
              ≡ (ok tt, schema last l))
            (append_assoc vs (m.version ∷ []) (versions ms))
            (apply_healthy t (vs ++ m.version ∷ []) ms last later
              (ap (exec_all exec ms) (sym ran) ∙ run)))
  ]

  module _ (initial : D) (ms : List (Migration Sql)) (new : AllNew [] ms) where
    abbrev pub unmigrated : Schema D
    unmigrated = record { data_tables = initial; schema_migrations = none }

    -- What a run of migrate begins with: an empty file, or what an earlier run left.
    abbrev IsOpen : Schema D → Type 0
    IsOpen s = (s ≡ unmigrated) ⊎ IsResumable initial ms s

    abbrev create_table : Schema D → Schema D
    create_table s = record s { schema_migrations = some (versions_of s.schema_migrations) }

    create_table-IsResumable : (s : Schema D) → IsOpen s → IsResumable initial ms (create_table s)
    create_table-IsResumable s (inl empty) = ([], ms, initial, refl, refl, ap create_table empty)
    create_table-IsResumable s (inr (done, rest, d, split, run, same)) =
        (done, rest, d, split, run, ap create_table same)

    migrate_loop-IsResumable :
        (o : Outside) (s : Schema D)
        → IsResumable initial ms s
        → IsResumable initial ms (migrate_loop exec o ms s).1
    migrate_loop-IsResumable o s (done, rest, d, split, run, same) =
        subst (λ l. IsResumable initial l (migrate_loop exec o l s).1) (sym split)
          (subst (λ t. IsResumable initial (done ++ rest) (migrate_loop exec o (done ++ rest) t).1)
            (sym same) (resume o initial done rest d run (subst (AllNew []) split new)))

    migrate-IsOpen : (o : Outside) (s : Schema D) → IsOpen s → IsOpen (migrate exec o ms s).1
    unfolding migrate
    migrate-IsOpen o s opened =
        if_elim (λ (a : Answer D). IsOpen a.1) o.creates
          (λ _.
            inr (migrate_loop-IsResumable o (create_table s) (create_table-IsResumable s opened)))
          (λ _. opened)

    migrate_all-IsOpen :
        (os : List Outside) (s : Schema D) → IsOpen s → IsOpen (migrate_all exec os ms s)
    unfolding migrate_all
    migrate_all-IsOpen [] s opened = opened
    migrate_all-IsOpen (o ∷ os) s opened =
        migrate_all-IsOpen os (migrate exec o ms s).1 (migrate-IsOpen o s opened)

    healthy_loop :
        (s : Schema D) (last : D)
        → exec_all exec ms (some initial) ≡ some last
        → IsResumable initial ms s
        → migrate_loop exec healthy ms s ≡ (ok tt, schema last (versions ms))
    healthy_loop s last whole (done, rest, d, split, run, same) =
        subst (λ l. migrate_loop exec healthy l s ≡ (ok tt, schema last (versions l))) (sym split)
          (ap (migrate_loop exec healthy (done ++ rest)) same
            ∙ skip_healthy d (versions done) done rest (passed_over [] done)
            ∙ apply_healthy d (versions done) rest last
                (AllNew-append [] done rest (subst (AllNew []) split new))
                (ap (exec_all exec rest) (sym run)
                  ∙ sym (exec_all-append exec done rest (some initial))
                  ∙ subst (λ l. exec_all exec l (some initial) ≡ some last) split whole)
            ∙ ap (λ l. (ok tt, schema last l))
                (sym (map-append (λ (m : Migration Sql). m.version) done rest)))

    -- When the versions of the migrations are distinct and their SQL runs on the empty database,
    -- one after the other, a run of migrate in which no call fails ends with exactly that
    -- database and with every version recorded, whatever runs stood before it and wherever each
    -- of them failed.
    pub migrate-completes :
        (os : List Outside) (last : D)
        → exec_all exec ms (some initial) ≡ some last
        → migrate exec healthy ms (migrate_all exec os ms unmigrated)
          ≡ (ok tt, schema last (versions ms))
    unfolding migrate
    migrate-completes os last whole =
        let s = migrate_all exec os ms unmigrated in
        healthy_loop (create_table s) last whole
          (create_table-IsResumable s (migrate_all-IsOpen os unmigrated (inl refl)))

-- ===== src/Store/Migrations/Steps.antt =====
-- One step of migrate: a migration that is recorded is passed over, another one runs and is
-- recorded, or nothing changes.
use mathlib.Core.Path.{subst}
use mathlib.Core.List.{append_assoc, append-nil}
use novita_box.Common.{
  ℕ, ◌≡◌, refl, sym, true, false, Option, none, some, List, [], ◌∷◌, ◌++◌, map, All, if_elim,
  Result, ok, err, arith,
}
use novita_box.Store.Migrations.{
  Migration, MigrationError, Schema, Outside, is_recorded, insert_version, found_version, Answer,
  has_migration, in_transaction, or_rollback, apply_migration, unless_applied,
}

-- No version stands twice, nor among the given ones.
abbrev pub AllNew : {Sql : Type 0} → List ℕ → List (Migration Sql) → Type 0
AllNew versions [] = Unit
AllNew versions (m ∷ ms) =
    (is_recorded m.version versions ≡ false) × AllNew (versions ++ m.version ∷ []) ms

abbrev pub versions : {Sql : Type 0} → List (Migration Sql) → List ℕ
versions ms = map (λ m. m.version) ms

abbrev pub healthy : Outside
healthy = record {
  creates = true;
  queries = λ _. true;
  begins = λ _. true;
  execs = λ _. true;
  records = λ _. true;
  commits = λ _. true;
}

pub none-ne-some {ℓ} : {A : Type ℓ} {a : A} → none ≡ some a → ⊥
none-ne-some h = ground arith

is_recorded-middle : (v : ℕ) (before behind : List ℕ) → is_recorded v (before ++ v ∷ behind) ≡ true
is_recorded-middle v [] behind = ground arith
is_recorded-middle v (w ∷ before) behind = ground (arith, is_recorded-middle v before behind)

module _ {Sql : Type 0} where
  pub AllNew-append :
      (vs : List ℕ) (seen rest : List (Migration Sql))
      → AllNew vs (seen ++ rest)
      → AllNew (vs ++ versions seen) rest
  AllNew-append vs [] rest h = subst (λ l. AllNew l rest) (sym (append-nil vs)) h
  AllNew-append vs (m ∷ seen) rest (new, h) =
      subst (λ l. AllNew l rest) (append_assoc vs (m.version ∷ []) (versions seen))
        (AllNew-append (vs ++ m.version ∷ []) seen rest h)

  pub passed_over :
      (vs : List ℕ) (seen : List (Migration Sql))
      → All (λ (m : Migration Sql). is_recorded m.version (vs ++ versions seen) ≡ true) seen
  passed_over vs [] = tt
  passed_over vs (m ∷ seen) = (
    is_recorded-middle m.version vs (versions seen),
    subst (λ l. All (λ (n : Migration Sql). is_recorded n.version l ≡ true) seen)
        (append_assoc vs (m.version ∷ []) (versions seen))
        (passed_over (vs ++ m.version ∷ []) seen),
  )

module _ {D : Type 0} where
  abbrev pub schema : D → List ℕ → Schema D
  schema d vs = record { data_tables = d; schema_migrations = some vs }

module _ {D Sql : Type 0} (exec : Sql → D → Option D) where
  abbrev pub and_exec : Migration Sql → Option D → Option D
  and_exec m none = none
  and_exec m (some d) = exec m.sql d

  -- The migrations one after the other, none of them twice.
  abbrev pub exec_all : List (Migration Sql) → Option D → Option D
  exec_all [] d = d
  exec_all (m ∷ ms) d = exec_all ms (and_exec m d)

  pub exec_all-append :
      (ms ns : List (Migration Sql)) (d : Option D)
      → exec_all (ms ++ ns) d ≡ exec_all ns (exec_all ms d)
  exec_all-append [] ns d = refl
  exec_all-append (m ∷ ms) ns d = exec_all-append ms ns (and_exec m d)

  pub exec_all-none : (ms : List (Migration Sql)) → exec_all ms none ≡ none
  exec_all-none [] = refl
  exec_all-none (m ∷ ms) = exec_all-none ms

  abbrev pub step : Outside → Schema D → Migration Sql → Answer D
  step o s m = unless_applied s (has_migration exec o s m.version) (apply_migration exec o s m)

  pub skip_step :
      (P : Answer D → Type 0) (o : Outside) (d : D) (vs : List ℕ) (m : Migration Sql)
      → is_recorded m.version vs ≡ true
      → ((e : MigrationError) → P (err e, schema d vs))
      → P (ok tt, schema d vs)
      → P (step o (schema d vs) m)
  unfolding has_migration found_version unless_applied
  skip_step P o d vs m recorded stop go =
      let s = schema d vs in
      if_elim (λ r. P (unless_applied s r (apply_migration exec o s m))) (o.queries m.version)
        (λ _.
          subst (λ b. P (unless_applied s (ok b) (apply_migration exec o s m))) (sym recorded) go)
        (λ _. stop _)

  or_rollback_elim :
      (P : Answer D → Type 0) (s : Schema D) (r : Result MigrationError (Schema D))
      → ((e : MigrationError) → P (err e, s))
      → ((t : Schema D) → r ≡ ok t → P (ok tt, t))
      → P (or_rollback s r)
  unfolding or_rollback
  or_rollback_elim P s (err e) stop go = stop e
  or_rollback_elim P s (ok t) stop go = go t refl

  in_transaction_lem :
      (o : Outside) (d : D) (vs : List ℕ) (m : Migration Sql) (t : Schema D)
      → is_recorded m.version vs ≡ false
      → in_transaction exec o (record { data_tables = d; schema_migrations = some vs }) m ≡ ok t
      → (d' : D) × (exec m.sql d ≡ some d')
        × (t ≡ record { data_tables = d'; schema_migrations = some (vs ++ m.version ∷ []) })
  unfolding in_transaction insert_version
  in_transaction_lem o d vs m t new h = ground arith

  pub apply_step :
      (P : Answer D → Type 0) (o : Outside) (d : D) (vs : List ℕ) (m : Migration Sql)
      → is_recorded m.version vs ≡ false
      → ((e : MigrationError) → P (err e, schema d vs))
      → ((t : D) → exec m.sql d ≡ some t → P (ok tt, schema t (vs ++ m.version ∷ [])))
      → P (step o (schema d vs) m)
  unfolding has_migration found_version unless_applied apply_migration
  apply_step P o d vs m new stop go =
      let s = schema d vs in
      let applied = apply_migration exec o s m in
      let transaction = in_transaction exec o s m in
      if_elim (λ r. P (unless_applied s r applied)) (o.queries m.version)
        (λ _.
          subst (λ b. P (unless_applied s (ok b) applied)) (sym new)
            (if_elim P (o.begins m.version)
              (λ _. or_rollback_elim P s transaction stop (λ t h.
                let (d', run, same) = in_transaction_lem o d vs m t new h in
                subst (λ u. P (ok tt, u)) (sym same) (go d' run)))
              (λ _. stop _)))
        (λ _. stop _)

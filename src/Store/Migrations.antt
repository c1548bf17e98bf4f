-- ===== src/Store/Migrations.antt =====
-- internal/storage/store/sqlite/migrations.go: the migrations run in their order, each in a
-- transaction that also records its version. The SQL of a migration is text that the database
-- runs: its effect is a parameter, and so is what fails.
pub mod Steps
pub mod Resuming
use novita_box.Common.{
  ℕ, ◌==◌, Bool, true, false, Option, none, some, List, [], ◌∷◌, ◌++◌, any, if◌then◌else◌, Result,
  ok, err, or_error, ◌>>=◌,
}

pub record Migration (Sql : Type 0) : Type 0 where
  pub version : ℕ
  pub sql : Sql

pub data MigrationError : Type 0 where
  create_failed : MigrationError
  query_failed begin_failed apply_failed record_failed commit_failed : ℕ → MigrationError

-- The database: the tables of the program, and schema_migrations where it exists.
pub record Schema (D : Type 0) : Type 0 where
  pub data_tables : D
  pub schema_migrations : Option (List ℕ)

-- Which calls of database/sql succeed in one run, by the version they are about.
pub record Outside : Type 0 where
  pub creates : Bool
  pub queries : ℕ → Bool
  pub begins : ℕ → Bool
  pub execs : ℕ → Bool
  pub records : ℕ → Bool
  pub commits : ℕ → Bool

abbrev pub is_recorded : ℕ → List ℕ → Bool
is_recorded v versions = any (λ w. w == v) versions

abbrev pub versions_of : Option (List ℕ) → List ℕ
versions_of none = []
versions_of (some versions) = versions

-- INSERT INTO schema_migrations, where the version is the primary key.
unfoldable pub insert_version : ℕ → Option (List ℕ) → Option (List ℕ)
insert_version v none = none
insert_version v (some versions) =
    if is_recorded v versions then none else some (versions ++ v ∷ [])

unfoldable pub found_version : ℕ → Option (List ℕ) → Result MigrationError Bool
found_version v none = err (query_failed v)
found_version v (some versions) = ok (is_recorded v versions)

abbrev pub allowed {ℓ} : {A : Type ℓ} → Bool → Option A → Option A
allowed succeeds result = if succeeds then result else none

-- An answer and the database behind it.
abbrev pub Answer : Type 0 → Type 0
Answer D = Result MigrationError Unit × Schema D

module _ {D : Type 0} where
  -- The deferred Rollback: without a commit the database is what it was.
  unfoldable pub or_rollback : Schema D → Result MigrationError (Schema D) → Answer D
  or_rollback s (err e) = (err e, s)
  or_rollback s (ok t) = (ok tt, t)

  unfoldable pub unless_applied : Schema D → Result MigrationError Bool → Answer D → Answer D
  unless_applied s (err e) applied = (err e, s)
  unless_applied s (ok true) applied = (ok tt, s)
  unless_applied s (ok false) applied = applied

  unfoldable pub and_then : Answer D → (Schema D → Answer D) → Answer D
  and_then (err e, s) next = (err e, s)
  and_then (ok done, s) next = next s

module _ {D Sql : Type 0} (exec : Sql → D → Option D) where
  unfoldable pub has_migration : Outside → Schema D → ℕ → Result MigrationError Bool
  has_migration o s v =
      if o.queries v then found_version v s.schema_migrations else err (query_failed v)

  -- The statements between BEGIN and COMMIT.
  unfoldable pub in_transaction :
      Outside → Schema D → Migration Sql → Result MigrationError (Schema D)
  in_transaction o s m = do
    changed ←
        or_error (apply_failed m.version) (allowed (o.execs m.version) (exec m.sql s.data_tables))
    versions ←
        or_error (record_failed m.version)
          (allowed (o.records m.version) (insert_version m.version s.schema_migrations))
    if o.commits m.version
        then ok (record { data_tables = changed; schema_migrations = some versions })
        else err (commit_failed m.version)

  unfoldable pub apply_migration : Outside → Schema D → Migration Sql → Answer D
  apply_migration o s m =
      if o.begins m.version
      then or_rollback s (in_transaction o s m)
      else (err (begin_failed m.version), s)

  unfoldable pub migrate_loop : Outside → List (Migration Sql) → Schema D → Answer D
  migrate_loop o [] s = (ok tt, s)
  migrate_loop o (m ∷ ms) s =
      and_then (unless_applied s (has_migration o s m.version) (apply_migration o s m))
        (λ t. migrate_loop o ms t)

  unfoldable pub migrate : Outside → List (Migration Sql) → Schema D → Answer D
  migrate o ms s =
      if o.creates
      then migrate_loop o ms
          (record s { schema_migrations = some (versions_of s.schema_migrations) })
      else (err create_failed, s)

  -- Open after open, each with its own failures.
  unfoldable pub migrate_all : List Outside → List (Migration Sql) → Schema D → Schema D
  migrate_all [] ms s = s
  migrate_all (o ∷ os) ms s = migrate_all os ms (migrate o ms s).1

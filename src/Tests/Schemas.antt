-- ===== src/Tests/Schemas.antt =====
-- A database that is opened four times, three of them in vain.
use novita_box.Common.{ℕ, ◌==◌, ◌≡◌, refl, not, false, Option, none, some, List, [], ◌∷◌, ◌++◌, ok}
use novita_box.Store.Migrations.{Migration, Outside, migrate, migrate_all}
use novita_box.Store.Migrations.Steps.{healthy, schema, versions}
use novita_box.Store.Migrations.Resuming.{migrate-completes}

-- The statements are numbers, and a database is those that it ran.
abbrev exec_number : ℕ → List ℕ → Option (List ℕ)
exec_number n ran = some (ran ++ n ∷ [])

abbrev five : List (Migration ℕ)
five =
    record { version = 1; sql = 10 }
    ∷ record { version = 2; sql = 20 }
    ∷ record { version = 3; sql = 30 }
    ∷ record { version = 4; sql = 40 }
    ∷ record { version = 5; sql = 50 }
    ∷ []

-- The third migration cannot be committed, then the table cannot be created, then the fifth
-- version cannot be recorded.
abbrev failing : List Outside
failing =
    record healthy { commits = λ v. not (v == 3) }
    ∷ record healthy { creates = false }
    ∷ record healthy { records = λ v. not (v == 5) }
    ∷ []

abbrev all_five : List ℕ
all_five = 10 ∷ 20 ∷ 30 ∷ 40 ∷ 50 ∷ []

migrate-completes_example :
    migrate exec_number healthy five
      (migrate_all exec_number failing five (record { data_tables = []; schema_migrations = none }))
    ≡ (ok tt, schema all_five (versions five))
migrate-completes_example =
    migrate-completes exec_number [] five (refl, (refl, (refl, (refl, (refl, tt))))) failing
      all_five refl

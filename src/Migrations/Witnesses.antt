-- ===== src/Migrations/Witnesses.antt =====
-- Tests of internal/database/migrations.go, and its theorem at an input that meets its hypotheses.
use archivon.Prelude.{
  ◌≡◌, refl, Bool, false, none, some, List, [], ◌∷◌, ◌++◌, Result, ok, err, String, All,
}
use archivon.Text.Trim.{Text, codes}
use archivon.Migrations.{
  Entry, MigrationFile, MigrationDb, checksum_mismatch, apply_migrations, rows_of,
  is_accepted_legacy_migration_checksum, schema_status,
}
use archivon.Migrations.Again.{Recorded, apply_migrations_again}

abbrev file : String → Text → Entry
file name raw = record { name = codes name; is_dir = false; raw = ok raw }

abbrev directory : Result String (List Entry)
directory = ok (
    file "0002_b.up.sql" (2 ∷ [])
    ∷ file "0001_a.down.sql" (9 ∷ [])
    ∷ file "0001_a.up.sql" (1 ∷ [])
    ∷ [])

-- The schema is the list of the texts that were run.
abbrev run_sql : Text → List Text → Result String (List Text)
run_sql sql done = ok (done ++ (sql ∷ []))

abbrev sum : Text → Text
sum t = t

-- The first of the two has been applied.
abbrev half : MigrationDb (List Text)
half = record {
  applied = some (
      record { version = codes "0001_a"; name = codes "0001_a.up.sql"; checksum = codes "01" }
      ∷ []);
  schema = (1 ∷ []) ∷ [];
}

abbrev fresh : MigrationDb (List Text)
fresh = record { applied = none; schema = [] }

-- The files run in the order of their names.
order_test : (apply_migrations run_sql sum directory fresh).1.schema ≡ (1 ∷ []) ∷ (2 ∷ []) ∷ []
unfolding apply_migrations
order_test = refl

-- A changed file stops the run, and nothing is applied.
changed_test :
    apply_migrations run_sql (λ t. 7 ∷ t) directory half
    ≡ (err (checksum_mismatch (codes "0001_a")), half)
unfolding apply_migrations
changed_test = refl

legacy_test :
    is_accepted_legacy_migration_checksum
      (codes "0001_phase1_foundation")
      (codes "e723c06265733c54543a956f265616d594c66cd06eaff288b3b5f835859646b5")
    ≡ Bool.true
unfolding is_accepted_legacy_migration_checksum
legacy_test = refl

status_test : schema_status (some fresh) ≡ "missing_or_error"
unfolding schema_status
status_test = refl

abbrev two_files : List MigrationFile
two_files =
    record {
      version = codes "0001_a";
      name = codes "0001_a.up.sql";
      sql = 1 ∷ [];
      checksum = codes "01";
    }
    ∷ record {
      version = codes "0002_b";
      name = codes "0002_b.up.sql";
      sql = 2 ∷ [];
      checksum = codes "02";
    }
    ∷ []

apply_migrations_again_example :
    All
      (Recorded (rows_of (List Text) (apply_migrations run_sql sum directory half).1.applied))
      two_files
    × (apply_migrations run_sql sum directory (apply_migrations run_sql sum directory half).1 ≡ (
      ok (record { latest_version = codes "0002_b"; applied_migrations = 2 }),
      (apply_migrations run_sql sum directory half).1,
    ))
unfolding apply_migrations
apply_migrations_again_example =
    apply_migrations_again run_sql sum directory two_files half
      (record { latest_version = codes "0002_b"; applied_migrations = 2 }) refl refl

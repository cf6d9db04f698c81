-- ===== src/Migrations.antt =====
-- internal/database/migrations.go: the migration files of a directory, and their application in one
-- transaction. The statements of a file act on the rest of the schema, which is a parameter.
pub mod Again
mod Witnesses
use archivon.Prelude.{
  ℕ, ◌+◌, Bool, true, false, not, ◌&&◌, ◌||◌, Option, none, some, List, [], ◌∷◌, ◌++◌, Result, ok,
  err, ◌>>=◌, if◌then◌else◌, find?, ltb, ◌==◌, reverse, String, length,
}
use archivon.Text.Trim.{Text, codes, text_eq, is_empty, trim_space, after_prefix}
use archivon.Compute.Hex.{encode_to_string}

-- migrationFile
pub record MigrationFile : Type 0 where
  pub version : Text
  pub name : Text
  pub sql : Text
  pub checksum : Text

-- What a call gives back when it fails.
pub data MigrationError : Type 0 where
  read_path : String → MigrationError
  read_file : String → MigrationError
  no_migrations : MigrationError
  checksum_mismatch : (version : Text) → MigrationError
  statement_failed : (name : Text) → String → MigrationError

-- os.DirEntry, with what ReadFile gives for it
pub record Entry : Type 0 where
  pub name : Text
  pub is_dir : Bool
  pub raw : Result String Text

-- A row of schema_migrations.
pub record AppliedRow : Type 0 where
  pub version : Text
  pub name : Text
  pub checksum : Text

pub record MigrationStatus : Type 0 where
  pub latest_version : Text
  pub applied_migrations : ℕ

-- strings.CutSuffix
unfoldable pub cut_suffix : (value suffix : Text) → Option Text
unfolding after_prefix
cut_suffix value suffix = elim (after_prefix (reverse suffix) (reverse value)) [
  | none ↦ none
  | some rest ↦ some (reverse rest)
]

abbrev pub suffix : Text
suffix = codes ".up.sql"

abbrev pub is_hidden : Text → Bool
is_hidden [] = false
is_hidden (c ∷ s) = c == b'.'

-- The version of a file that is a migration.
unfoldable pub migration_version : Entry → Option Text
unfolding cut_suffix trim_space
migration_version e =
    if e.is_dir || is_hidden e.name then none else elim (cut_suffix e.name suffix) [
      | none ↦ none
      | some version ↦ (if is_empty (trim_space version) then none else some version)
    ]

-- The order of strings: by bytes.
unfoldable pub text_ltb : Text → Text → Bool
text_ltb [] [] = false
text_ltb [] (b ∷ t) = true
text_ltb (a ∷ s) [] = false
text_ltb (a ∷ s) (b ∷ t) = ltb a b || (a == b && text_ltb s t)

unfoldable pub insert_file : MigrationFile → List MigrationFile → List MigrationFile
unfolding text_ltb
insert_file f [] = f ∷ []
insert_file f (g ∷ gs) =
    let rest = insert_file f gs in if text_ltb g.name f.name then g ∷ rest else f ∷ g ∷ gs

-- sort.Slice by name; names in a directory differ
unfoldable pub sort_files : List MigrationFile → List MigrationFile
unfolding insert_file
sort_files [] = []
sort_files (f ∷ fs) = insert_file f (sort_files fs)

-- acceptedLegacyMigrationChecksums
abbrev pub accepted_legacy_migration_checksums : List (Text × Text)
accepted_legacy_migration_checksums =
    (
      codes "0001_phase1_foundation",
      codes "e723c06265733c54543a956f265616d594c66cd06eaff288b3b5f835859646b5",
    )
    ∷ (
      codes "0004_phase1d_kms_key_management",
      codes "8d7b24da4fc93cd21e676deac5313da7bbce1b7a084af6c6a753059495e774ab",
    )
    ∷ (
      codes "0005_phase1e_encrypted_storage",
      codes "7c77f745ae37c029ba3482f913c66c334c979e997340795fddd78615c97cf1a7",
    )
    ∷ []

-- Membership in the table of a version and a checksum.
unfoldable pub accepted_in : List (Text × Text) → (version checksum : Text) → Bool
unfolding text_eq
accepted_in [] version checksum = false
accepted_in ((v, c) ∷ rest) version checksum =
    (text_eq v version && text_eq c checksum) || accepted_in rest version checksum

unfoldable pub is_accepted_legacy_migration_checksum : (version checksum : Text) → Bool
unfolding accepted_in
is_accepted_legacy_migration_checksum version checksum =
    accepted_in accepted_legacy_migration_checksums version checksum

-- The file of an entry; `none` for an entry that is not a migration.
unfoldable pub migration_file :
    (sha256 : Text → Text) → Entry → Result MigrationError (Option MigrationFile)
unfolding migration_version encode_to_string
migration_file sha256 e = elim (migration_version e) [
  | none ↦ ok none
  | some version ↦ elim e.raw [
    | err x ↦ err (read_file x)
    | ok raw ↦ ok (
        some (record {
          version = version;
          name = e.name;
          sql = raw;
          checksum = encode_to_string (sha256 raw);
        }))
  ]
]

abbrev pub with_file : Option MigrationFile → List MigrationFile → List MigrationFile
with_file none fs = fs
with_file (some f) fs = f ∷ fs

unfoldable pub read_files :
    (sha256 : Text → Text) → List Entry → Result MigrationError (List MigrationFile)
unfolding migration_file
read_files sha256 [] = ok []
read_files sha256 (e ∷ es) =
    let rest = read_files sha256 es in
    do file ← migration_file sha256 e; files ← rest; ok (with_file file files)

abbrev pub nonempty_files : List MigrationFile → Result MigrationError (List MigrationFile)
nonempty_files [] = err no_migrations
nonempty_files (f ∷ fs) = ok (f ∷ fs)

-- loadMigrationFiles of the entries that ReadDir gave
unfoldable pub load_migration_files :
    (sha256 : Text → Text) → Result String (List Entry) → Result MigrationError (List MigrationFile)
unfolding read_files sort_files
load_migration_files sha256 (err x) = err (read_path x)
load_migration_files sha256 (ok entries) = do
  files ← read_files sha256 entries
  nonempty_files (sort_files files)

module _ (Schema : Type 0) where
  -- schema_migrations, `none` before it is created, and everything else
  pub record MigrationDb : Type 0 where
    pub applied : Option (List AppliedRow)
    pub schema : Schema

  abbrev pub rows_of : Option (List AppliedRow) → List AppliedRow
  rows_of none = []
  rows_of (some rows) = rows

-- appliedMigration: the row of a version
abbrev pub of_version : Text → AppliedRow → Bool
of_version version r = text_eq r.version version

abbrev pub acceptable : MigrationFile → AppliedRow → Bool
acceptable f r =
    text_eq r.checksum f.checksum || is_accepted_legacy_migration_checksum f.version r.checksum

abbrev pub row_of : MigrationFile → AppliedRow
row_of f = record { version = f.version; name = f.name; checksum = f.checksum }

abbrev pub next_status : MigrationFile → MigrationStatus → MigrationStatus
next_status f status = record {
  latest_version = f.version;
  applied_migrations = status.applied_migrations + 1;
}

abbrev pub no_status : MigrationStatus
no_status = record { latest_version = []; applied_migrations = 0 }

-- `exec` runs the statements of a file.
module _ {Schema : Type 0} (exec : Text → Schema → Result String Schema) where
  -- One round of the loop of ApplyMigrations, on the rows of schema_migrations and the schema.
  unfoldable pub apply_file :
      MigrationFile → (List AppliedRow × Schema) → Result MigrationError (List AppliedRow × Schema)
  unfolding text_eq is_accepted_legacy_migration_checksum
  apply_file f (rows, schema) = elim (find? (of_version f.version) rows) [
    | some r ↦ (if acceptable f r then ok (rows, schema) else err (checksum_mismatch f.version))
    | none ↦ elim (exec f.sql schema) [
      | err x ↦ err (statement_failed f.name x)
      | ok changed ↦ ok (rows ++ (row_of f ∷ []), changed)
    ]
  ]

  unfoldable pub apply_files :
      List MigrationFile
      → MigrationStatus
      → (List AppliedRow × Schema)
      → Result MigrationError (MigrationStatus × (List AppliedRow × Schema))
  unfolding apply_file
  apply_files [] status state = ok (status, state)
  apply_files (f ∷ fs) status state = do
    next ← apply_file f state
    apply_files fs (next_status f status) next

  -- The transaction: its tables after Commit, or the ones before.
  abbrev pub committed :
      MigrationDb Schema
      → Result MigrationError (MigrationStatus × (List AppliedRow × Schema))
      → Result MigrationError MigrationStatus × MigrationDb Schema
  committed d (err e) = (err e, d)
  committed d (ok (status, (rows, schema))) =
      (ok status, record { applied = some rows; schema = schema })

  -- ApplyMigrations
  unfoldable pub apply_migrations :
      (sha256 : Text → Text)
      → Result String (List Entry)
      → MigrationDb Schema
      → Result MigrationError MigrationStatus × MigrationDb Schema
  unfolding load_migration_files apply_files
  apply_migrations sha256 entries d = elim (load_migration_files sha256 entries) [
    | err e ↦ (err e, d)
    | ok files ↦ committed d (apply_files files no_status (rows_of Schema d.applied, d.schema))
  ]

-- SchemaStatus; `none` is no database, and the count fails where the table is missing
unfoldable pub schema_status : {Schema : Type 0} → Option (MigrationDb Schema) → String
schema_status none = "not_configured"
schema_status (some d) = elim d.applied [
  | none ↦ "missing_or_error"
  | some [] ↦ "empty"
  | some (r ∷ rows) ↦ "ok"
]

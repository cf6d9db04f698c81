-- ===== src/Migrations/Again.antt =====
-- What a run of ApplyMigrations leaves behind, and a run after it.
use archivon.Prelude.{
  ◌≡◌, ◌⊎◌, inl, inr, refl, ap, sym, subst, ◌∙◌, Bool, true, none, some, List, [], ◌∷◌, ◌++◌,
  Result, ok, err, find?, arith, All, Bool-cases, Option-cases, Result-cases, String,
}
use archivon.Text.Trim.{Text, text_eq_refl}
use archivon.Migrations.{
  MigrationFile, AppliedRow, MigrationStatus, MigrationError, MigrationDb, Entry, apply_file,
  apply_files, apply_migrations, of_version, acceptable, row_of, next_status, no_status, rows_of,
  load_migration_files,
}

-- The table has a row for the file, and it is one that a run goes past.
pub record Recorded (rows : List AppliedRow) (f : MigrationFile) : Type 0 where
  pub row : AppliedRow
  pub found : find? (of_version f.version) rows ≡ some row
  pub accepted : acceptable f row ≡ true

find?-append_some :
    (p : AppliedRow → Bool) (xs ys : List AppliedRow) (r : AppliedRow)
    → find? p xs ≡ some r
    → find? p (xs ++ ys) ≡ some r
find?-append_some p [] ys r e = cc
find?-append_some p (x ∷ xs) ys r e = elim (Bool-cases (p x)) [
  | inl h ↦ ground (arith, h, e)
  | inr h ↦ ground (arith, h, find?-append_some p xs ys r (ground (arith, h, e)))
]

find?-append_none :
    (p : AppliedRow → Bool) (xs : List AppliedRow) (r : AppliedRow)
    → find? p xs ≡ none
    → p r ≡ true
    → find? p (xs ++ (r ∷ [])) ≡ some r
find?-append_none p [] r e h = rw (h) refl
find?-append_none p (x ∷ xs) r e h = elim (Bool-cases (p x)) [
  | inl k ↦ ground (arith, k, e)
  | inr k ↦ ground (arith, k, find?-append_none p xs r (ground (arith, k, e)) h)
]

-- The rows stay as they are, or the file's own row comes behind them.
module _ {Schema : Type 0} (exec : Text → Schema → Result String Schema) where
  apply_file_rows :
      (f : MigrationFile) (rows after : List AppliedRow) (s t : Schema)
      → apply_file exec f (rows, s) ≡ ok (after, t)
      → ((after ≡ rows) × Recorded rows f)
        ⊎ ((after ≡ rows ++ (row_of f ∷ [])) × (find? (of_version f.version) rows ≡ none))
  unfolding apply_file
  apply_file_rows f rows after s t e = elim (Option-cases (find? (of_version f.version) rows)) [
    | inr (r, h) ↦ elim (Bool-cases (acceptable f r)) [
      | inl k ↦ inl (ground (arith, h, k, e), record { row = r; found = h; accepted = k })
      | inr k ↦ absurd (ground (arith, h, k, e))
    ]
    | inl h ↦ elim (Result-cases (exec f.sql s)) [
      | inl (changed, k) ↦ inr (ground (arith, h, k, e), h)
      | inr (x, k) ↦ absurd (ground (arith, h, k, e))
    ]
  ]

  row_of-accepted : (f : MigrationFile) → acceptable f (row_of f) ≡ true
  row_of-accepted f = ground (arith, text_eq_refl f.checksum)

  -- A file that a round was for is recorded.
  apply_file-Recorded :
      (f : MigrationFile) (rows after : List AppliedRow) (s t : Schema)
      → apply_file exec f (rows, s) ≡ ok (after, t)
      → Recorded after f
  apply_file-Recorded f rows after s t e = elim (apply_file_rows f rows after s t e) [
    | inl (same, r) ↦ subst (λ xs. Recorded xs f) (sym same) r
    | inr (more, h) ↦
        subst (λ xs. Recorded xs f) (sym more)
          (record {
            row = row_of f;
            found =
                find?-append_none (of_version f.version) rows (row_of f) h (text_eq_refl f.version);
            accepted = row_of-accepted f;
          })
  ]

  -- What is recorded stays recorded.
  apply_file-keeps :
      (f g : MigrationFile) (rows after : List AppliedRow) (s t : Schema)
      → apply_file exec f (rows, s) ≡ ok (after, t)
      → Recorded rows g
      → Recorded after g
  apply_file-keeps f g rows after s t e r = elim (apply_file_rows f rows after s t e) [
    | inl (same, _) ↦ subst (λ xs. Recorded xs g) (sym same) r
    | inr (more, h) ↦
        subst (λ xs. Recorded xs g) (sym more)
          (record {
            row = r.row;
            found = find?-append_some (of_version g.version) rows (row_of f ∷ []) r.row r.found;
            accepted = r.accepted;
          })
  ]

  -- The status after all files.
  status_after : List MigrationFile → MigrationStatus → MigrationStatus
  status_after [] status = status
  status_after (f ∷ fs) status = status_after fs (next_status f status)

  -- A run of the loop that succeeds.
  record Ran (fs : List MigrationFile) (status : MigrationStatus) (rows : List AppliedRow)
      (r : MigrationStatus) (after : List AppliedRow) : Type 0 where
    counted : r ≡ status_after fs status
    recorded : All (Recorded after) fs
    kept : (g : MigrationFile) → Recorded rows g → Recorded after g

  rows_agree :
      (status r : MigrationStatus) (rows after : List AppliedRow) (s t : Schema)
      → Path
          (Result MigrationError (MigrationStatus × (List AppliedRow × Schema)))
          (ok (status, (rows, s)))
          (ok (r, (after, t)))
      → rows ≡ after
  rows_agree status r rows after s t e = cc

  apply_files-Ran :
      (fs : List MigrationFile) (status r : MigrationStatus) (rows after : List AppliedRow)
      (s t : Schema)
      → apply_files exec fs status (rows, s) ≡ ok (r, (after, t))
      → Ran fs status rows r after
  unfolding apply_files status_after
  apply_files-Ran [] status r rows after s t e = record {
    counted = cc;
    recorded = tt;
    kept = λ g h. subst (λ xs. Recorded xs g) (rows_agree status r rows after s t e) h;
  }
  apply_files-Ran (f ∷ fs) status r rows after s t e =
      elim (Result-cases (apply_file exec f (rows, s))) [
        | inr (x, h) ↦ absurd (ground (arith, h, e))
        | inl ((between, u), h) ↦
            let ran =
              apply_files-Ran fs (next_status f status) r between after u t
                (ground (arith, h, e)) in
            record {
              counted = ran.counted;
              recorded = (ran.kept f (apply_file-Recorded f rows between s u h), ran.recorded);
              kept = λ g k. ran.kept g (apply_file-keeps f g rows between s u h k);
            }
      ]

  -- A recorded file is gone past.
  apply_file-again :
      (f : MigrationFile) (rows : List AppliedRow) (s : Schema)
      → Recorded rows f
      → apply_file exec f (rows, s) ≡ ok (rows, s)
  unfolding apply_file
  apply_file-again f rows s r = rw (apply_file, r.found, r.accepted) refl

  apply_files-again :
      (fs : List MigrationFile) (status : MigrationStatus) (rows : List AppliedRow) (s : Schema)
      → All (Recorded rows) fs
      → apply_files exec fs status (rows, s) ≡ ok (status_after fs status, (rows, s))
  unfolding apply_files status_after
  apply_files-again [] status rows s h = refl
  apply_files-again (f ∷ fs) status rows s (h, hs) =
      rw (apply_file-again f rows s h) (apply_files-again fs (next_status f status) rows s hs)

  module _ (sha256 : Text → Text) (entries : Result String (List Entry))
      (files : List MigrationFile) where
    ran_db : List AppliedRow → Schema → MigrationDb Schema
    ran_db rows s = record { applied = some rows; schema = s }

    apply_migrations_lem :
        (d : MigrationDb Schema) (status : MigrationStatus) (rows : List AppliedRow) (s : Schema)
        → load_migration_files sha256 entries ≡ ok files
        → apply_files exec files no_status (rows_of Schema d.applied, d.schema)
          ≡ ok (status, (rows, s))
        → apply_migrations exec sha256 entries d ≡ (ok status, ran_db rows s)
    unfolding apply_migrations ran_db
    apply_migrations_lem d status rows s l h = rw (apply_migrations, l, h) refl

    apply_migrations_failed :
        (d : MigrationDb Schema) (x : MigrationError)
        → load_migration_files sha256 entries ≡ ok files
        → apply_files exec files no_status (rows_of Schema d.applied, d.schema) ≡ err x
        → apply_migrations exec sha256 entries d ≡ (err x, d)
    unfolding apply_migrations
    apply_migrations_failed d x l h = rw (apply_migrations, l, h) refl

    -- A second run.
    run_again :
        (status : MigrationStatus) (rows : List AppliedRow) (s : Schema) (d : MigrationDb Schema)
        → load_migration_files sha256 entries ≡ ok files
        → Ran files no_status (rows_of Schema d.applied) status rows
        → apply_migrations exec sha256 entries (ran_db rows s) ≡ (ok status, ran_db rows s)
    unfolding ran_db
    run_again status rows s d l ran =
        apply_migrations_lem (ran_db rows s) (status_after files no_status) rows s l
          (apply_files-again files no_status rows s ran.recorded)
        ∙ ap (λ (v : MigrationStatus). (ok v, ran_db rows s)) (sym ran.counted)

  -- After a run of ApplyMigrations that succeeds, the table has an accepted row for every file, and a
  -- second run over the same directory returns the same status and changes nothing: no statement runs
  -- twice.
  pub apply_migrations_again :
      (sha256 : Text → Text) (entries : Result String (List Entry)) (files : List MigrationFile)
      (d : MigrationDb Schema) (r : MigrationStatus)
      → load_migration_files sha256 entries ≡ ok files
      → (apply_migrations exec sha256 entries d).0 ≡ ok r
      → All (Recorded (rows_of Schema (apply_migrations exec sha256 entries d).1.applied)) files
        × (apply_migrations exec sha256 entries (apply_migrations exec sha256 entries d).1
            ≡ (ok r, (apply_migrations exec sha256 entries d).1))
  unfolding ran_db
  apply_migrations_again sha256 entries files d r l e =
      elim (Result-cases (apply_files exec files no_status (rows_of Schema d.applied, d.schema))) [
        | inr (x, h) ↦ absurd (
            failed x
              (ap (λ q. q.0) (sym (apply_migrations_failed sha256 entries files d x l h)) ∙ e))
        | inl ((status, (rows, s)), h) ↦
            let ran =
              apply_files-Ran files no_status status (rows_of Schema d.applied) rows d.schema s h in
            let run = apply_migrations_lem sha256 entries files d status rows s l h in
            (
              subst
                  (λ (q : Result MigrationError MigrationStatus × MigrationDb Schema).
                    All (Recorded (rows_of Schema q.1.applied)) files)
                  (sym run) ran.recorded,
              subst
                  (λ (q : Result MigrationError MigrationStatus × MigrationDb Schema).
                    apply_migrations exec sha256 entries q.1 ≡ (ok r, q.1))
                  (sym run)
                  (run_again sha256 entries files status rows s d l ran
                    ∙ ap (λ v. (v, ran_db sha256 entries files rows s))
                        (ap (λ q. q.0) (sym run) ∙ e)),
            )
      ]
    where
      failed :
          (x : MigrationError) → Path (Result MigrationError MigrationStatus) (err x) (ok r) → ⊥
      failed x f = cc

-- ===== src/Store/Tx.antt =====
-- Transactions. Code between BeginTx and Commit sees its own writes; an error return rolls them back
-- (the deferred tx.Rollback), and so does a return that does not commit.
use archivon.Prelude.{
  ℕ, ◌≡◌, refl, Bool, Option, none, some, ◌∷◌, ◌++◌, [], String, Result, ok, err,
}
use archivon.Store.Rows.{Db, AuditRow}

-- accessError, sql.ErrNoRows, a violated unique index, and any other error value by its text.
pub data Failure : Type 0 where
  access_error : (code : ℕ) → (key : String) → Failure
  no_rows unique_violation : Failure
  failure : String → Failure

-- What an operation gives back: a value or an error, and the tables after it.
abbrev pub Outcome : Type 0 → Type 0
Outcome A = Result Failure A × Db

-- The body of a transaction; the tables come back with the value.
abbrev pub Tx : Type 0 → Type 0
Tx A = Db → Result Failure (A × Db)

infixl 5 ◌>>=◌ ◌>>◌
abbrev pub ◌>>=◌ : {A B : Type 0} → Tx A → (A → Tx B) → Tx B
◌>>=◌ m f d = elim (m d) [ ok (a, d') ↦ f a d' | err e ↦ err e ]

abbrev pub ◌>>◌ : {A B : Type 0} → Tx A → Tx B → Tx B
m >> k = m >>= λ _. k

abbrev pub pure : {A : Type 0} → A → Tx A
pure a d = ok (a, d)

abbrev pub fail : {A : Type 0} → Failure → Tx A
fail e d = err e

abbrev pub gets : {A : Type 0} → (Db → A) → Tx A
gets f d = ok (f d, d)

abbrev pub modify : (Db → Db) → Tx (Unit {0})
modify f d = ok (tt, f d)

abbrev pub require : Bool → Failure → Tx (Unit {0})
require Bool.true e d = ok (tt, d)
require Bool.false e d = err e

abbrev pub or_fail : {A : Type 0} → Option A → Failure → Tx A
or_fail none e d = err e
or_fail (some a) e d = ok (a, d)

-- INSERT INTO audit_events
abbrev pub insert_audit : AuditRow → Tx (Unit {0})
insert_audit row = modify (λ d. record d { audit = d.audit ++ (row ∷ []) })

-- BeginTx, the body, Commit.
unfoldable pub transaction : {A : Type 0} → Tx A → Db → Outcome A
transaction body d = elim (body d) [ ok (a, d') ↦ (ok a, d') | err e ↦ (err e, d) ]

-- `return nil` before Commit: the deferred Rollback undoes the body.
unfoldable pub rolled_back : {A : Type 0} → Tx A → Db → Outcome A
rolled_back body d = elim (body d) [ ok (a, d') ↦ (ok a, d) | err e ↦ (err e, d) ]

-- A row read after the transaction has committed.
abbrev pub then_read : {A : Type 0} → Outcome (Unit {0}) → (Db → Option A) → Outcome A
then_read (err e, d) read = (err e, d)
then_read (ok u, d) read = elim (read d) [ some a ↦ (ok a, d) | none ↦ (err no_rows, d) ]

-- Reading a row changes no table.
pub then_read-db :
    {A : Type 0} (r : Outcome (Unit {0})) (read : Db → Option A) → (then_read r read).1 ≡ r.1
then_read-db {A} (err e, d) read = refl
then_read-db {A} (ok u, d) read = by_row (read d) refl
  where
    by_row : (o : Option A) → read d ≡ o → (then_read (ok u, d) read).1 ≡ d
    by_row none e = rw (e, then_read) refl
    by_row (some a) e = rw (e, then_read) refl

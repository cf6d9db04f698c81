-- ===== src/Access/Sessions/Outcomes.antt =====
-- Every way in which openSessionForCompletedJob ends, with the tables that decide between them.
use archivon.Prelude.{ℕ, ◌≡◌, count, ok}
use archivon.Store.Tx.{Outcome}
use archivon.Access.Env.{Env}
use archivon.Access.Queue.{runs, waits, live}
use archivon.Access.Queue.Exclusive.{Exclusive}

-- A session has opened, and nothing of the tenant runs or waits.
abbrev pub IsOpened : (tenant now : ℕ) → Outcome (Unit {0}) → Type 0
IsOpened tenant now o =
    (o.0 ≡ ok tt)
    × (count (live tenant now) o.1.sessions ≡ 1)
    × (count (runs tenant) o.1.jobs ≡ 0)
    × (count (waits tenant) o.1.jobs ≡ 0)

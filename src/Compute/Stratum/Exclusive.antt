-- ===== src/Compute/Stratum/Exclusive.antt =====
-- The gateway and internal/access together: a submitted share and the queue.
use archivon.Prelude.{ℕ, ◌≤◌, ◌≡◌, Bool, true, false, some, subst, sym, inl, inr}
use archivon.Text.Trim.{codes}
use archivon.Store.{Db, ShareRow}
use archivon.Access.Env.{Env}
use archivon.Access.Queue.Exclusive.{Exclusive, later-Exclusive}
use archivon.Access.Reconcile.{Oracle, reconcile}
use archivon.Access.Reconcile.Invariant.{InOrder, reconcile-Exclusive}
use archivon.Compute.Gateway.{share_row}
use archivon.Compute.Stratum.{GatewayEnv, Request, Session}
use archivon.Compute.Stratum.Submit.{submit_share}
use archivon.Compute.Stratum.Trust.{submit_share-Recorded, reconciled, with_share}

-- Service.Reconcile of internal/access, which the gateway calls and whose error it drops.
abbrev pub access_reconciler : Env → Oracle → ℕ → (ℕ → Db → Db)
access_reconciler access o last tenant d = (reconcile access o tenant last d).1

with_share-Exclusive :
    (env : GatewayEnv) (row : ShareRow) {tenant now : ℕ} {d : Db}
    → Exclusive tenant now d
    → Exclusive tenant now (with_share env row d)
with_share-Exclusive env row v = record {
  distinct = v.distinct;
  one_running = v.one_running;
  one_active = v.one_active;
  not_both = v.not_both;
}

module _ (env : GatewayEnv) (access : Env) (o : Oracle) (last : ℕ) where
  reconciled-Exclusive :
      (valid : Bool) (tenant : ℕ) (d : Db)
      → env.reconciler ≡ some (access_reconciler access o last)
      → o.clock 0 ≤ last
      → InOrder o last
      → Exclusive tenant (o.clock 0) d
      → Exclusive tenant last (reconciled env valid tenant d)
  reconciled-Exclusive false tenant d e le order v = later-Exclusive le v
  reconciled-Exclusive true tenant d e le order v =
      rw e (reconcile-Exclusive access o tenant last d order v)

  -- A share that is submitted keeps the queue of the connection's tenant exclusive, whether it is
  -- refused, recorded, or recorded and followed by the reconciliation of internal/access: one job at
  -- most runs, and none beside a live session.
  pub submit_share-Exclusive :
      (req : Request) (s : Session) (tenant worker : ℕ)
      → env.reconciler ≡ some (access_reconciler access o last)
      → o.clock 0 ≤ last
      → InOrder o last
      → s.conn.tenant ≡ some tenant
      → s.conn.worker ≡ some worker
      → Exclusive tenant (o.clock 0) s.gateway.db
      → Exclusive tenant last (submit_share env req s).1.gateway.db
  submit_share-Exclusive req s tenant worker r le order e f v =
      elim (submit_share-Recorded env req s tenant worker e f) [
        | inl same ↦ subst (Exclusive tenant last) (sym same) (later-Exclusive le v)
        | inr (h, (w, verdict, g, recorded, proof)) ↦ subst (Exclusive tenant last) (sym recorded) (
            reconciled-Exclusive verdict.valid tenant
              (with_share env
                (share_row tenant worker w verdict.hash_hex verdict.valid (codes verdict.reason)
                  env.now)
                s.gateway.db)
              r le order (with_share-Exclusive env _ v))
      ]

-- ===== src/Compute/Stratum/Trust.antt =====
-- What a connection must have shown before the gateway works for it.
use archivon.Prelude.{
  ℕ, ◌≡◌, refl, ap, ◌∙◌, sym, Bool, true, false, none, some, [], String, Result, subst, ◌∷◌, ◌++◌,
  ok, err, arith, inl, inr, ◌⊎◌, Bool-cases, Option-cases, Result-cases,
}
use archivon.Text.Trim.{Text, codes, is_empty}
use archivon.Compute.Version.{effective_version_hex}
use archivon.Store.{Db, ShareRow}
use archivon.Compute.Share.{Work, Verdict, refused, verify_share}
use archivon.Compute.Gateway.{share_row, insert_share, running_job}
use archivon.Compute.Stratum.{
  GatewayEnv, StratumError, Request, Session, Message, send, stratum_error, param_string,
}
use archivon.Compute.Stratum.Submit.{
  record_share, touch, reconcile_valid, close_when_over, settle_share, submit_version,
  refuse_version, submit_for, submit_share, judge_submission, is_current, check_worker,
}

module _ (env : GatewayEnv) where
  send-conn : (m : Message) (s : Session) → (send env m s).1.conn ≡ s.conn
  unfolding send
  send-conn m s = ground arith

  send-gateway : (m : Message) (s : Session) → (send env m s).1.gateway ≡ s.gateway
  unfolding send
  send-gateway m s = ground arith

  abbrev refusal : Request → Message
  refusal req = stratum_error req.id 24 "worker is not authorized for active work"

  submit_share-refused :
      (req : Request) (s : Session)
      → (s.conn.authorized ≡ false) ⊎ (s.conn.current_work ≡ none)
      → submit_share env req s ≡ send env (refusal req) s
  unfolding submit_share
  submit_share-refused req s (inl h) = elim (Option-cases s.conn.current_work) [
    | inl e ↦ ground (arith, e, h)
    | inr (w, e) ↦ ground (arith, e, h)
  ]
  submit_share-refused req s (inr e) = ground (arith, e)

  -- A connection that is not authorized, or has no work, leaves the tables, the worker connections and
  -- its own state as they are when it submits a share.
  pub submit_share-untrusted :
      (req : Request) (s : Session)
      → (s.conn.authorized ≡ false) ⊎ (s.conn.current_work ≡ none)
      → ((submit_share env req s).1.gateway ≡ s.gateway)
        × ((submit_share env req s).1.conn ≡ s.conn)
  submit_share-untrusted req s h =
      let e = submit_share-refused req s h in
      (
        ap (λ r. r.1.gateway) e ∙ send-gateway (refusal req) s,
        ap (λ r. r.1.conn) e ∙ send-conn (refusal req) s,
      )

  -- The tables once a share is recorded, and after the reconciliation of a valid one.
  abbrev pub with_share : ShareRow → Db → Db
  with_share row d = record d { shares = d.shares ++ (row ∷ []) }

  abbrev pub reconciled : Bool → ℕ → Db → Db
  reconciled false tenant d = d
  reconciled true tenant d = elim env.reconciler [ none ↦ d | some r ↦ r tenant d ]

  record_share-db :
      (w : Work) (hash : Text) (valid : Bool) (reason : String) (s : Session) (tenant worker : ℕ)
      → s.conn.tenant ≡ some tenant
      → s.conn.worker ≡ some worker
      → record_share env w hash valid reason s ≡ (
        ok tt,
        record s {
          gateway = record s.gateway {
            db =
                with_share
                  (share_row tenant worker w hash valid (codes reason) env.now)
                  s.gateway.db;
          };
        },
      )
  unfolding record_share insert_share
  record_share-db w hash valid reason s tenant worker e f = rw (e, f) refl

  settle_share-db :
      (req : Request) (w : Work) (v : Verdict) (s : Session) (tenant worker : ℕ)
      → s.conn.tenant ≡ some tenant
      → s.conn.worker ≡ some worker
      → (settle_share env req w v s).1.gateway.db
        ≡ reconciled v.valid tenant (
            with_share
              (share_row tenant worker w v.hash_hex v.valid (codes v.reason) env.now)
              s.gateway.db)
  unfolding settle_share record_share insert_share reconcile_valid touch close_when_over send
  settle_share-db req w v s tenant worker e f = ground (arith, e, f)

  -- The share answers the work of the running job, by verifyShare for some version.
  abbrev pub IsProof : Session → Request → Work → Type 0
  IsProof s req w =
      (version : Text) × (is_current (running_job s.gateway.db) w ≡ true)
      × ((verify_share env.sha256 w (param_string req.params 1) (param_string req.params 2)
            (param_string req.params 3) (param_string req.params 4) version).valid
          ≡ true)

  -- What submitting does to the tables: nothing; or one share, recorded for a connection that has
  -- work, and after a valid one the reconciliation.
  abbrev pub Recorded : Session → Request → (tenant worker : ℕ) → Db → Type 0
  Recorded s req tenant worker d =
      (w : Work) × (v : Verdict) × (s.conn.current_work ≡ some w)
      × (d
          ≡ reconciled v.valid tenant (
              with_share (share_row tenant worker w v.hash_hex v.valid (codes v.reason) env.now)
                s.gateway.db))
      × (v.valid ≡ true → IsProof s req w)

  check_worker-valid :
      (worker own : Text) (v : Verdict) → (check_worker worker own v).valid ≡ true → v.valid ≡ true
  unfolding check_worker
  check_worker-valid worker own v h = ground (arith, h)

  submit_version-settled :
      (req : Request) (w : Work) (version : Text) (s : Session)
      → is_current (running_job s.gateway.db) w ≡ true
      → submit_version env req w version s
        ≡ settle_share env req w (judge_submission env req w version s) s
  unfolding submit_version
  submit_version-settled req w version s c = rw c refl

  submit_version-db :
      (req : Request) (w : Work) (version : Text) (s : Session) (tenant worker : ℕ)
      → s.conn.current_work ≡ some w
      → s.conn.tenant ≡ some tenant
      → s.conn.worker ≡ some worker
      → ((submit_version env req w version s).1.gateway.db ≡ s.gateway.db)
        ⊎ Recorded s req tenant worker (submit_version env req w version s).1.gateway.db
  unfolding submit_version send judge_submission
  submit_version-db req w version s tenant worker g e f =
      elim (Bool-cases (is_current (running_job s.gateway.db) w)) [
        | inl c ↦ inr (
          w,
          judge_submission env req w version s,
          g,
          ap (λ r. r.1.gateway.db) (submit_version-settled req w version s c)
              ∙ settle_share-db req w (judge_submission env req w version s) s tenant worker e f,
          λ v. (version, c, check_worker-valid (param_string req.params 0) s.conn.worker_name _ v),
        )
        | inr c ↦ inl (ground (arith, c))
      ]

  refuse_version-db :
      (req : Request) (w : Work) (reason : String) (s : Session) (tenant worker : ℕ)
      → s.conn.tenant ≡ some tenant
      → s.conn.worker ≡ some worker
      → (refuse_version env req w reason s).1.gateway.db
        ≡ with_share (share_row tenant worker w [] false (codes reason) env.now) s.gateway.db
  unfolding refuse_version record_share insert_share touch send
  refuse_version-db req w reason s tenant worker e f = ground (arith, e, f)

  abbrev rolled : Request → Work → Session → Result String Text
  rolled req w s =
      effective_version_hex w.version (param_string req.params 5) s.conn.version_mask
        s.conn.version_rolling

  submit_for-plain :
      (req : Request) (w : Work) (s : Session)
      → is_empty (param_string req.params 5) ≡ true
      → submit_for env req w s ≡ submit_version env req w w.version s
  unfolding submit_for
  submit_for-plain req w s b = rw b refl

  submit_for-rolled :
      (req : Request) (w : Work) (s : Session) (version : Text)
      → is_empty (param_string req.params 5) ≡ false
      → rolled req w s ≡ ok version
      → submit_for env req w s ≡ submit_version env req w version s
  unfolding submit_for
  submit_for-rolled req w s version b k = rw (b, k) refl

  submit_for-refused :
      (req : Request) (w : Work) (s : Session) (reason : String)
      → is_empty (param_string req.params 5) ≡ false
      → rolled req w s ≡ err reason
      → submit_for env req w s ≡ refuse_version env req w reason s
  unfolding submit_for
  submit_for-refused req w s reason b k = rw (b, k) refl

  -- Runs that end alike leave the tables alike.
  moved :
      (req : Request) (s : Session) (tenant worker : ℕ)
      {r r' : Result StratumError (Unit {0}) × Session}
      → r ≡ r'
      → (r'.1.gateway.db ≡ s.gateway.db) ⊎ Recorded s req tenant worker r'.1.gateway.db
      → (r.1.gateway.db ≡ s.gateway.db) ⊎ Recorded s req tenant worker r.1.gateway.db
  moved req s tenant worker e h =
      subst (λ q. (q.1.gateway.db ≡ s.gateway.db) ⊎ Recorded s req tenant worker q.1.gateway.db)
        (sym e) h

  submit_for-db :
      (req : Request) (w : Work) (s : Session) (tenant worker : ℕ)
      → s.conn.current_work ≡ some w
      → s.conn.tenant ≡ some tenant
      → s.conn.worker ≡ some worker
      → ((submit_for env req w s).1.gateway.db ≡ s.gateway.db)
        ⊎ Recorded s req tenant worker (submit_for env req w s).1.gateway.db
  submit_for-db req w s tenant worker g e f =
      elim (Bool-cases (is_empty (param_string req.params 5))) [
        | inl b ↦
            moved req s tenant worker (submit_for-plain req w s b)
              (submit_version-db req w w.version s tenant worker g e f)
        | inr b ↦ elim (Result-cases (rolled req w s)) [
          | inl (version, k) ↦
              moved req s tenant worker (submit_for-rolled req w s version b k)
                (submit_version-db req w version s tenant worker g e f)
          | inr (reason, k) ↦ inr (
            w,
            refused [] reason,
            g,
            ap (λ r. r.1.gateway.db) (submit_for-refused req w s reason b k)
                ∙ refuse_version-db req w reason s tenant worker e f,
            λ v. ground (arith, v),
          )
        ]
      ]

  submit_share-authorized :
      (req : Request) (s : Session) (w : Work)
      → s.conn.authorized ≡ true
      → s.conn.current_work ≡ some w
      → submit_share env req s ≡ submit_for env req w s
  unfolding submit_share
  submit_share-authorized req s w h e = ground (arith, e, h)

  -- Submitting a share changes the tables only for an authorized connection with work: it adds one
  -- share, which is valid only where verifyShare accepts what was submitted against the work of the
  -- job that runs, and reconciles after a valid one. The connection has a tenant and a worker.
  pub submit_share-Recorded :
      (req : Request) (s : Session) (tenant worker : ℕ)
      → s.conn.tenant ≡ some tenant
      → s.conn.worker ≡ some worker
      → ((submit_share env req s).1.gateway.db ≡ s.gateway.db)
        ⊎ ((s.conn.authorized ≡ true)
            × Recorded s req tenant worker (submit_share env req s).1.gateway.db)
  submit_share-Recorded req s tenant worker e f = elim (Bool-cases s.conn.authorized) [
    | inr h ↦ inl (ap (λ g. g.db) (submit_share-untrusted req s (inl h)).0)
    | inl h ↦ elim (Option-cases s.conn.current_work) [
      | inl g ↦ inl (ap (λ g. g.db) (submit_share-untrusted req s (inr g)).0)
      | inr (w, g) ↦
          elim (moved req s tenant worker (submit_share-authorized req s w h g)
            (submit_for-db req w s tenant worker g e f)) [ inl u ↦ inl u | inr r ↦ inr (h, r) ]
    ]
  ]

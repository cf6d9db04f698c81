-- ===== src/Access/Sessions/Closing.antt =====
-- What the two ways to close a session do to the queue.
use archivon.Prelude.{
  ℕ, ◌<◌, ◌≡◌, Bool, true, false, none, some, List, [], ◌∷◌, ◌++◌, ◌==◌, count, find?, ok, err,
  arith, Bool-cases, ==_iff, inl, inr, ◌⊎◌,
}
use archivon.Text.Trim.{Text}
use archivon.Text.Uuid.{is_uuid_like}
use archivon.Store.{
  Db, SessionRow, AuditRow, SessionStatus, CloseReason, client_closed, admin_closed, session_closed,
  session_admin_closed, info, warning,
}
use archivon.Store.Table.{
  update_where, count-update_where_mono, count-update_where_drop, count_mono,
}
use archivon.Store.Tx.{access_error, transaction, then_read-db}
use archivon.Access.Env.{Env, User}
use archivon.Access.Queue.{runs, waits, holds, live, close_with, can_start_job, promote_next_queued}
use archivon.Access.Queue.Exclusive.{Exclusive, live-le-holds, promote_next_queued-Exclusive}
use archivon.Access.Queue.Order.{promote_serves}
use archivon.Access.Sessions.{
  closable, closable_as_admin, close_session_tx, close_session, close_session_as_admin_tx,
  close_session_as_admin, session_key,
}

-- The tables with the sessions of a test closed and one audit row more.
abbrev pub close_rows :
    (now : ℕ) (p : SessionRow → Bool) (reason : CloseReason) (row : AuditRow) → Db → Db
close_rows now p reason row d = record d {
  sessions = update_where p (close_with now SessionStatus.closed reason) d.sessions;
  audit = d.audit ++ (row ∷ []);
}

module _ (tenant now : ℕ) (p : SessionRow → Bool) (reason : CloseReason) (row : AuditRow)
    (d : Db) where
  act : SessionRow → SessionRow
  act = close_with now SessionStatus.closed reason

  closed-Exclusive : Exclusive tenant now d → Exclusive tenant now (close_rows now p reason row d)
  unfolding act
  closed-Exclusive v = record {
    distinct = v.distinct;
    one_running = v.one_running;
    one_active = omega (
      arith,
      v.one_active,
      count-update_where_mono (holds tenant) p act (λ s e k. ground arith) d.sessions,
    );
    not_both = elim v.not_both [
      | inl e ↦ inl (
          omega (
            arith,
            e,
            count-update_where_mono (live tenant now) p act (λ s e k. ground arith) d.sessions,
          ))
      | inr e ↦ inr e
    ];
  }

  promote-sessions :
      (promote_next_queued tenant now (close_rows now p reason row d)).sessions
      ≡ (close_rows now p reason row d).sessions
  unfolding promote_next_queued
  promote-sessions = ground arith

  -- Where the closed row was the tenant's live one, the queue moves on.
  closed_hands_over :
      Exclusive tenant now d
      → ((s : SessionRow) → p s ≡ true → holds tenant s ≡ true)
      → 0 < count p d.sessions
      → 0 < count (live tenant now) d.sessions
      → let after = promote_next_queued tenant now (close_rows now p reason row d) in
        (count (live tenant now) after.sessions ≡ 0)
        × ((count (waits tenant) d.jobs ≡ 0) ⊎ (0 < count (runs tenant) after.jobs))
  unfolding act can_start_job
  closed_hands_over v mine found held =
      let dropped =
        count-update_where_drop (holds tenant) p act mine (λ s e. ground arith) d.sessions in
      let below = live-le-holds tenant now (update_where p act d.sessions) in
      let quiet : count (live tenant now) (update_where p act d.sessions) ≡ 0 =
        omega (arith, v.one_active, dropped, below, found) in
      let idle : count (runs tenant) d.jobs ≡ 0 = omega (arith, v.not_both, held) in
      (
        rw promote-sessions quiet,
        elim (Bool-cases (count (waits tenant) d.jobs == 0)) [
          | inl idle_queue ↦ inl ((==_iff (count (waits tenant) d.jobs) 0).0 idle_queue)
          | inr waiting ↦ inr (
              promote_serves tenant now (close_rows now p reason row d)
                (ground (arith, quiet, idle)) (ground (arith, waiting)))
        ],
      )

find_count :
    {A : Type 0} (p : A → Bool) (xs : List A) (a : A) → find? p xs ≡ some a → 0 < count p xs
find_count p [] a e = absurd (cc)
find_count p (x ∷ xs) a e = ground (arith, find_count p xs a)

-- The audit rows of the two ways.
abbrev pub client_row : User → (id : ℕ) (ip : Text) → AuditRow
client_row user id ip = record {
  tenant = user.tenant;
  actor = some user.id;
  event = session_closed client_closed;
  target = some id;
  severity = info;
  ip_address = ip;
}

abbrev pub admin_row : User → (id : ℕ) (ip : Text) → SessionRow → AuditRow
admin_row user id ip s = record {
  tenant = user.tenant;
  actor = some user.id;
  event = session_admin_closed s.user s.folder;
  target = some id;
  severity = warning;
  ip_address = ip;
}

abbrev pub after_close : User → (id now : ℕ) (ip : Text) → Db → Db
after_close user id now ip d =
    promote_next_queued user.tenant now
      (close_rows now (closable user id) client_closed (client_row user id ip) d)

abbrev pub after_admin_close : User → (id now : ℕ) (ip : Text) → SessionRow → Db → Db
after_admin_close user id now ip s d =
    promote_next_queued user.tenant now
      (close_rows now (closable_as_admin user id now) admin_closed (admin_row user id ip s) d)

close_found :
    (user : User) (id now : ℕ) (ip : Text) (d : Db)
    → 0 < count (closable user id) d.sessions
    → close_session_tx user id now ip d ≡ ok (tt, after_close user id now ip d)
unfolding close_session_tx
close_found user id now ip d h = ground arith

-- A session that is not the caller's, or is not active, is an error 404, and nothing changes.
pub close_session_missing :
    (env : Env) (user : User) (text : Text) (now : ℕ) (ip : Text) (d : Db)
    → (is_uuid_like text ≡ false) ⊎ (count (closable user (env.to_uuid text)) d.sessions ≡ 0)
    → close_session env user text now ip d ≡ (err (access_error 404 "session_not_found"), d)
unfolding close_session close_session_tx
close_session_missing env user text now ip d h = ground arith

close_session_found :
    (env : Env) (user : User) (text : Text) (now : ℕ) (ip : Text) (d : Db)
    → is_uuid_like text ≡ true
    → 0 < count (closable user (env.to_uuid text)) d.sessions
    → (close_session env user text now ip d).1 ≡ after_close user (env.to_uuid text) now ip d
unfolding close_session
close_session_found env user text now ip d e h = ground (
  arith,
  close_found user (env.to_uuid text) now ip d h,
  then_read-db (transaction (close_session_tx user (env.to_uuid text) now ip) d)
      (λ f. find? (session_key user.tenant (env.to_uuid text)) f.sessions),
)

-- Closing keeps the queue exclusive, whether it succeeds or not.
pub close_session-Exclusive :
    (env : Env) (user : User) (text : Text) (now : ℕ) (ip : Text) (d : Db)
    → Exclusive user.tenant now d
    → Exclusive user.tenant now (close_session env user text now ip d).1
close_session-Exclusive env user text now ip d v = elim (Bool-cases (is_uuid_like text)) [
  | inr e ↦ rw (close_session_missing env user text now ip d (inl e)) v
  | inl e ↦ elim (Bool-cases (count (closable user (env.to_uuid text)) d.sessions == 0)) [
    | inl none_left ↦
        rw (close_session_missing env user text now ip d (inr (ground (arith, none_left)))) v
    | inr found ↦ rw (close_session_found env user text now ip d e (ground (arith, found))) (
        promote_next_queued-Exclusive (
          closed-Exclusive user.tenant now (closable user (env.to_uuid text)) client_closed
            (client_row user (env.to_uuid text) ip) d v))
  ]
]

-- Closing the tenant's live session hands over to the queue: no session is live afterwards, and where
-- a job waits, one runs.
pub close_session_hands_over :
    (env : Env) (user : User) (text : Text) (now : ℕ) (ip : Text) (d : Db)
    → Exclusive user.tenant now d
    → is_uuid_like text ≡ true
    → 0 < count (closable user (env.to_uuid text)) d.sessions
    → 0 < count (live user.tenant now) d.sessions
    → let after = (close_session env user text now ip d).1 in
      (count (live user.tenant now) after.sessions ≡ 0)
      × ((count (waits user.tenant) d.jobs ≡ 0) ⊎ (0 < count (runs user.tenant) after.jobs))
close_session_hands_over env user text now ip d v e found held =
    rw (close_session_found env user text now ip d e found) (
      closed_hands_over user.tenant now (closable user (env.to_uuid text)) client_closed
        (client_row user (env.to_uuid text) ip) d v (λ s k. ground arith) found held)

admin_close_found :
    (user : User) (id now : ℕ) (ip : Text) (d : Db) (s : SessionRow)
    → find? (closable_as_admin user id now) d.sessions ≡ some s
    → close_session_as_admin_tx user id now ip d ≡ ok (tt, after_admin_close user id now ip s d)
unfolding close_session_as_admin_tx
admin_close_found user id now ip d s e = ground arith

-- A session of another tenant, a closed one and one that has run out are an error 404.
pub close_session_as_admin_missing :
    (env : Env) (user : User) (text : Text) (now : ℕ) (ip : Text) (d : Db)
    → (is_uuid_like text ≡ false)
      ⊎ (find? (closable_as_admin user (env.to_uuid text) now) d.sessions ≡ none)
    → close_session_as_admin env user text now ip d
      ≡ (err (access_error 404 "session_not_found"), d)
unfolding close_session_as_admin close_session_as_admin_tx
close_session_as_admin_missing env user text now ip d h = ground arith

admin_close_session_found :
    (env : Env) (user : User) (text : Text) (now : ℕ) (ip : Text) (d : Db) (s : SessionRow)
    → is_uuid_like text ≡ true
    → find? (closable_as_admin user (env.to_uuid text) now) d.sessions ≡ some s
    → (close_session_as_admin env user text now ip d).1
      ≡ after_admin_close user (env.to_uuid text) now ip s d
unfolding close_session_as_admin
admin_close_session_found env user text now ip d s e h = ground (
  arith,
  admin_close_found user (env.to_uuid text) now ip d s h,
  then_read-db (transaction (close_session_as_admin_tx user (env.to_uuid text) now ip) d)
      (λ f. find? (session_key user.tenant (env.to_uuid text)) f.sessions),
)

-- An administrator's close keeps the queue exclusive, and where it finds a live session of the tenant
-- none is live afterwards and a waiting job is started.
pub close_session_as_admin_hands_over :
    (env : Env) (user : User) (text : Text) (now : ℕ) (ip : Text) (d : Db) (s : SessionRow)
    → Exclusive user.tenant now d
    → is_uuid_like text ≡ true
    → find? (closable_as_admin user (env.to_uuid text) now) d.sessions ≡ some s
    → let after = (close_session_as_admin env user text now ip d).1 in
      Exclusive user.tenant now after
      × (count (live user.tenant now) after.sessions ≡ 0)
      × ((count (waits user.tenant) d.jobs ≡ 0) ⊎ (0 < count (runs user.tenant) after.jobs))
close_session_as_admin_hands_over env user text now ip d s v e found =
    rw (admin_close_session_found env user text now ip d s e found) (
      promote_next_queued-Exclusive (
          closed-Exclusive user.tenant now p admin_closed (admin_row user (env.to_uuid text) ip s) d
            v),
      moved.0,
      moved.1,
    )
  where
    p : SessionRow → Bool
    p = closable_as_admin user (env.to_uuid text) now

    moved :
        let after = after_admin_close user (env.to_uuid text) now ip s d in
        (count (live user.tenant now) after.sessions ≡ 0)
        × ((count (waits user.tenant) d.jobs ≡ 0) ⊎ (0 < count (runs user.tenant) after.jobs))
    moved =
        closed_hands_over user.tenant now p admin_closed (admin_row user (env.to_uuid text) ip s) d
          v (λ s k. ground arith) (find_count p d.sessions s found)
          (omega (
            arith,
            find_count p d.sessions s found,
            count_mono p (live user.tenant now) (λ s k. ground arith) d.sessions,
          ))

-- ===== src/Auth/Login/Single.antt =====
-- A client has one login at a time.
use archivon.Prelude.{
  ℕ, ◌+◌, ◌≤◌, ◌≡◌, refl, ap, ◌∙◌, sym, Bool, true, false, none, some, List, [], ◌∷◌, ◌++◌, ok, err,
  arith, count, any, Option-cases, Result-cases, inl, inr, count-append, Result,
}
use archivon.Text.Trim.{Text, text_eq}
use archivon.Store.{Db, UserRow, UserSession, hours, warning, previous_session_revoked}
use archivon.Store.Table.{update_where, count-update_where_drop, count_split}
use archivon.Store.Tx.{transaction, Failure, ◌>>=◌}
use archivon.Auth.Env.{AuthEnv, current_auth_session_ttl}
use archivon.Auth.Roles.{is_client}
use archivon.Auth.Login.{
  held_by, run_out, in_use, expire_logins, revoke_logins, latest, replace_logins, insert_login,
  login_tx, open_login, new_login, collides, login, find_login_user, user_audit,
}

latest-none : (p : UserSession → Bool) (ss : List UserSession) → latest p ss ≡ none → count p ss ≡ 0
unfolding latest
latest-none p [] h = refl
latest-none p (s ∷ ss) h = ground (arith, h, latest-none p ss)

-- Every active login is live or has run out.
held_split :
    (u : UserRow) (now : ℕ) (ss : List UserSession)
    → count (held_by u) ss ≤ count (in_use u now) ss + count (run_out u now) ss
held_split u now ss =
    count_split (held_by u) (in_use u now) (run_out u now) (λ s h k. ground (arith, h, k)) ss

held-expire_logins :
    (u : UserRow) (now : ℕ) (ss : List UserSession)
    → count (held_by u) (expire_logins u now ss) ≡ count (in_use u now) (expire_logins u now ss)
unfolding expire_logins update_where
held-expire_logins u now [] = refl
held-expire_logins u now (s ∷ ss) = ground (arith, held-expire_logins u now ss)

held-revoke_logins :
    (u : UserRow) (now : ℕ) (ss : List UserSession)
    → count (held_by u) (revoke_logins u now ss) + count (in_use u now) ss ≡ count (held_by u) ss
unfolding revoke_logins
held-revoke_logins u now =
    count-update_where_drop (held_by u) (in_use u now) _ (λ s h. ground (arith, h))
      (λ s h. ground (arith, h))

-- The sessions after a client's earlier logins are ended.
abbrev pub cleared : UserRow → ℕ → List UserSession → List UserSession
cleared u now ss = revoke_logins u now (expire_logins u now ss)

held-cleared :
    (u : UserRow) (now : ℕ) (ss : List UserSession) → count (held_by u) (cleared u now ss) ≡ 0
held-cleared u now ss =
    omega (arith, held-revoke_logins u now (expire_logins u now ss), held-expire_logins u now ss)

-- A test that a change leaves alone is met by as many rows.
any-update_where_keep :
    (q p : UserSession → Bool) (f : UserSession → UserSession)
    → ((s : UserSession) → q (f s) ≡ q s)
    → (ss : List UserSession) → any q (update_where p f ss) ≡ any q ss
unfolding update_where
any-update_where_keep q p f h [] = refl
any-update_where_keep q p f h (s ∷ ss) = ground (arith, h s, any-update_where_keep q p f h ss)

abbrev pub has_token : Text → UserSession → Bool
has_token token s = text_eq s.token_hash token

has_token-expire_logins :
    (token : Text) (u : UserRow) (now : ℕ) (ss : List UserSession)
    → any (has_token token) (expire_logins u now ss) ≡ any (has_token token) ss
unfolding expire_logins
has_token-expire_logins token u now ss =
    any-update_where_keep (has_token token) (run_out u now) _ (λ s. refl) ss

has_token-cleared :
    (token : Text) (u : UserRow) (now : ℕ) (ss : List UserSession)
    → any (has_token token) (cleared u now ss) ≡ any (has_token token) ss
unfolding revoke_logins
has_token-cleared token u now ss =
    any-update_where_keep (has_token token) (in_use u now) _ (λ s. refl) (expire_logins u now ss)
    ∙ has_token-expire_logins token u now ss

-- With a new token and no active login of the user, no unique index is in the way.
no_collision :
    (u : UserRow) (id : ℕ) (token ip : Text) (now expires : ℕ) (ss : List UserSession)
    → any (has_token token) ss ≡ false
    → count (held_by u) ss ≡ 0
    → any (collides (new_login u id token ip now expires)) ss ≡ false
no_collision u id token ip now expires [] h k = refl
no_collision u id token ip now expires (s ∷ ss) h k =
    ground (arith, h, k, no_collision u id token ip now expires ss)

held-new_login :
    (u : UserRow) (id : ℕ) (token ip : Text) (now expires : ℕ) (ss : List UserSession)
    → count (held_by u) ss ≡ 0
    → count (held_by u) (ss ++ (new_login u id token ip now expires ∷ [])) ≡ 1
held-new_login u id token ip now expires ss h =
    ground (arith, h, count-append (held_by u) ss (new_login u id token ip now expires ∷ []))

module _ (u : UserRow) (id : ℕ) (token ip : Text) (now expires : ℕ) (d : Db) where
  abbrev login_row : UserSession
  login_row = new_login u id token ip now expires

  -- The sessions after a transaction.
  abbrev sessions_of : Result Failure (Unit {0} × Db) → List UserSession
  sessions_of (ok (v, e)) = e.user_sessions
  sessions_of (err e) = []

  insert_login-free :
      (e : Db)
      → any (collides login_row) e.user_sessions ≡ false
      → insert_login login_row e
        ≡ ok (tt, record e { user_sessions = e.user_sessions ++ (login_row ∷ []) })
  unfolding insert_login
  insert_login-free e h = rw h refl

  login_tx_first :
      any (has_token token) d.user_sessions ≡ false
      → latest (in_use u now) (expire_logins u now d.user_sessions) ≡ none
      → sessions_of (login_tx u login_row ip now d)
        ≡ expire_logins u now d.user_sessions ++ (login_row ∷ [])
  unfolding login_tx replace_logins
  login_tx_first h e =
      rw
        (
          e,
          ◌>>=◌,
          insert_login-free (record d { user_sessions = expire_logins u now d.user_sessions })
              (no_collision u id token ip now expires (expire_logins u now d.user_sessions)
                (has_token-expire_logins token u now d.user_sessions ∙ h) (none_held e)),
        )
        refl
    where
      none_held :
          latest (in_use u now) (expire_logins u now d.user_sessions) ≡ none
          → count (held_by u) (expire_logins u now d.user_sessions) ≡ 0
      none_held f = omega (
        arith,
        held-expire_logins u now d.user_sessions,
        latest-none (in_use u now) (expire_logins u now d.user_sessions) f,
      )

  -- The tables once the earlier logins are ended.
  abbrev ended : UserSession → Db
  ended previous =
      let expired = expire_logins u now d.user_sessions in
      record d {
        user_sessions = revoke_logins u now expired;
        audit =
            d.audit
            ++ (user_audit u (previous_session_revoked (count (in_use u now) expired) previous.id)
                  warning ip
                ∷ []);
      }

  login_tx_again :
      (previous : UserSession)
      → any (has_token token) d.user_sessions ≡ false
      → is_client u.role ≡ true
      → latest (in_use u now) (expire_logins u now d.user_sessions) ≡ some previous
      → sessions_of (login_tx u login_row ip now d)
        ≡ cleared u now d.user_sessions ++ (login_row ∷ [])
  unfolding login_tx replace_logins
  login_tx_again previous h c e =
      rw
        (
          e,
          c,
          ◌>>=◌,
          replace_logins,
          ended,
          insert_login-free (ended previous) (
              no_collision u id token ip now expires (cleared u now d.user_sessions)
                (has_token-cleared token u now d.user_sessions ∙ h)
                (held-cleared u now d.user_sessions)),
        )
        refl

  -- The transaction succeeds and leaves one active login.
  login_tx_lem :
      any (has_token token) d.user_sessions ≡ false
      → is_client u.role ≡ true
      → count (held_by u) (sessions_of (login_tx u login_row ip now d)) ≡ 1
  login_tx_lem h c =
      elim (Option-cases (latest (in_use u now) (expire_logins u now d.user_sessions))) [
        | inl e ↦
            ap (count (held_by u)) (login_tx_first h e)
            ∙ held-new_login u id token ip now expires (expire_logins u now d.user_sessions) (
                omega (
                  arith,
                  held-expire_logins u now d.user_sessions,
                  latest-none (in_use u now) (expire_logins u now d.user_sessions) e,
                ))
        | inr (previous, e) ↦
            ap (count (held_by u)) (login_tx_again previous h c e)
            ∙ held-new_login u id token ip now expires (cleared u now d.user_sessions)
                (held-cleared u now d.user_sessions)
      ]

  login_tx_done :
      any (has_token token) d.user_sessions ≡ false
      → is_client u.role ≡ true
      → (e : Db) × (login_tx u login_row ip now d ≡ ok (tt, e))
        × (count (held_by u) e.user_sessions ≡ 1)
  login_tx_done h c = elim (Result-cases (login_tx u login_row ip now d)) [
    | inl ((v, e), r) ↦
        (e, r, ap (λ q. count (held_by u) (sessions_of q)) (sym r) ∙ login_tx_lem h c)
    | inr (f, r) ↦
        absurd (omega (arith, ap (λ q. count (held_by u) (sessions_of q)) r, login_tx_lem h c))
  ]

open_login_done :
    (env : AuthEnv) (u : UserRow) (id : ℕ) (ip : Text) (now ttl : ℕ) (token : Text) (d : Db)
    → env.new_token ≡ ok token
    → current_auth_session_ttl env d ≡ ok ttl
    → (e : Db)
    → login_tx u (new_login u id (env.hash_token token) ip now (now + hours ttl)) ip now d
      ≡ ok (tt, e)
    → open_login env u id ip now d
      ≡ (ok (record { user = u; token = token; expires_at = now + hours ttl }), e)
unfolding open_login transaction
open_login_done env u id ip now ttl token d h k e l = ground (arith, h, k, l)

login_opens :
    (env : AuthEnv) (username password : Text) (id : ℕ) (ip : Text) (now : ℕ) (d : Db) (u : UserRow)
    (hash : Text)
    → find_login_user env username d ≡ some (u, hash)
    → u.is_blocked ≡ false
    → env.password_matches hash password ≡ true
    → login env username password id ip now d ≡ open_login env u id ip now d
unfolding login
login_opens env username password id ip now d u hash f b m = ground (arith, f, b, m)

-- A client who is not blocked and gives the right password is logged in, whatever logins he had: he
-- gets the new cookie for the hours of the policy, and afterwards has exactly one active login. The
-- drawn token is one that no login has.
pub login_single :
    (env : AuthEnv) (username password : Text) (id : ℕ) (ip : Text) (now : ℕ) (d : Db) (u : UserRow)
    (hash token : Text) (ttl : ℕ)
    → find_login_user env username d ≡ some (u, hash)
    → is_client u.role ≡ true
    → u.is_blocked ≡ false
    → env.password_matches hash password ≡ true
    → env.new_token ≡ ok token
    → current_auth_session_ttl env d ≡ ok ttl
    → any (has_token (env.hash_token token)) d.user_sessions ≡ false
    → ((login env username password id ip now d).0
        ≡ ok (record { user = u; token = token; expires_at = now + hours ttl }))
      × (count (held_by u) (login env username password id ip now d).1.user_sessions ≡ 1)
login_single env username password id ip now d u hash token ttl f c b m t k fresh =
    let (e, l, one) =
      login_tx_done u id (env.hash_token token) ip now (now + hours ttl) d fresh c in
    let opened =
      login_opens env username password id ip now d u hash f b m
      ∙ open_login_done env u id ip now ttl token d t k e l in
    (ap (λ r. r.0) opened, ap (λ r. count (held_by u) r.1.user_sessions) opened ∙ one)

-- ===== src/Auth/Passwords/Reset.antt =====
-- A password that an administrator resets.
use archivon.Prelude.{
  ℕ, ◌≡◌, refl, ap, ◌∙◌, sym, true, false, Option, some, List, [], ◌∷◌, ok, err, ◌==◌, count, find?,
  any, arith, Option-cases, Bool-cases, Result-cases, inl, inr, Result, String, ◌≢◌, ==_iff,
}
use archivon.Text.Trim.{Text}
use archivon.Store.{Db, UserRow, UserSession, Role, AuthStatus}
use archivon.Store.Table.{update_where}
use archivon.Store.Tx.{transaction, then_read, then_read-db, Outcome}
use archivon.Auth.Env.{AuthEnv}
use archivon.Auth.Roles.{can_manage_user}
use archivon.Auth.Users.{
  current_user, user_by_id, require_role, may_act, same_role, revoke_user_sessions, active_of,
}
use archivon.Auth.Users.Blocking.{current_user-found, user_by_id_target}
use archivon.Auth.Passwords.{set_password, reset_password_tx, reset_password, with_password}

-- Whoever has the id of the user that is found must change the password.
must_change-found :
    (hash : Text) (target k : ℕ) (users : List UserRow) (u : UserRow)
    → find? (may_act k) (
        update_where
          (λ (u : UserRow). u.id == target)
          (λ (u : UserRow). record u { password_hash = some hash; must_change_password = true })
          users)
      ≡ some u
    → (u.id == target) ≡ true
    → u.must_change_password ≡ true
unfolding update_where
must_change-found hash target k [] u h e = cc
must_change-found hash target k (x ∷ xs) u h e = elim (Bool-cases (x.id == target)) [
  | inl f ↦ elim (Bool-cases (may_act k x)) [
    | inl m ↦
        ap (λ (v : UserRow). v.must_change_password) (same u (changed x) (ground (arith, h, f, m)))
    | inr m ↦ must_change-found hash target k xs u (ground (arith, h, f, m)) e
  ]
  | inr f ↦ elim (Bool-cases (may_act k x)) [
    | inl m ↦
        other u (ap (λ (v : UserRow). v.id == target) (same u x (ground (arith, h, f, m))) ∙ f) e
    | inr m ↦ must_change-found hash target k xs u (ground (arith, h, f, m)) e
  ]
]
  where
    same : (v y : UserRow) → Path (Option UserRow) (some y) (some v) → v ≡ y
    same v y g = cc

    changed : UserRow → UserRow
    changed y = record y { password_hash = some hash; must_change_password = true }

    other :
        (v : UserRow)
        → (v.id == target) ≡ false
        → (v.id == target) ≡ true
        → v.must_change_password ≡ true
    other v a b = cc

with_password-db : (temporary : Text) (o : Outcome UserRow) → (with_password temporary o).1 ≡ o.1
with_password-db temporary (ok u, d) = refl
with_password-db temporary (err e, d) = refl

-- The tables after a reset that went through.
abbrev reset_db : UserRow → UserRow → (hash ip : Text) (now : ℕ) → Db → Db
reset_db actor t hash ip now d = (transaction (reset_password_tx actor t hash ip now) d).1

reset_done :
    (env : AuthEnv) (token : Text) (target : ℕ) (ip : Text) (now : ℕ) (d : Db) (actor t : UserRow)
    (temporary hash : Text)
    → current_user token now d ≡ some actor
    → user_by_id target d ≡ some t
    → can_manage_user actor t ≡ true
    → env.temporary_password ≡ ok temporary
    → env.bcrypt temporary ≡ ok hash
    → reset_password env token target ip now d
      ≡ with_password temporary
          (then_read (transaction (reset_password_tx actor t hash ip now) d) (user_by_id t.id))
unfolding reset_password
reset_done env token target ip now d actor t temporary hash e f m g b =
    ground (arith, e, f, m, g, b)

no_active :
    (user now : ℕ) (ss : List UserSession)
    → count (active_of user) (
        update_where
          (active_of user)
          (λ (s : UserSession). record s { status = AuthStatus.revoked; revoked_at = some now })
          ss)
      ≡ 0
unfolding update_where
no_active user now [] = refl
no_active user now (s ∷ ss) = ground (arith, no_active user now ss)

reset_password-found :
    (env : AuthEnv) (token : Text) (target : ℕ) (ip : Text) (now : ℕ) (d : Db) (r : UserRow × Text)
    → (reset_password env token target ip now d).0 ≡ ok r
    → (actor : UserRow) × (t : UserRow) × (hash : Text) × (current_user token now d ≡ some actor)
      × (user_by_id target d ≡ some t)
      × (can_manage_user actor t ≡ true)
      × ((reset_password env token target ip now d).1 ≡ reset_db actor t hash ip now d)
unfolding reset_password
reset_password-found env token target ip now d r h =
    elim (Option-cases (current_user token now d)) [
      | inl e ↦ ground (arith, h, e)
      | inr (actor, e) ↦ elim (Option-cases (user_by_id target d)) [
        | inl f ↦ ground (arith, h, e, f)
        | inr (t, f) ↦ elim (Bool-cases (can_manage_user actor t)) [
          | inr m ↦ ground (arith, h, e, f, m)
          | inl m ↦ elim (Result-cases env.temporary_password) [
            | inr (x, g) ↦ ground (arith, h, e, f, m, g)
            | inl (temporary, g) ↦ elim (Result-cases (env.bcrypt temporary)) [
              | inr (x, b) ↦ ground (arith, h, e, f, m, g, b)
              | inl (hash, b) ↦ (
                actor,
                t,
                hash,
                e,
                f,
                m,
                ap (λ o. o.1)
                      (reset_done env token target ip now d actor t temporary hash e f m g b)
                    ∙ with_password-db temporary _
                    ∙ then_read-db (transaction (reset_password_tx actor t hash ip now) d)
                        (user_by_id t.id),
              )
            ]
          ]
        ]
      ]
    ]

reset_db-users :
    (actor t : UserRow) (hash ip : Text) (now : ℕ) (d : Db)
    → (reset_db actor t hash ip now d).users
      ≡ update_where
          (λ (u : UserRow). u.id == t.id)
          (λ (u : UserRow). record u { password_hash = some hash; must_change_password = true })
          d.users
unfolding reset_password_tx transaction set_password revoke_user_sessions
reset_db-users actor t hash ip now d = refl

reset_db-logins :
    (actor t : UserRow) (hash ip : Text) (now : ℕ) (d : Db)
    → count (active_of t.id) (reset_db actor t hash ip now d).user_sessions ≡ 0
unfolding reset_password_tx transaction set_password revoke_user_sessions
reset_db-logins actor t hash ip now d = no_active t.id now d.user_sessions

require_role-found :
    (roles : List Role) (cookie : Text) (later : ℕ) (d : Db) (u : UserRow)
    → require_role roles cookie later d ≡ ok u
    → (current_user cookie later d ≡ some u) × (u.must_change_password ≡ false)
unfolding require_role
require_role-found roles cookie later d u h = elim (Option-cases (current_user cookie later d)) [
  | inl e ↦ ground (arith, h, e)
  | inr (v, e) ↦ elim (Bool-cases (any (same_role v.role) roles)) [
    | inr f ↦ ground (arith, h, e, f)
    | inl f ↦ elim (Bool-cases v.must_change_password) [
      | inl g ↦ ground (arith, h, e, f, g)
      | inr g ↦ found v e g (ground (arith, h, e, f, g))
    ]
  ]
]
  where
    found :
        (v : UserRow)
        → current_user cookie later d ≡ some v
        → v.must_change_password ≡ false
        → Path (Result (ℕ × String) UserRow) (ok v) (ok u)
        → (current_user cookie later d ≡ some u) × (u.must_change_password ≡ false)
    found v e g i = (cc, cc)

-- A reset of a password that succeeds comes from the user of its cookie, who may manage the account.
-- Afterwards no login of the account is active, and the guard of the administration lets a user of that id in with
-- no cookie, at no time and for no roles: the temporary password must be changed first.
pub reset_password_locks :
    (env : AuthEnv) (token : Text) (target : ℕ) (ip : Text) (now : ℕ) (d : Db) (r : UserRow × Text)
    (roles : List Role) (cookie : Text) (later : ℕ) (u : UserRow)
    → (reset_password env token target ip now d).0 ≡ ok r
    → (u.id == target) ≡ true
    → ((actor : UserRow) × (t : UserRow) × (current_user token now d ≡ some actor)
        × (user_by_id target d ≡ some t)
        × (can_manage_user actor t ≡ true))
      × (count (active_of target) (reset_password env token target ip now d).1.user_sessions ≡ 0)
      × (require_role roles cookie later (reset_password env token target ip now d).1 ≢ ok u)
reset_password_locks env token target ip now d r roles cookie later u h same =
    let (actor, t, hash, e, f, m, after) = reset_password-found env token target ip now d r h in
    let is_target = (==_iff t.id target).0 (user_by_id_target target d t f) in
    (
      (actor, t, e, f, m),
      ap (λ k. count (active_of k) (reset_password env token target ip now d).1.user_sessions)
            (sym is_target)
          ∙ ap (λ (e : Db). count (active_of t.id) e.user_sessions) after
          ∙ reset_db-logins actor t hash ip now d,
      λ k.
          let (current, free) = require_role-found roles cookie later _ u k in
          let (key, found) = current_user-found cookie later _ u current in
          let must =
            must_change-found hash t.id key d.users u
              (ap (find? (may_act key)) (sym (reset_db-users actor t hash ip now d))
                ∙ ap (λ (e : Db). find? (may_act key) e.users) (sym after)
                ∙ found)
              (ap (λ k. u.id == k) is_target ∙ same) in
          absurd (ground (arith, must, free)),
    )

-- ===== src/Auth/Users/Blocking.antt =====
-- A user who is blocked.
use archivon.Prelude.{
  ℕ, ◌≡◌, refl, Bool, true, false, Option, some, List, [], ◌∷◌, ◌==◌, find?, arith, ok,
  Option-cases, Bool-cases, inl, inr, ap, ◌∙◌, sym,
}
use archivon.Text.Trim.{Text}
use archivon.Store.{Db, UserRow}
use archivon.Store.Table.{update_where}
use archivon.Store.Tx.{then_read-db, transaction}
use archivon.Auth.Roles.{can_manage_user}
use archivon.Auth.Users.{
  opens, may_act, current_user, user_by_id, set_blocked, revoke_user_sessions, update_status_tx,
  update_status_of, update_user_status,
}

find-blocked :
    (target k : ℕ) (users : List UserRow) (u : UserRow)
    → find? (may_act k) (
        update_where
          (λ (u : UserRow). u.id == target)
          (λ (u : UserRow). record u { is_blocked = true })
          users)
      ≡ some u
    → (u.id == target) ≡ false
unfolding update_where
find-blocked target k [] u h = cc
find-blocked target k (x ∷ xs) u h = elim (Bool-cases (x.id == target)) [
  | inl e ↦ find-blocked target k xs u (ground (arith, h, e))
  | inr e ↦ elim (Bool-cases (may_act k x)) [
    | inl m ↦ ap (λ (v : UserRow). v.id == target) (same u (ground (arith, h, e, m))) ∙ e
    | inr m ↦ find-blocked target k xs u (ground (arith, h, e, m))
  ]
]
  where
    same : (v : UserRow) → Path (Option UserRow) (some x) (some v) → v ≡ x
    same v g = cc

pub current_user-found :
    (token : Text) (now : ℕ) (d : Db) (u : UserRow)
    → current_user token now d ≡ some u
    → (k : ℕ) × (find? (may_act k) d.users ≡ some u)
unfolding current_user
current_user-found token now d u h = elim (Option-cases (find? (opens token now) d.user_sessions)) [
  | inl e ↦ ground (arith, h, e)
  | inr (s, e) ↦ (s.user, ground (arith, h, e))
]

update_status_of-users :
    (actor target : UserRow) (ip : Text) (now : ℕ) (d : Db) (r : UserRow)
    → (update_status_of actor target true ip now d).0 ≡ ok r
    → (update_status_of actor target true ip now d).1.users
      ≡ update_where
          (λ (u : UserRow). u.id == target.id)
          (λ (u : UserRow). record u { is_blocked = true })
          d.users
unfolding update_status_tx transaction set_blocked revoke_user_sessions
update_status_of-users actor target ip now d r h =
    elim (Bool-cases (can_manage_user actor target)) [
      | inl e ↦ rw e (
          ap (λ (t : Db). t.users)
            (then_read-db (transaction (update_status_tx actor target true ip now) d)
              (user_by_id target.id)))
      | inr e ↦ ground (arith, h, e)
    ]

find-id :
    (id : ℕ) (users : List UserRow) (u : UserRow)
    → find? (λ (u : UserRow). u.id == id) users ≡ some u
    → (u.id == id) ≡ true
find-id id [] u h = cc
find-id id (x ∷ xs) u h = elim (Bool-cases (x.id == id)) [
  | inl m ↦ ap (λ (v : UserRow). v.id == id) (same u (ground (arith, h, m))) ∙ m
  | inr m ↦ find-id id xs u (ground (arith, h, m))
]
  where
    same : (v : UserRow) → Path (Option UserRow) (some x) (some v) → v ≡ x
    same v g = cc

pub user_by_id_target :
    (target : ℕ) (d : Db) (t : UserRow) → user_by_id target d ≡ some t → (t.id == target) ≡ true
unfolding user_by_id
user_by_id_target target d t h = find-id target d.users t h

update_user_status-found :
    (token : Text) (b : Bool) (target : ℕ) (ip : Text) (now : ℕ) (d : Db) (actor t : UserRow)
    → current_user token now d ≡ some actor
    → user_by_id target d ≡ some t
    → update_user_status token (some b) target ip now d ≡ update_status_of actor t b ip now d
unfolding update_user_status
update_user_status-found token b target ip now d actor t e f = rw (update_user_status, e, f) refl

-- The parts of a request to block that succeeds.
update_user_status_parts :
    (token : Text) (target : ℕ) (ip : Text) (now : ℕ) (d : Db) (r : UserRow)
    → (update_user_status token (some true) target ip now d).0 ≡ ok r
    → (actor : UserRow) × (t : UserRow) × (current_user token now d ≡ some actor)
      × (user_by_id target d ≡ some t)
      × (can_manage_user actor t ≡ true)
      × ((update_user_status token (some true) target ip now d).1.users
          ≡ update_where
              (λ (u : UserRow). u.id == t.id)
              (λ (u : UserRow). record u { is_blocked = true })
              d.users)
unfolding update_user_status
update_user_status_parts token target ip now d r h =
    elim (Option-cases (current_user token now d)) [
      | inl e ↦ ground (arith, h, e)
      | inr (actor, e) ↦ elim (Option-cases (user_by_id target d)) [
        | inl f ↦ ground (arith, h, e, f)
        | inr (t, f) ↦ elim (Bool-cases (can_manage_user actor t)) [
          | inl g ↦ (
            actor,
            t,
            e,
            f,
            g,
            ap (λ o. o.1.users) (update_user_status-found token true target ip now d actor t e f)
                ∙ update_status_of-users actor t ip now d r (
                    ap (λ o. o.0)
                      (sym (update_user_status-found token true target ip now d actor t e f))
                    ∙ h),
          )
          | inr g ↦ ground (arith, h, e, f, g)
        ]
      ]
    ]

-- After a request to block a user succeeds, no session cookie stands for that user any more, at
-- whatever time it is read, and the request came from a logged in user who may manage him.
pub update_user_status_blocks :
    (token : Text) (target : ℕ) (ip : Text) (now : ℕ) (d : Db) (r : UserRow) (cookie : Text)
    (later : ℕ) (u : UserRow)
    → (update_user_status token (some true) target ip now d).0 ≡ ok r
    → current_user cookie later (update_user_status token (some true) target ip now d).1 ≡ some u
    → ((u.id == target) ≡ false)
      × ((actor : UserRow) × (t : UserRow) × (current_user token now d ≡ some actor)
          × (user_by_id target d ≡ some t)
          × (can_manage_user actor t ≡ true))
update_user_status_blocks token target ip now d r cookie later u h k =
    let (actor, t, e, f, g, users) = update_user_status_parts token target ip now d r h in
    let (key, found) = current_user-found cookie later _ u k in
    (
      target_of t (user_by_id_target target d t f)
          (find-blocked t.id key d.users u (ap (find? (may_act key)) (sym users) ∙ found)),
      (actor, t, e, f, g),
    )
  where
    target_of :
        (t : UserRow) → (t.id == target) ≡ true → (u.id == t.id) ≡ false → (u.id == target) ≡ false
    target_of t a b = ground (arith, a, b)

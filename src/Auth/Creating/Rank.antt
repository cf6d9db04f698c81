-- ===== src/Auth/Creating/Rank.antt =====
-- Who creates whom: handleCreateUser against the ranks of the roles.
use archivon.Prelude.{
  ℕ, ◌<◌, ◌≡◌, ap, subst, sym, true, Option, none, some, [], ◌∷◌, ◌++◌, any, arith, Option-cases,
  Bool-cases, Result-cases, inl, inr, ok,
}
use archivon.Text.Trim.{Text, trim_space, is_empty}
use archivon.Store.{Db, UserRow, Role}
use archivon.Store.Tx.{transaction}
use archivon.Auth.Env.{AuthEnv}
use archivon.Auth.Roles.{can_create_role, rank, can_create_role_below}
use archivon.Auth.Users.{current_user}
use archivon.Auth.Creating.{
  new_user, conflicts, insert_user, insert_named, create_user_tx, create_user, NewUser,
  nullable_string,
}

create_tx_done :
    (tenant : Option ℕ) (actor : UserRow) (id : ℕ) (role : Role) (username hash : Text)
    (description : Option Text) (ip : Text) (d : Db) (u : UserRow)
    → (transaction (create_user_tx tenant actor id role username hash description ip) d).0 ≡ ok u
    → (u.role ≡ role)
      × (u.must_change_password ≡ true)
      × ((transaction (create_user_tx tenant actor id role username hash description ip) d).1.users
          ≡ d.users ++ (u ∷ []))
unfolding create_user_tx transaction insert_named insert_user
create_tx_done none actor id role username hash description ip d u h = absurd (cc)
create_tx_done (some t) actor id role username hash description ip d u h =
    elim (Bool-cases
      (any (conflicts (new_user id t role username hash true description)) d.users)) [
        | inl c ↦ absurd (ground (arith, c, h))
        | inr c ↦
            let same : new_user id t role username hash true description ≡ u =
              ground (arith, c, h) in
            (
              ap (λ (v : UserRow). v.role) (sym same),
              ap (λ (v : UserRow). v.must_change_password) (sym same),
              subst
                  (λ v.
                    (transaction
                      (create_user_tx (some t) actor id role username hash description ip)
                      d).1.users
                    ≡ d.users ++ (v ∷ []))
                  same (ground (arith, c)),
            )
      ]

-- A request to create a user that succeeds comes from the user of its cookie, and the new user's role
-- ranks strictly below the creator's. He is the one row that the table of users gains, and must change his first password.
pub create_user_below :
    (env : AuthEnv) (token : Text) (id : ℕ) (req : Option NewUser) (ip : Text) (now : ℕ) (d : Db)
    (u : UserRow)
    → (create_user env token id req ip now d).0 ≡ ok u
    → ((actor : UserRow) × (current_user token now d ≡ some actor)
        × (rank u.role < rank actor.role))
      × (u.must_change_password ≡ true)
      × ((create_user env token id req ip now d).1.users ≡ d.users ++ (u ∷ []))
unfolding create_user
create_user_below env token id none ip now d u h = elim (Option-cases (current_user token now d)) [
  | inl e ↦ absurd (ground (arith, e, h))
  | inr (actor, e) ↦ absurd (ground (arith, e, h))
]
create_user_below env token id (some r) ip now d u h =
    elim (Option-cases (current_user token now d)) [
      | inl e ↦ absurd (ground (arith, e, h))
      | inr (actor, e) ↦ elim (Bool-cases (is_empty (trim_space r.username))) [
        | inl f ↦ absurd (ground (arith, e, f, h))
        | inr f ↦ elim (Bool-cases (can_create_role actor.role r.role)) [
          | inr g ↦ absurd (ground (arith, e, f, g, h))
          | inl g ↦ elim (Result-cases env.temporary_password) [
            | inr (x, t) ↦ absurd (ground (arith, e, f, g, t, h))
            | inl (temporary, t) ↦ elim (Result-cases (env.bcrypt temporary)) [
              | inr (x, b) ↦ absurd (ground (arith, e, f, g, t, b, h))
              | inl (hash, b) ↦
                  let (role, must, more) =
                    create_tx_done env.default_tenant actor id r.role (trim_space r.username) hash
                      (nullable_string r.description) ip d u (ground (arith, e, f, g, t, b, h)) in
                  (
                    (
                      actor,
                      e,
                      subst (λ k. rank k < rank actor.role) (sym role)
                          (can_create_role_below actor.role r.role g),
                    ),
                    must,
                    ground (arith, e, f, g, t, b, more),
                  )
            ]
          ]
        ]
      ]
    ]

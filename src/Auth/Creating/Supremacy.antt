-- ===== src/Auth/Creating/Supremacy.antt =====
-- How many super admins a tenant has.
use archivon.Prelude.{
  ℕ, ◌+◌, ◌≤◌, ◌≡◌, refl, ap, ◌∙◌, Bool, true, false, Option, none, some, List, [], ◌∷◌, ◌++◌, ltb,
  ◌==◌, count, count-append, any, length, arith, Option-cases, Bool-cases, Result-cases, inl, inr,
  if◌then◌else◌, ◌⊎◌,
}
use archivon.Text.Trim.{Text, trim_space, is_empty}
use archivon.Store.{Db, UserRow, Role, super_admin}
use archivon.Store.Tx.{transaction}
use archivon.Auth.Env.{AuthEnv}
use archivon.Auth.Roles.{can_create_role, is_super_admin}
use archivon.Auth.Users.{current_user}
use archivon.Auth.Passwords.{min_password_length}
use archivon.Auth.Creating.{
  new_user, conflicts, insert_user, super_admin_of, super_admin_count, create_super_admin_tx,
  create_super_admin, insert_named, create_user_tx, create_user, NewUser, nullable_string,
}

-- The users after an insert.
appended :
    (q : UserRow → Bool) (us : List UserRow) (new : UserRow)
    → count q (us ++ (new ∷ [])) ≡ count q us + (if q new then 1 else 0)
appended q us new = ground (arith, count-append q us (new ∷ []))

bootstrap_tx_users :
    (t id : ℕ) (username hash : Text) (description : Option Text) (ip : Text) (d : Db)
    → ((transaction (create_super_admin_tx (some t) id username hash description ip) d).1.users
        ≡ d.users)
      ⊎ ((super_admin_count t d ≡ 0)
          × ((transaction
                (create_super_admin_tx (some t) id username hash description ip)
                d).1.users
              ≡ d.users ++ (new_user id t super_admin username hash false description ∷ [])))
unfolding create_super_admin_tx transaction insert_user
bootstrap_tx_users t id username hash description ip d =
    elim (Bool-cases (super_admin_count t d == 0)) [
      | inr e ↦ inl (ground (arith, e))
      | inl e ↦
          elim (Bool-cases
            (any (conflicts (new_user id t super_admin username hash false description)) d.users)) [
              | inl c ↦ inl (ground (arith, e, c))
              | inr c ↦ inr (ground (arith, e), ground (arith, e, c))
            ]
    ]

-- The bootstrap adds a super admin where there is none, or leaves the users as they are.
bootstrap_users :
    (env : AuthEnv) (id tenant : ℕ) (username password description ip : Text) (d : Db)
    → env.default_tenant ≡ some tenant
    → ((create_super_admin env id username password description ip d).1.users ≡ d.users)
      ⊎ ((hash : Text) × (super_admin_count tenant d ≡ 0)
          × ((create_super_admin env id username password description ip d).1.users
              ≡ d.users
                ++ (new_user id tenant super_admin
                      (trim_space username)
                      hash
                      false
                      (nullable_string description)
                    ∷ [])))
unfolding create_super_admin
bootstrap_users env id tenant username password description ip d e =
    elim (Bool-cases (is_empty (trim_space username))) [
      | inl f ↦ inl (ground (arith, f))
      | inr f ↦ elim (Bool-cases (ltb (length (trim_space password)) min_password_length)) [
        | inl g ↦ inl (ground (arith, f, g))
        | inr g ↦ elim (Result-cases (env.bcrypt (trim_space password))) [
          | inr (x, b) ↦ inl (ground (arith, f, g, b))
          | inl (hash, b) ↦
              elim (bootstrap_tx_users tenant id (trim_space username) hash
                (nullable_string description) ip d) [
                  | inl same ↦ inl (ground (arith, e, f, g, b, same))
                  | inr (zero, more) ↦ inr (hash, zero, ground (arith, e, f, g, b, more))
                ]
        ]
      ]
    ]

create_tx_users :
    (tenant : Option ℕ) (actor : UserRow) (id : ℕ) (role : Role) (username hash : Text)
    (description : Option Text) (ip : Text) (d : Db)
    → ((transaction (create_user_tx tenant actor id role username hash description ip) d).1.users
        ≡ d.users)
      ⊎ ((new : UserRow) × (new.role ≡ role)
          × ((transaction
                (create_user_tx tenant actor id role username hash description ip)
                d).1.users
              ≡ d.users ++ (new ∷ [])))
unfolding create_user_tx transaction insert_named insert_user
create_tx_users none actor id role username hash description ip d = inl refl
create_tx_users (some t) actor id role username hash description ip d =
    elim (Bool-cases
      (any (conflicts (new_user id t role username hash true description)) d.users)) [
        | inl c ↦ inl (ground (arith, c))
        | inr c ↦ inr (new_user id t role username hash true description, refl, ground (arith, c))
      ]

no_super_role :
    (actor role : Role) → can_create_role actor role ≡ true → is_super_admin role ≡ false
unfolding can_create_role
no_super_role super_admin super_admin h = cc
no_super_role super_admin Role.admin h = refl
no_super_role super_admin Role.client h = refl
no_super_role super_admin Role.other_role h = refl
no_super_role Role.admin super_admin h = cc
no_super_role Role.admin Role.admin h = refl
no_super_role Role.admin Role.client h = refl
no_super_role Role.admin Role.other_role h = refl
no_super_role Role.client role h = cc
no_super_role Role.other_role role h = cc

-- A new user is added with a role that the caller may create, or the users stay.
create_user_users :
    (env : AuthEnv) (token : Text) (id : ℕ) (req : Option NewUser) (ip : Text) (now : ℕ) (d : Db)
    → ((create_user env token id req ip now d).1.users ≡ d.users)
      ⊎ ((new : UserRow) × (is_super_admin new.role ≡ false)
          × ((create_user env token id req ip now d).1.users ≡ d.users ++ (new ∷ [])))
unfolding create_user
create_user_users env token id none ip now d = elim (Option-cases (current_user token now d)) [
  | inl e ↦ inl (ground (arith, e))
  | inr (actor, e) ↦ inl (ground (arith, e))
]
create_user_users env token id (some r) ip now d = elim (Option-cases (current_user token now d)) [
  | inl e ↦ inl (ground (arith, e))
  | inr (actor, e) ↦ elim (Bool-cases (is_empty (trim_space r.username))) [
    | inl f ↦ inl (ground (arith, e, f))
    | inr f ↦ elim (Bool-cases (can_create_role actor.role r.role)) [
      | inr g ↦ inl (ground (arith, e, f, g))
      | inl g ↦ elim (Result-cases env.temporary_password) [
        | inr (x, t) ↦ inl (ground (arith, e, f, g, t))
        | inl (temporary, t) ↦ elim (Result-cases (env.bcrypt temporary)) [
          | inr (x, b) ↦ inl (ground (arith, e, f, g, t, b))
          | inl (hash, b) ↦
              elim (create_tx_users env.default_tenant actor id r.role (trim_space r.username) hash
                (nullable_string r.description) ip d) [
                  | inl same ↦ inl (ground (arith, e, f, g, t, b, same))
                  | inr (new, role, more) ↦ inr (
                    new,
                    ap is_super_admin role ∙ no_super_role actor.role r.role g,
                    ground (arith, e, f, g, t, b, more),
                  )
                ]
        ]
      ]
    ]
  ]
]

-- A tenant has one super admin at most: the bootstrap keeps it so, on every branch, and no request to
-- create a user changes how many there are.
pub one_super_admin :
    (env : AuthEnv) (tenant : ℕ) (d : Db) (id : ℕ) (username password description ip token : Text)
    (req : Option NewUser) (now : ℕ)
    → env.default_tenant ≡ some tenant
    → super_admin_count tenant d ≤ 1
    → (super_admin_count tenant (create_super_admin env id username password description ip d).1
        ≤ 1)
      × (super_admin_count tenant (create_user env token id req ip now d).1
          ≡ super_admin_count tenant d)
unfolding super_admin_count
one_super_admin env tenant d id username password description ip token req now e h = (
  elim (bootstrap_users env id tenant username password description ip d e) [
    | inl same ↦ omega (arith, ap (count (super_admin_of tenant)) same)
    | inr (hash, zero, more) ↦ ground (
      arith,
      zero,
      ap (count (super_admin_of tenant)) more,
      appended (super_admin_of tenant) d.users (
          new_user id tenant super_admin (trim_space username) hash false
            (nullable_string description)),
    )
  ],
  elim (create_user_users env token id req ip now d) [
    | inl same ↦ ap (count (super_admin_of tenant)) same
    | inr (new, other, more) ↦ ground (
      arith,
      other,
      ap (count (super_admin_of tenant)) more,
      appended (super_admin_of tenant) d.users new,
    )
  ],
)

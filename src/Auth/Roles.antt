-- ===== src/Auth/Roles.antt =====
-- canCreateRole, canManageUser and the TTL of login sessions in internal/auth/service.go.
use archivon.Prelude.{ℕ, ◌≡◌, ◌<◌, Bool, true, false, ◌||◌, ◌==◌, if◌then◌else◌, arith}
use archivon.Store.{Role, super_admin, admin, client, other_role, UserRow}

unfoldable pub can_create_role : (actor target : Role) → Bool
can_create_role super_admin admin = true
can_create_role super_admin client = true
can_create_role super_admin super_admin = false
can_create_role super_admin other_role = false
can_create_role admin client = true
can_create_role admin super_admin = false
can_create_role admin admin = false
can_create_role admin other_role = false
can_create_role client target = false
can_create_role other_role target = false

abbrev pub is_super_admin : Role → Bool
is_super_admin super_admin = true
is_super_admin _ = false

abbrev pub is_client : Role → Bool
is_client client = true
is_client _ = false

abbrev pub is_admin : Role → Bool
is_admin admin = true
is_admin _ = false

-- The switch of canManageUser.
abbrev pub manages_role : (actor target : Role) → Bool
manages_role super_admin target = is_admin target || is_client target
manages_role admin target = is_client target
manages_role client target = false
manages_role other_role target = false

unfoldable pub can_manage_user : (actor target : UserRow) → Bool
can_manage_user actor target =
    if is_super_admin target.role
    then false
    else if actor.id == target.id
    then false
    else manages_role actor.role target.role

-- How much a role may do.
abbrev pub rank : Role → ℕ
rank super_admin = 3
rank admin = 2
rank client = 1
rank other_role = 0

-- A role that may be created ranks below the creator's.
pub can_create_role_below :
    (actor target : Role) → can_create_role actor target ≡ true → rank target < rank actor
unfolding can_create_role
can_create_role_below super_admin super_admin h = cc
can_create_role_below super_admin admin h = omega arith
can_create_role_below super_admin client h = omega arith
can_create_role_below super_admin other_role h = omega arith
can_create_role_below admin super_admin h = cc
can_create_role_below admin admin h = cc
can_create_role_below admin client h = omega arith
can_create_role_below admin other_role h = omega arith
can_create_role_below client target h = cc
can_create_role_below other_role target h = cc

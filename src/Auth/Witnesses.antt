-- ===== src/Auth/Witnesses.antt =====
-- Tests of internal/auth, and the theorems of this component at inputs that meet their hypotheses.
use archivon.Prelude.{
  ℕ, ◌+◌, ◌≤◌, ◌<◌, ◌≡◌, ◌≢◌, ◌⊎◌, refl, true, false, none, some, [], ◌∷◌, ◌++◌, ◌==◌, ok, pos,
  count, arith,
}
use archivon.Text.Trim.{Text, codes, text_eq, to_lower}
use archivon.Store.{Db, UserRow, UserSession, AuthStatus, Role, admin, client, hours}
use archivon.Access.Queue.Exclusive.{Exclusive}
use archivon.Access.Queue.{promote_next_queued, runs, waits, live}
use archivon.Access.Examples.{busy, busy-Exclusive}
use archivon.Auth.Env.{AuthEnv}
use archivon.Auth.Roles.{can_manage_user, rank}
use archivon.Auth.Users.{current_user, user_by_id, update_user_status, require_role, active_of}
use archivon.Auth.Users.Blocking.{update_user_status_blocks}
use archivon.Auth.Login.{login, logout, held_by}
use archivon.Auth.Login.Single.{login_single}
use archivon.Auth.Login.Ending.{logout_ends}
use archivon.Auth.Passwords.{reset_password}
use archivon.Auth.Passwords.Reset.{reset_password_locks}
use archivon.Auth.Creating.{super_admin_count, create_super_admin, create_user}
use archivon.Auth.Creating.Supremacy.{one_super_admin}
use archivon.Auth.Creating.Rank.{create_user_below}
use archivon.Auth.Deleting.{promote_next_queued_access_job, Deleted, delete_user}
use archivon.Auth.Deleting.Promotion.{promotions_agree}
use archivon.Auth.Deleting.Cleanup.{IsForgotten, delete_user_cleanup}

abbrev user : (id : ℕ) → Role → UserRow
user id role = record {
  id = id;
  tenant = 1;
  role = role;
  username = codes "name";
  lower_username = codes "name";
  password_hash = none;
  must_change_password = false;
  is_blocked = false;
  description = none;
  last_login_at = none;
}

abbrev cookie : (id user : ℕ) → Text → Role → UserSession
cookie id user token role = record {
  id = id;
  tenant = 1;
  user = user;
  token_hash = token;
  status = AuthStatus.active;
  ip_address = codes "10.0.0.1";
  created_at = 0;
  expires_at = 1000;
  revoked_at = none;
  role_at_login = role;
}

-- An admin and two clients are logged in.
abbrev logged_in : Db
logged_in = record busy {
  users = user 2 admin ∷ user 5 client ∷ user 6 client ∷ [];
  user_sessions =
      cookie 20 2 (codes "a") admin
      ∷ cookie 21 5 (codes "b") client
      ∷ cookie 22 6 (codes "c") client
      ∷ [];
}

-- The client 5 is blocked.
abbrev after_block : Db
after_block = (update_user_status (codes "a") (some true) 5 (codes "ip") 10 logged_in).1

blocked_test : current_user (codes "b") 20 after_block ≡ none
unfolding current_user update_user_status
blocked_test = refl

update_user_status_blocks_example :
    (((user 6 client).id == 5) ≡ false)
    × ((actor : UserRow) × (t : UserRow) × (current_user (codes "a") 10 logged_in ≡ some actor)
        × (user_by_id 5 logged_in ≡ some t)
        × (can_manage_user actor t ≡ true))
unfolding update_user_status
update_user_status_blocks_example =
    update_user_status_blocks (codes "a") 5 (codes "ip") 10 logged_in
      (record (user 5 client) { is_blocked = true }) (codes "c") 20 (user 6 client) refl refl

-- A password is its own hash, and 97 is the drawn token.
abbrev plain : AuthEnv
plain = record {
  default_tenant = some 1;
  bcrypt = λ password. ok password;
  password_matches = text_eq;
  temporary_password = ok (codes "Temporary-1");
  new_token = ok (codes "t");
  hash_token = λ token. token;
  session_ttl_hours = pos 12;
  unmarshal_policy = λ policy text. ok policy;
  marshal_policy = λ policy. ok [];
}

-- The client 5, who signs in as "ana".
abbrev member : UserRow
member = record (user 5 client) {
  username = codes "Ana";
  lower_username = codes "ana";
  password_hash = some (codes "pw");
}

-- The client 5 has a login already.
abbrev with_member : Db
with_member = record logged_in { users = user 2 admin ∷ member ∷ [] }

login_single_example :
    ((login plain (codes " Ana") (codes "pw") 30 (codes "ip") 10 with_member).0
      ≡ ok (record { user = member; token = codes "t"; expires_at = 10 + hours 12 }))
    × (count
          (held_by member)
          (login plain (codes " Ana") (codes "pw") 30 (codes "ip") 10 with_member).1.user_sessions
        ≡ 1)
unfolding login
login_single_example =
    login_single plain (codes " Ana") (codes "pw") 30 (codes "ip") 10 with_member member
      (codes "pw") (codes "t") 12 refl refl refl refl refl refl refl

logout_ends_example :
    current_user (codes "b") 11 (logout plain (some (codes "b")) (codes "ip") 10 logged_in) ≡ none
unfolding current_user
logout_ends_example =
    logout_ends plain (codes "b") (codes "ip") 10 11 logged_in (user 5 client) refl

-- The admin resets the password of the client 5, who then logs in nowhere.
reset_password_locks_example :
    ((actor : UserRow) × (t : UserRow) × (current_user (codes "a") 10 logged_in ≡ some actor)
      × (user_by_id 5 logged_in ≡ some t)
      × (can_manage_user actor t ≡ true))
    × (count
          (active_of 5)
          (reset_password plain (codes "a") 5 (codes "ip") 10 logged_in).1.user_sessions
        ≡ 0)
    × (require_role
          (client ∷ [])
          (codes "b")
          20
          (reset_password plain (codes "a") 5 (codes "ip") 10 logged_in).1
        ≢ ok (user 5 client))
unfolding reset_password require_role
reset_password_locks_example =
    reset_password_locks plain (codes "a") 5 (codes "ip") 10 logged_in
      (
        record (user 5 client) {
          password_hash = some (codes "Temporary-1");
          must_change_password = true;
        },
        codes "Temporary-1",
      )
      (client ∷ []) (codes "b") 20 (user 5 client) refl refl

one_super_admin_example :
    (super_admin_count 1
        (create_super_admin plain 9 (codes "root") (codes "long enough") [] (codes "ip") busy).1
      ≤ 1)
    × (super_admin_count 1
          (create_user plain
            (codes "a")
            9
            (some (record { username = codes "bob"; role = client; description = [] }))
            (codes "ip")
            10
            busy).1
        ≡ super_admin_count 1 busy)
unfolding super_admin_count
one_super_admin_example =
    one_super_admin plain 1 busy 9 (codes "root") (codes "long enough") [] (codes "ip") (codes "a")
      (some (record { username = codes "bob"; role = client; description = [] })) 10 refl
      (omega arith)

-- The admin creates the client bob.
abbrev bob : UserRow
bob = record (user 9 client) {
  username = codes "bob";
  lower_username = codes "bob";
  password_hash = some (codes "Temporary-1");
  must_change_password = true;
}

create_user_below_example :
    let o =
      create_user plain
        (codes "a")
        9
        (some (record { username = codes "bob"; role = client; description = [] }))
        (codes "ip")
        10
        logged_in in
    ((actor : UserRow) × (current_user (codes "a") 10 logged_in ≡ some actor)
      × (rank client < rank actor.role))
    × (bob.must_change_password ≡ true)
    × (o.1.users ≡ logged_in.users ++ (bob ∷ []))
unfolding create_user to_lower
create_user_below_example =
    create_user_below plain (codes "a") 9
      (some (record { username = codes "bob"; role = client; description = [] })) (codes "ip") 10
      logged_in bob refl

promotions_agree_example : promote_next_queued_access_job 1 5 busy ≡ promote_next_queued 1 5 busy
promotions_agree_example = promotions_agree 1 5 busy

-- The client 5 has the running job, the session and the right of the example tables.
abbrev five : Text
five = codes "00000000-0000-4000-8000-000000000005"

abbrev five_deleted : Deleted
five_deleted = record {
  user = user 5 client;
  revoked_sessions = 0;
  canceled_jobs = 2;
  deleted_pow_jobs = 2;
  deleted_rights = 1;
}

logged_in-Exclusive : Exclusive 1 10 logged_in
logged_in-Exclusive = record {
  distinct = λ i. (busy-Exclusive 10).distinct i;
  one_running = (busy-Exclusive 10).one_running;
  one_active = (busy-Exclusive 10).one_active;
  not_both = (busy-Exclusive 10).not_both;
}

delete_user_cleanup_example :
    ((actor : UserRow) × (current_user (codes "a") 10 logged_in ≡ some actor)
      × (user_by_id 5 logged_in ≡ some (user 5 client))
      × (can_manage_user actor (user 5 client) ≡ true))
    × IsForgotten
        (user 5 client)
        (delete_user (λ _. 5) (codes "a") five (codes "ip") 10 logged_in).1
    × Exclusive 1 10 (delete_user (λ _. 5) (codes "a") five (codes "ip") 10 logged_in).1
    × ((count (waits 1) (delete_user (λ _. 5) (codes "a") five (codes "ip") 10 logged_in).1.jobs
          ≡ 0)
        ⊎ ((0
              < count
                  (runs 1)
                  (delete_user (λ _. 5) (codes "a") five (codes "ip") 10 logged_in).1.jobs)
            ⊎ (0
                < count
                    (live 1 10)
                    (delete_user (λ _. 5) (codes "a") five (codes "ip") 10 logged_in).1.sessions)))
unfolding delete_user
delete_user_cleanup_example =
    delete_user_cleanup (λ _. 5) (codes "a") five (codes "ip") 10 logged_in five_deleted refl
      logged_in-Exclusive

-- ===== src/Auth/Login/Ending.antt =====
-- Logging out.
use archivon.Prelude.{ℕ, ◌≡◌, refl, none, some, List, [], ◌∷◌, find?, arith}
use archivon.Text.Trim.{Text}
use archivon.Store.{Db, UserRow, UserSession, AuthStatus}
use archivon.Store.Table.{update_where}
use archivon.Auth.Env.{AuthEnv}
use archivon.Auth.Users.{opens, current_user}
use archivon.Auth.Login.{logout, token_is}

no_login_left :
    (token : Text) (now later : ℕ) (ss : List UserSession)
    → find? (opens token later) (
        update_where
          (token_is token)
          (λ (s : UserSession). record s { status = AuthStatus.revoked; revoked_at = some now })
          ss)
      ≡ none
unfolding update_where
no_login_left token now later [] = refl
no_login_left token now later (s ∷ ss) = ground (arith, no_login_left token now later ss)

-- A user who is logged in by a cookie and logs out is not logged in by that cookie at any time after.
pub logout_ends :
    (env : AuthEnv) (cookie ip : Text) (now later : ℕ) (d : Db) (u : UserRow)
    → current_user (env.hash_token cookie) now d ≡ some u
    → current_user (env.hash_token cookie) later (logout env (some cookie) ip now d) ≡ none
unfolding logout
logout_ends env cookie ip now later d u h =
    rw (h, current_user, no_login_left (env.hash_token cookie) now later d.user_sessions) refl

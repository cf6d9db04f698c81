-- ===== src/Access/Dav.antt =====
-- The WebDAV credentials of an access session in internal/access: assignDAVCredentialsTx up to its
-- UPDATE, davURLFromRequest and forwardedPrefix.
use archivon.Prelude.{ℕ, not, ◌++◌, ◌==◌, filter, Result, ok, ◌>>=◌, or_fail}
use archivon.Text.Trim.{Text, codes}
use archivon.Store.{DavCredentials}
use archivon.Store.Tx.{Failure, failure}
use archivon.Access.Env.{Env}

-- strings.ReplaceAll(sessionID, "-", "")
unfoldable pub without_dashes : Text → Text
without_dashes s = filter (λ c. not (c == b'-')) s

unfoldable pub new_dav_credentials : Env → (tenant session : ℕ) → Result Failure DavCredentials
unfolding without_dashes
new_dav_credentials env tenant session = do
  kms ← or_fail env.kms (failure "kms_not_configured")
  password ← env.new_dav_password
  hash ← env.bcrypt password
  sealed ← kms.encrypt_metadata password tenant session
  ok (record {
    username = codes "dav_" ++ without_dashes (env.of_uuid session);
    password_hash = hash;
    password_ciphertext = sealed.1;
    password_nonce = sealed.0;
  })

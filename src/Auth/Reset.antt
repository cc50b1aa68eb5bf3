-- ===== src/Auth/Reset.antt =====
-- RequestPasswordReset and ConfirmPasswordReset of internal/handlers/auth_handler.go.
use sukumad.Prelude.{if◌then◌else◌, ℤ, ◌+◌, Option, none, some}
use sukumad.Text.{Bytes, str}
use sukumad.Types.{PasswordResetRequest, PasswordResetConfirm}
use sukumad.Config.{Config}
use sukumad.Store.{Result, ok, err, Action, ◌>>=◌, ◌>>◌, pure, clock}
use sukumad.Web.{okay, bind_error, debug_token, Reply, reply, failure}
use sukumad.Accounts.Logins.{set_password, find_user_id_by_username_or_email}
use sukumad.Accounts.Tokens.{create_reset, use_reset}
use sukumad.Auth.Keys.{Crypto, new_reset_token, hash_reset_token}

-- The answer does not say whether the user is there, unless the service runs in debug mode.
unfoldable pub request_password_reset :
    Crypto → Config → Option Bytes → Option PasswordResetRequest → Action Reply
unfolding new_reset_token
request_password_reset crypto cfg random none = pure (reply 400 bind_error)
request_password_reset crypto cfg random (some req) =
    find_user_id_by_username_or_email req.username_or_email >>= λ found. elim found [
      | err _ ↦ pure (reply 200 okay)
      | ok uid ↦ elim (new_reset_token crypto random) [
        | none ↦ pure (failure 500 (str "could not create token"))
        | some (plain, hash) ↦ clock >>= λ now.
            create_reset uid hash (now + cfg.reset_ttl)
            >> pure (reply 200 (if cfg.debug then debug_token plain else okay))
      ]
    ]

-- What follows the use of the token.
unfoldable pub change_password : Crypto → PasswordResetConfirm → Result ℤ → Action Reply
change_password crypto req (err _) = pure (failure 400 (str "invalid or expired token"))
change_password crypto req (ok uid) =
    set_password crypto.hash_password uid req.new_password >>= λ changed. elim changed [
      | err _ ↦ pure (failure 500 (str "update failed"))
      | ok _ ↦ pure (reply 200 okay)
    ]

unfoldable pub confirm_password_reset : Crypto → Option PasswordResetConfirm → Action Reply
unfolding change_password
confirm_password_reset crypto none = pure (reply 400 bind_error)
confirm_password_reset crypto (some req) =
    use_reset (hash_reset_token crypto req.token) >>= change_password crypto req

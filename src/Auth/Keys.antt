-- ===== src/Auth/Keys.antt =====
-- internal/auth/jwt.go and rest.go: the tokens. The signing of a payload, bcrypt and SHA-256 are
-- arguments, and so are the random bytes.
use mathlib.Core.Option
use sukumad.Prelude.{if◌then◌else◌, drop, ℤ, ℕ, ◌+◌, Bool, Option, none, some, List, []}
use sukumad.Text.{Bytes, str, to_lower, trim_space, has_prefix}
use sukumad.Types.{Time}

-- What a token says, for both kinds of claims: the fields that a kind does not have are left out.
pub record Payload : Type 0 where
  pub user_id : ℤ
  pub username : Bytes
  pub role_id : Option ℤ
  pub perms : List Bytes
  pub jti : Bytes
  pub issuer : Bytes
  pub issued_at : Time
  pub expires_at : Time

pub record Claims : Type 0 where
  pub user_id : ℤ
  pub username : Bytes
  pub role_id : Option ℤ
  pub perms : List Bytes

pub record RefreshClaims : Type 0 where
  pub user_id : ℤ
  pub username : Bytes
  pub jti : Bytes

-- jwt's HS256 with a secret: `parse` checks the signature and the times at the clock's time.
pub record Crypto : Type 0 where
  pub sign_payload : Bytes → Payload → Option Bytes
  pub parse_payload : Bytes → Time → Bytes → Option Payload
  pub hash_password : Bytes → Option Bytes
  pub check_password : Bytes → Bytes → Bool
  pub hex_sha256 : Bytes → Bytes
  pub hex : Bytes → Bytes

unfoldable pub access_payload : Time → Bytes → ℕ → ℤ → Bytes → Option ℤ → List Bytes → Payload
access_payload now issuer ttl user_id username role_id perms = record {
  user_id = user_id;
  username = username;
  role_id = role_id;
  perms = perms;
  jti = [];
  issuer = issuer;
  issued_at = now;
  expires_at = now + ttl;
}

unfoldable pub sign_access :
    Crypto → Time → Bytes → Bytes → ℕ → ℤ → Bytes → Option ℤ → List Bytes → Option Bytes
unfolding access_payload
sign_access crypto now secret issuer ttl user_id username role_id perms =
    crypto.sign_payload secret (access_payload now issuer ttl user_id username role_id perms)

abbrev pub claims_of : Payload → Claims
claims_of p = record {
  user_id = p.user_id;
  username = p.username;
  role_id = p.role_id;
  perms = p.perms;
}

unfoldable pub parse_access : Crypto → Time → Bytes → Bytes → Option Claims
parse_access crypto now secret token = Option.map claims_of (crypto.parse_payload secret now token)

unfoldable pub refresh_payload : Time → Bytes → ℕ → ℤ → Bytes → Bytes → Payload
refresh_payload now issuer ttl user_id username jti = record {
  user_id = user_id;
  username = username;
  role_id = none;
  perms = [];
  jti = jti;
  issuer = issuer;
  issued_at = now;
  expires_at = now + ttl;
}

unfoldable pub sign_refresh :
    Crypto → Time → Bytes → Bytes → ℕ → ℤ → Bytes → Bytes → Option Bytes × Time
unfolding refresh_payload
sign_refresh crypto now secret issuer ttl user_id username jti =
    (crypto.sign_payload secret (refresh_payload now issuer ttl user_id username jti), now + ttl)

abbrev pub refresh_claims_of : Payload → RefreshClaims
refresh_claims_of p = record { user_id = p.user_id; username = p.username; jti = p.jti }

unfoldable pub parse_refresh : Crypto → Time → Bytes → Bytes → Option RefreshClaims
parse_refresh crypto now secret token =
    Option.map refresh_claims_of (crypto.parse_payload secret now token)

unfoldable pub new_jti : Crypto → Bytes → Bytes
new_jti crypto random = crypto.hex random

-- The token, and the hash that is stored; `none` where the system has no random bytes.
unfoldable pub new_reset_token : Crypto → Option Bytes → Option (Bytes × Bytes)
new_reset_token crypto none = none
new_reset_token crypto (some random) =
    let plain = crypto.hex random in some (plain, crypto.hex_sha256 plain)

unfoldable pub hash_reset_token : Crypto → Bytes → Bytes
hash_reset_token crypto plain = crypto.hex_sha256 plain

-- `h[len("Bearer "):]` of a header that has the prefix in any case, trimmed.
unfoldable pub bearer_token : Bytes → Option Bytes
bearer_token h =
    if has_prefix (to_lower h) (str "bearer ") then some (trim_space (drop 7 h)) else none

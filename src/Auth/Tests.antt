-- ===== src/Auth/Tests.antt =====
-- The theorems of the logins, applied to small tables.
use native.Mathlib.Decide.{ℕ_discrete}
use mathlib.Core.Option.{some-injective}
use mathlib.Core.Path.{subst}
use sukumad.Prelude.{
  if◌then◌else◌, find, countb, All, pos, ◌+◌, ◌*◌, ◌≤◌, ◌<◌, ◌≡◌, refl, sym, ap, ◌↔◌, ◌⊎◌, true,
  Option, none, some, List, [], ◌∷◌, arith,
}
use sukumad.Text.{Bytes, str, text_eq, trim_space}
use sukumad.Types.{Time, LoginRequest, PasswordResetConfirm}
use sukumad.Store.{UserRow, ResetToken, World, exec, query}
use sukumad.Config.{default_config}
use sukumad.Accounts.Users.{has_username, ordered}
use sukumad.Accounts.Tokens.{is_usable, use_reset}
use sukumad.Auth.Ip.{in_cidr, is_ip_allowed, cors_from_config, Passes, is_ip_allowed_iff}
use sukumad.Auth.Attempts.{allow_attempt, allowed, no_calls, later, within, allow_attempt-bounded}
use sukumad.Auth.Keys.{
  Payload, Claims, access_payload, parse_access, refresh_payload, hash_reset_token, bearer_token,
}
use sukumad.Auth.Authz.{passes, authn, require_perm, then_gate, Holds, admin_gate_iff}
use sukumad.Auth.Login.{Packages, second, week, attempt_key, login}
use sukumad.Auth.Admission.{Admitted, login-Admitted}
use sukumad.Samples.{no_rows_db, world_of, row_1, toy_crypto, toy_net, toy_packages, from_1}
use sukumad.Accounts.Logins.{get_with_hash_by_username, set_password}
use sukumad.Auth.Cors.{LetsIn, five_headers, cors_from_config_iff}
use sukumad.Auth.Recovery.{IsReset, confirm_password_reset-IsReset}
use sukumad.Auth.Reset.{confirm_password_reset}
use sukumad.Accounts.Once.{IsSpent}
use sukumad.Auth.Bearing.{whole_seconds, in_seconds, JwtLaws, bearing, codes_at_login, login-tokens}
use sukumad.Accounts.Grants.{list_effective_permissions}

abbrev anywhere : List Bytes
anywhere = []

is_ip_allowed_iff_example : (is_ip_allowed toy_net (str "1") anywhere (str "9" ∷ []) ≡ true) ↔ (
    (ip : Bytes) × (toy_net.parse_ip (str "1") ≡ some ip)
    × ¬ Passes (in_cidr toy_net ip) (str "9" ∷ [])
    × ((anywhere ≡ []) ⊎ Passes (in_cidr toy_net ip) anywhere))
is_ip_allowed_iff_example = is_ip_allowed_iff toy_net (str "1") anywhere (str "9" ∷ [])

abbrev calls : List (Bytes × Time)
calls = (str "a", 1) ∷ (str "b", 2) ∷ (str "a", 3) ∷ (str "a", 4) ∷ []

allow_attempt-bounded_example : countb (within (str "a") 10 1) (allowed 2 10 calls []) ≤ 2
allow_attempt-bounded_example =
    allow_attempt-bounded 2 10 0 calls [] (str "a") 1 (
      later (omega arith)
        (later (omega arith) (later (omega arith) (later (omega arith) no_calls))))

abbrev ann : LoginRequest
ann = record { username = str "ann"; password = str "pw" }

abbrev with_user : World
with_user = world_of (record no_rows_db { users = row_1 ∷ [] })

login-Admitted_example :
    ((allow_attempt (attempt_key from_1 ann) 5 (300 * second) 1000 []).0 ≡ true)
    × ((row : UserRow) × (find (has_username (str "ann")) with_user.db.users ≡ some row)
        × Admitted toy_packages from_1 ann 1000 row)
unfolding login get_with_hash_by_username query text_eq str trim_space
login-Admitted_example =
    login-Admitted toy_packages default_config (str "j") from_1 ann [] with_user refl

abbrev admin_claims : Claims
admin_claims = record {
  user_id = pos 1;
  username = str "ann";
  role_id = none;
  perms = str "admin" ∷ [];
}

admin_gate_iff_example :
    (then_gate (authn toy_crypto default_config 1000 from_1) (require_perm (str "admin"))
      ≡ passes (some admin_claims))
    ↔ ((token : Bytes) × (bearer_token (str "Bearer t") ≡ some token)
        × (parse_access toy_crypto 1000 default_config.jwt_secret token ≡ some admin_claims)
        × Holds admin_claims (str "admin"))
admin_gate_iff_example =
    admin_gate_iff toy_crypto default_config 1000 from_1 (str "admin") admin_claims

cors_from_config_iff_example :
    let list = str "http://A" ∷ [] in
    let c = cors_from_config list (str "http://a") (str "GET") in
    ((c.headers ≡ five_headers (str "http://a")) ↔ LetsIn list (str "http://a"))
    × ((c.headers ≡ []) ↔ ¬ LetsIn list (str "http://a"))
unfolding str
cors_from_config_iff_example =
    cors_from_config_iff (str "http://A" ∷ []) (str "http://a") (str "GET") (ground arith)
      (ground arith)

abbrev confirmed : PasswordResetConfirm
confirmed = record { token = str "h"; new_password = str "new" }

abbrev reset_token : ResetToken
reset_token = record { user_id = pos 1; token_hash = str "h"; expires_at = 2000; used_at = none }

abbrev forgotten : World
forgotten = world_of (record no_rows_db { users = row_1 ∷ []; reset_tokens = reset_token ∷ [] })

confirm_password_reset-IsReset_example :
    let w' = (confirm_password_reset toy_crypto (some confirmed) forgotten).1 in
    let key = hash_reset_token toy_crypto (str "h") in
    (t : ResetToken) × (find (is_usable 1000 key) forgotten.db.reset_tokens ≡ some t)
    × ((hash : Bytes) × (toy_crypto.hash_password (str "new") ≡ some hash)
        × All (IsReset t.user_id hash) w'.db.users)
    × IsSpent key w'.db.reset_tokens 1000
unfolding confirm_password_reset use_reset exec text_eq str hash_reset_token set_password
confirm_password_reset-IsReset_example =
    confirm_password_reset-IsReset toy_crypto confirmed forgotten refl refl

abbrev payload_1 : Payload
payload_1 =
    access_payload 1000 (str "sukumad") 86_400_000_000_000 (pos 1) (str "ann") (some (pos 1)) []

abbrev payload_2 : Payload
payload_2 = refresh_payload 1000 (str "sukumad") 604_800_000_000_000 (pos 1) (str "ann") (str "j")

Payload-discrete : Discrete Payload
Payload-discrete = hlevel (ℕ_discrete)

-- A toy of the tokens that knows two payloads.
abbrev signed : {A B : Type 0} → Dec A → Dec B → Option Bytes
signed (yes _) y = some (str "a")
signed (no _) (yes _) = some (str "r")
signed (no _) (no _) = none

sign_two : Payload → Option Bytes
sign_two p = signed (Payload-discrete p payload_1) (Payload-discrete p payload_2)

abbrev parse_two : Bytes → Option Payload
parse_two token =
    if text_eq token (str "a")
    then some (in_seconds payload_1)
    else if text_eq token (str "r")
    then some (in_seconds payload_2)
    else none

abbrev two_tokens : Packages
two_tokens = record toy_packages {
  crypto = record toy_crypto {
    sign_payload = λ secret p. sign_two p;
    parse_payload = λ secret at token. parse_two token;
  };
}

parse_two-signed :
    (p : Payload) (token : Bytes) (x : Dec (p ≡ payload_1)) (y : Dec (p ≡ payload_2))
    → signed x y ≡ some token
    → (parse_two token ≡ some (in_seconds p)) × (trim_space token ≡ token)
unfolding str text_eq trim_space
parse_two-signed p token (yes h) y e =
    subst (λ t. (parse_two t ≡ some (in_seconds p)) × (trim_space t ≡ t)) (some-injective _ _ e)
      (ap (λ q. some (in_seconds q)) (sym h), refl)
parse_two-signed p token (no _) (yes h) e =
    subst (λ t. (parse_two t ≡ some (in_seconds p)) × (trim_space t ≡ t)) (some-injective _ _ e)
      (ap (λ q. some (in_seconds q)) (sym h), refl)
parse_two-signed p token (no _) (no _) e = absurd (cc)

two_tokens-JwtLaws : JwtLaws two_tokens.crypto default_config.jwt_secret
unfolding sign_two
two_tokens-JwtLaws = record {
  parses = λ p token at e _ _. (parse_two-signed p token _ _ e).0;
  trimmed = λ p token e. (parse_two-signed p token _ _ e).1;
}

login-tokens_example :
    (row : UserRow) × (find (has_username (str "ann")) with_user.db.users ≡ some row)
    × (2000 < whole_seconds (1000 + default_config.jwt_expiry)
        → authn two_tokens.crypto default_config 2000 (bearing from_1 (str "a"))
          ≡ passes (
              some (record {
                user_id = row.user.id;
                username = row.user.username;
                role_id = row.user.user_role;
                perms = codes_at_login with_user row.user;
              })))
    × (2000 < whole_seconds (1000 + week)
        → authn two_tokens.crypto default_config 2000 (bearing from_1 (str "r"))
          ≡ passes (
              some (record {
                user_id = row.user.id;
                username = row.user.username;
                role_id = none;
                perms = [];
              })))
unfolding login get_with_hash_by_username query text_eq str trim_space sign_two Payload-discrete
    ℕ_discrete list_effective_permissions ordered default_config
login-tokens_example =
    login-tokens two_tokens default_config (str "j") from_1 ann [] with_user (str "a") (str "r")
      2000 two_tokens-JwtLaws refl (omega arith)

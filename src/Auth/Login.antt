-- ===== src/Auth/Login.antt =====
-- Login, Refresh and Logout of internal/handlers/auth_handler.go. A handler runs at one time of the
-- clock; `random` is what crypto/rand yields for it.
use sukumad.Prelude.{
  ltb, if◌then◌else◌, coalesce, ℤ, ℕ, ◌+◌, ◌*◌, Bool, true, not, Option, none, some, List, [], ◌++◌,
  map,
}
use sukumad.Text.{Bytes, str}
use sukumad.Types.{Time, Permission, User, LoginRequest}
use sukumad.Config.{Config}
use sukumad.Store.{UserRow, Result, ok, err, Action, ◌>>=◌, ◌>>◌, pure, clock}
use sukumad.Web.{okay, bind_error, locked, tokens, Reply, reply, failure, Caller}
use sukumad.Accounts.Logins.{
  get_with_hash_by_username, record_login_success, record_login_failure,
  record_login_failure_with_lockout, clear_failures_and_unlock,
}
use sukumad.Accounts.Grants.{list_effective_permissions}
use sukumad.Accounts.Tokens.{create_refresh, revoke, is_active, revoke_all_for_user}
use sukumad.Auth.Ip.{Net, is_ip_allowed}
use sukumad.Auth.Attempts.{Attempts, allow_attempt, allowed}
use sukumad.Auth.Keys.{
  Claims, RefreshClaims, Crypto, sign_access, sign_refresh, parse_refresh, new_jti, bearer_token,
}

-- The packages that the handlers call.
pub record Packages : Type 0 where
  pub crypto : Crypto
  pub net : Net

abbrev pub second : ℕ
second = 1_000_000_000

abbrev pub week : ℕ
week = 604_800 * second

-- The key of the limiter.
unfoldable pub attempt_key : Caller → LoginRequest → Bytes
attempt_key caller req = caller.client_ip ++ (str "|" ++ req.username)

-- `perms, _ := …`: no permissions where the query fails.
abbrev pub codes_of : Result (List Permission) → List Bytes
codes_of (err _) = []
codes_of (ok perms) = map (λ p. p.code) perms

-- The two tokens of a user.
unfoldable pub issue :
    Packages → Config → Time → Bytes → User → List Bytes → Option (Bytes × Bytes × Bytes)
unfolding sign_access sign_refresh new_jti
issue pk cfg now random u codes =
    let jti = new_jti pk.crypto random in
    elim (sign_access pk.crypto now cfg.jwt_secret cfg.jwt_issuer cfg.jwt_expiry u.id u.username
      u.user_role codes) [
        | none ↦ none
        | some access ↦
            elim (sign_refresh pk.crypto now cfg.jwt_secret cfg.jwt_issuer week u.id u.username
              jti).0 [ none ↦ none | some refresh ↦ some (access, refresh, jti) ]
      ]

-- What follows the check of the password: its effects on the tables, and the tokens.
unfoldable pub admit : Packages → Config → Bytes → User → Action Reply
unfolding issue
admit pk cfg random u = list_effective_permissions u.id >>= λ perms. clock >>= λ now.
    elim (issue pk cfg now random u (codes_of perms)) [
      | none ↦ pure (failure 500 (str "login failed"))
      | some (access, refresh, jti) ↦
          record_login_success u.id
          >> clear_failures_and_unlock u.id
          >> create_refresh u.id jti (now + week)
          >> pure (reply 200 (tokens access refresh))
    ]

-- `user.LockedUntil != nil && time.Now().Before(*user.LockedUntil)`
unfoldable pub locked_at : Time → User → Option Time
locked_at now u = elim u.locked_until [
  | none ↦ none
  | some until ↦ if ltb now until then some until else none
]

unfoldable pub check_user :
    Packages → Config → Bytes → Caller → LoginRequest → UserRow → Action Reply
unfolding admit locked_at is_ip_allowed record_login_failure record_login_failure_with_lockout
check_user pk cfg random caller req row w =
    if not (coalesce row.user.is_active true)
    then (record_login_failure req.username >> pure (failure 401 (str "invalid credentials"))) w
    else if not (is_ip_allowed pk.net caller.client_ip row.user.allowed_ips row.user.denied_ips)
    then (record_login_failure req.username >> pure (failure 401 (str "ip not allowed"))) w
    else elim (locked_at w.now row.user) [
      | some until ↦ (reply 401 (locked until), w)
      | none ↦
          if pk.crypto.check_password row.password_hash req.password
          then admit pk cfg random row.user w
          else (record_login_failure_with_lockout req.username w.now cfg.lockout_threshold
                  cfg.lockout_window cfg.lockout_duration
                >> pure (failure 401 (str "invalid credentials")))
              w
    ]

-- The handler behind the limiter.
unfoldable pub authenticate : Packages → Config → Bytes → Caller → LoginRequest → Action Reply
unfolding check_user
authenticate pk cfg random caller req = get_with_hash_by_username req.username >>= λ found.
    elim found [
      | err _ ↦ record_login_failure req.username >> pure (failure 401 (str "invalid credentials"))
      | ok row ↦ check_user pk cfg random caller req row
    ]

unfoldable pub login :
    Packages → Config → Bytes → Caller → Option LoginRequest → Attempts → Action (Reply × Attempts)
unfolding authenticate allow_attempt attempt_key
login pk cfg random caller none m w = ((reply 400 bind_error, m), w)
login pk cfg random caller (some req) m w =
    let (allowed, m') = allow_attempt (attempt_key caller req) 5 (300 * second) w.now m in
    if allowed
    then (let (r, w') = authenticate pk cfg random caller req w in ((r, m'), w'))
    else ((failure 429 (str "too many attempts"), m'), w)

-- The new tokens are stored, if they could be signed.
unfoldable pub hand_out : ℤ → Time → Option (Bytes × Bytes × Bytes) → Action Reply
hand_out uid now none = pure (failure 500 (str "refresh failed"))
hand_out uid now (some (access, refresh, jti)) =
    create_refresh uid jti (now + week) >> pure (reply 200 (tokens access refresh))

unfoldable pub renew : Packages → Config → Bytes → Result UserRow → Action Reply
unfolding issue hand_out
renew pk cfg random (err _) = pure (failure 401 (str "invalid user"))
renew pk cfg random (ok row) = list_effective_permissions row.user.id >>= λ perms.
    clock >>= λ now. hand_out row.user.id now (issue pk cfg now random row.user (codes_of perms))

-- After the check that the old token is live: it is revoked whatever follows.
unfoldable pub rotate : Packages → Config → Bytes → RefreshClaims → Action Reply
unfolding renew
rotate pk cfg random claims =
    revoke claims.jti >> get_with_hash_by_username claims.username >>= renew pk cfg random

-- `err != nil || !active`
unfoldable pub rotate_live : Packages → Config → Bytes → RefreshClaims → Result Bool → Action Reply
unfolding rotate
rotate_live pk cfg random claims (ok true) = rotate pk cfg random claims
rotate_live pk cfg random claims _ = pure (failure 401 (str "refresh not active"))

unfoldable pub refresh_tokens : Packages → Config → Bytes → Caller → Action Reply
unfolding rotate_live
refresh_tokens pk cfg random caller w = elim (bearer_token caller.authorization) [
  | none ↦ (failure 401 (str "missing refresh token"), w)
  | some token ↦ elim (parse_refresh pk.crypto w.now cfg.jwt_secret token) [
    | none ↦ (failure 401 (str "invalid refresh"), w)
    | some claims ↦ (is_active claims.jti >>= rotate_live pk cfg random claims) w
  ]
]

-- Behind `authn`, whose claims it takes.
unfoldable pub logout : Option Claims → Action Reply
logout none = pure (failure 401 (str "not authenticated"))
logout (some claims) = revoke_all_for_user claims.user_id >>= λ done. elim done [
  | err _ ↦ pure (failure 500 (str "logout failed"))
  | ok _ ↦ pure (reply 200 okay)
]

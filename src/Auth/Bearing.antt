-- ===== src/Auth/Bearing.antt =====
-- What the tokens of a login open.
use mathlib.Core.Path.{subst}
use sukumad.Prelude.{
  Bool-cases, Option-cases, find, ℤ, ◌+◌, ◌*◌, ◌/◌, ◌≤◌, ◌<◌, ◌≡◌, refl, sym, ap, inl, inr, none,
  some, List, [], ◌++◌, arith,
}
use sukumad.Text.{Bytes, str, to_lower, trim_space, has_prefix}
use sukumad.Types.{Time, User, LoginRequest}
use sukumad.Config.{Config}
use sukumad.Store.{UserRow, Db, Result, ok, World, next_fault, later_faults, exec, query}
use sukumad.Web.{tokens, Reply, reply, Caller}
use sukumad.Accounts.Grants.{effective, list_effective_permissions}
use sukumad.Auth.Keys.{
  Payload, Crypto, access_payload, sign_access, claims_of, refresh_payload, sign_refresh, new_jti,
}
use sukumad.Auth.Authz.{passes, authn}
use sukumad.Auth.Login.{
  Packages, second, week, attempt_key, codes_of, issue, admit, check_user, authenticate, login,
}
use sukumad.Auth.Admission.{check_user_lem}
use sukumad.Auth.Attempts.{Attempts, allow_attempt}
use sukumad.Accounts.Users.{has_username}
use sukumad.Accounts.Logins.{get_with_hash_by_username}

-- A time without its fraction of a second: jwt's NumericDate.
abbrev pub whole_seconds : Time → Time
whole_seconds t = t / second * second

abbrev pub in_seconds : Payload → Payload
in_seconds p = record p {
  issued_at = whole_seconds p.issued_at;
  expires_at = whole_seconds p.expires_at;
}

-- What golang-jwt documents of HS256: a payload of UTF-8 texts that was signed parses from its token
-- with the same secret, its times cut to seconds, from the time of its issue until the second in
-- which it expires; and a token has no white space.
pub record JwtLaws (crypto : Crypto) (secret : Bytes) : Type 0 where
  pub parses :
      (p : Payload) (token : Bytes) (at : Time)
      → crypto.sign_payload secret p ≡ some token
      → p.issued_at ≤ at
      → at < whole_seconds p.expires_at
      → crypto.parse_payload secret at token ≡ some (in_seconds p)
  pub trimmed :
      (p : Payload) (token : Bytes)
      → crypto.sign_payload secret p ≡ some token
      → trim_space token ≡ token

abbrev pub bearing : Caller → Bytes → Caller
bearing caller token = record caller { authorization = str "Bearer " ++ token }

module _ (crypto : Crypto) (cfg : Config) (laws : JwtLaws crypto cfg.jwt_secret) where
  -- A token that was signed gets past the first gate, while it is in its time.
  signed-authn :
      (p : Payload) (token : Bytes) (moment : Time) (caller : Caller)
      → crypto.sign_payload cfg.jwt_secret p ≡ some token
      → p.issued_at ≤ moment
      → moment < whole_seconds p.expires_at
      → authn crypto cfg moment (bearing caller token) ≡ passes (some (claims_of p))
  unfolding authn str to_lower has_prefix
  signed-authn p token moment caller s from till =
      let parsed : crypto.parse_payload cfg.jwt_secret moment (trim_space token)
          ≡ some (in_seconds p) =
        subst (λ t. crypto.parse_payload cfg.jwt_secret moment t ≡ some (in_seconds p))
          (sym (laws.trimmed p token s)) (laws.parses p token moment s from till) in
      ground (arith, parsed)

-- The two payloads of `issue`.
issue-signed :
    (pk : Packages) (cfg : Config) (now : Time) (random : Bytes) (u : User) (codes : List Bytes)
    (access refresh jti : Bytes)
    → issue pk cfg now random u codes ≡ some (access, refresh, jti)
    → (pk.crypto.sign_payload cfg.jwt_secret
          (access_payload now cfg.jwt_issuer cfg.jwt_expiry u.id u.username u.user_role codes)
        ≡ some access)
      × (pk.crypto.sign_payload cfg.jwt_secret
            (refresh_payload now cfg.jwt_issuer week u.id u.username (new_jti pk.crypto random))
          ≡ some refresh)
unfolding issue sign_access sign_refresh
issue-signed pk cfg now random u codes access refresh jti e =
    let a =
      pk.crypto.sign_payload cfg.jwt_secret
        (access_payload now cfg.jwt_issuer cfg.jwt_expiry u.id u.username u.user_role codes) in
    let r =
      pk.crypto.sign_payload cfg.jwt_secret
        (refresh_payload now cfg.jwt_issuer week u.id u.username (new_jti pk.crypto random)) in
    elim (Option-cases a) [
      | inl n ↦ absurd (ground (arith, n, e))
      | inr (x, n) ↦ elim (Option-cases r) [
        | inl m ↦ absurd (ground (arith, n, m, e))
        | inr (y, m) ↦ ground (arith, n, m, e)
      ]
    ]

exec-now {ℓ} :
    {A : Type ℓ} (stmt : Time → Db → Result A × Db) (w : World) → (exec stmt w).1.now ≡ w.now
unfolding exec
exec-now stmt w = elim (Bool-cases (next_fault w.faults)) [ inl e ↦ rw e refl | inr e ↦ rw e refl ]

list_effective_permissions-now :
    (uid : ℤ) (w : World) → (list_effective_permissions uid w).1.now ≡ w.now
unfolding list_effective_permissions query
list_effective_permissions-now uid w = exec-now (λ now db. (ok (effective uid db), db)) w

admit-tokens :
    (pk : Packages) (cfg : Config) (random : Bytes) (u : User) (access refresh : Bytes) (w : World)
    → (admit pk cfg random u w).0 ≡ reply 200 (tokens access refresh)
    → (jti : Bytes) × (issue pk cfg w.now random u (codes_of (list_effective_permissions u.id w).0)
        ≡ some (access, refresh, jti))
unfolding admit
admit-tokens pk cfg random u access refresh w h =
    let (perms, w') = list_effective_permissions u.id w in
    let same = list_effective_permissions-now u.id w in
    subst
      (λ t.
        (jti : Bytes) × (issue pk cfg t random u (codes_of perms) ≡ some (access, refresh, jti)))
      same
      (elim (Option-cases (issue pk cfg w'.now random u (codes_of perms))) [
        | inl n ↦ absurd (ground (arith, n, h))
        | inr ((x, y, jti), n) ↦ (jti, ground (arith, n, h))
      ])

-- The answer with tokens is that of `admit`.
check_user-tokens :
    (pk : Packages) (cfg : Config) (random : Bytes) (caller : Caller) (req : LoginRequest)
    (row : UserRow) (access refresh : Bytes) (w : World)
    → (check_user pk cfg random caller req row w).0 ≡ reply 200 (tokens access refresh)
    → (admit pk cfg random row.user w).0 ≡ reply 200 (tokens access refresh)
unfolding check_user
check_user-tokens pk cfg random caller req row access refresh w h =
    let v = check_user_lem pk cfg random caller req row w (ap (λ (r : Reply). r.code) h) in
    ground (arith, v.is_active, v.ip_allowed, v.not_locked, v.password, h)

-- The codes that the user holds when the password has been checked.
abbrev pub codes_at_login : World → User → List Bytes
codes_at_login w u =
    codes_of (list_effective_permissions u.id (record w { faults = later_faults w.faults })).0

authenticate-issue :
    (pk : Packages) (cfg : Config) (random : Bytes) (caller : Caller) (req : LoginRequest)
    (access refresh : Bytes) (w : World)
    → (authenticate pk cfg random caller req w).0 ≡ reply 200 (tokens access refresh)
    → (row : UserRow) × (jti : Bytes) × (find (has_username req.username) w.db.users ≡ some row)
      × (issue pk cfg w.now random row.user (codes_at_login w row.user)
          ≡ some (access, refresh, jti))
unfolding authenticate get_with_hash_by_username query exec
authenticate-issue pk cfg random caller req access refresh w h =
    elim (Bool-cases (next_fault w.faults)) [
      | inl f ↦ absurd (ground (arith, f, h))
      | inr f ↦ elim (Option-cases (find (has_username req.username) w.db.users)) [
        | inl n ↦ absurd (ground (arith, f, n, h))
        | inr (row, n) ↦
            let w' = record w { faults = later_faults w.faults } in
            let admitted =
              check_user-tokens pk cfg random caller req row access refresh w'
                (ground (arith, f, n, h)) in
            let (jti, e) = admit-tokens pk cfg random row.user access refresh w' admitted in
            (row, jti, n, e)
      ]
    ]

-- If tokens parse as golang-jwt documents, then both tokens of a login get past the gate of the
-- routes without a permission: the access token, until the second in which it expires, as the user
-- with the role and the codes that the database gave at the login, and the refresh token too, until
-- the same second a week later, as the same user with no code.
pub login-tokens :
    (pk : Packages) (cfg : Config) (random : Bytes) (caller : Caller) (req : LoginRequest)
    (m : Attempts) (w : World) (access refresh : Bytes) (moment : Time)
    → JwtLaws pk.crypto cfg.jwt_secret
    → (login pk cfg random caller (some req) m w).0.0 ≡ reply 200 (tokens access refresh)
    → w.now ≤ moment
    → (row : UserRow) × (find (has_username req.username) w.db.users ≡ some row)
      × (moment < whole_seconds (w.now + cfg.jwt_expiry)
          → authn pk.crypto cfg moment (bearing caller access)
            ≡ passes (
                some (record {
                  user_id = row.user.id;
                  username = row.user.username;
                  role_id = row.user.user_role;
                  perms = codes_at_login w row.user;
                })))
      × (moment < whole_seconds (w.now + week)
          → authn pk.crypto cfg moment (bearing caller refresh)
            ≡ passes (
                some (record {
                  user_id = row.user.id;
                  username = row.user.username;
                  role_id = none;
                  perms = [];
                })))
unfolding login access_payload refresh_payload
login-tokens pk cfg random caller req m w access refresh moment laws h from =
    elim (Bool-cases (allow_attempt (attempt_key caller req) 5 (300 * second) w.now m).0) [
      | inr e ↦ absurd (ground (arith, e, h))
      | inl e ↦
          let (row, jti, n, issued) =
            authenticate-issue pk cfg random caller req access refresh w (ground (arith, e, h)) in
          let u = row.user in
          let codes = codes_at_login w u in
          let (a, r) = issue-signed pk cfg w.now random u codes access refresh jti issued in
          (
            row,
            n,
            λ till. signed-authn pk.crypto cfg laws _ access moment caller a from till,
            λ till. signed-authn pk.crypto cfg laws _ refresh moment caller r from till,
          )
    ]

-- ===== src/Auth/Admission.antt =====
-- What a login that succeeds has passed.
use sukumad.Prelude.{
  Bool-cases, Option-cases, coalesce, find, ◌*◌, ◌≡◌, inl, inr, true, none, some, arith,
}
use sukumad.Text.{Bytes}
use sukumad.Types.{Time, LoginRequest}
use sukumad.Config.{Config}
use sukumad.Store.{UserRow, World, next_fault, later_faults, exec, query}
use sukumad.Web.{Caller}
use sukumad.Accounts.Users.{has_username}
use sukumad.Accounts.Logins.{get_with_hash_by_username}
use sukumad.Auth.Ip.{is_ip_allowed}
use sukumad.Auth.Attempts.{Attempts, allow_attempt}
use sukumad.Auth.Login.{Packages, second, attempt_key, locked_at, check_user, authenticate, login}

-- The checks of the handler, as one predicate of the user's row.
pub record Admitted (pk : Packages) (caller : Caller) (req : LoginRequest) (now : Time)
    (row : UserRow) : Type 0 where
  pub is_active : coalesce row.user.is_active true ≡ true
  pub ip_allowed :
      is_ip_allowed pk.net caller.client_ip row.user.allowed_ips row.user.denied_ips ≡ true
  pub not_locked : locked_at now row.user ≡ none
  pub password : pk.crypto.check_password row.password_hash req.password ≡ true

pub check_user_lem :
    (pk : Packages) (cfg : Config) (random : Bytes) (caller : Caller) (req : LoginRequest)
    (row : UserRow) (w : World)
    → (check_user pk cfg random caller req row w).0.code ≡ 200
    → Admitted pk caller req w.now row
unfolding check_user
check_user_lem pk cfg random caller req row w h =
    elim (Bool-cases (coalesce row.user.is_active true)) [
      | inr e ↦ absurd (ground (arith, e, h))
      | inl e₁ ↦
          elim (Bool-cases
            (is_ip_allowed pk.net caller.client_ip row.user.allowed_ips row.user.denied_ips)) [
              | inr e ↦ absurd (ground (arith, e, e₁, h))
              | inl e₂ ↦ elim (Option-cases (locked_at w.now row.user)) [
                | inr (u, e) ↦ absurd (ground (arith, e, e₁, e₂, h))
                | inl e₃ ↦
                    elim (Bool-cases (pk.crypto.check_password row.password_hash req.password)) [
                      | inr e ↦ absurd (ground (arith, e, e₁, e₂, e₃, h))
                      | inl e₄ ↦ record {
                        is_active = e₁;
                        ip_allowed = e₂;
                        not_locked = e₃;
                        password = e₄;
                      }
                    ]
              ]
            ]
    ]

-- A login that answers 200 was let through by the limiter, and the table has a row of that name
-- whose user is not inactive, is not locked at that time, may come from the caller's address, and
-- has a hash that the password passes.
pub login-Admitted :
    (pk : Packages) (cfg : Config) (random : Bytes) (caller : Caller) (req : LoginRequest)
    (m : Attempts) (w : World)
    → (login pk cfg random caller (some req) m w).0.0.code ≡ 200
    → ((allow_attempt (attempt_key caller req) 5 (300 * second) w.now m).0 ≡ true)
      × ((row : UserRow) × (find (has_username req.username) w.db.users ≡ some row)
          × Admitted pk caller req w.now row)
unfolding login authenticate get_with_hash_by_username query exec
login-Admitted pk cfg random caller req m w h =
    elim (Bool-cases (allow_attempt (attempt_key caller req) 5 (300 * second) w.now m).0) [
      | inr e ↦ absurd (ground (arith, e, h))
      | inl e ↦ elim (Bool-cases (next_fault w.faults)) [
        | inl f ↦ absurd (ground (arith, e, f, h))
        | inr f ↦ elim (Option-cases (find (has_username req.username) w.db.users)) [
          | inl n ↦ absurd (ground (arith, e, f, n, h))
          | inr (row, n) ↦ (
            e,
            (
              row,
              n,
              check_user_lem pk cfg random caller req row
                  (record w { faults = later_faults w.faults }) (ground (arith, e, f, n, h)),
            ),
          )
        ]
      ]
    ]

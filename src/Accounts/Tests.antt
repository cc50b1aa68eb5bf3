-- ===== src/Accounts/Tests.antt =====
-- The theorems of the accounts, applied to small tables.
use sukumad.Prelude.{
  find, any, pos, ◌+◌, ◌<◌, ◌≡◌, refl, true, false, ◌&&◌, none, some, [], ◌∷◌, arith,
}
use sukumad.Text.{str, text_eq}
use sukumad.Types.{Role, Permission}
use sukumad.Store.{UserRow, ResetToken, World, exec, is_ok}
use sukumad.Accounts.Grants.{
  has_permission_id, grant_user_permission, revoke_user_permission, by_role,
}
use sukumad.Accounts.Tokens.{is_usable, use_reset}
use sukumad.Accounts.Lockout.{fail_at, fail_at-locks}
use sukumad.Accounts.Once.{IsSpent, use_reset_once}
use sukumad.Accounts.Effective.{holds_now, grant-revoke_effective}
use sukumad.Samples.{no_rows_db, world_of, user_1, row_1}
use sukumad.Accounts.Calls.{
  creates_user, deletes_user, fails, creates_role, deletes_role, creates_refresh, call, none_yet,
  calls_next, time_goes,
}
use sukumad.Accounts.Links.{IsLinked}
use sukumad.Accounts.Links.Always.{Calls-IsLinked}

-- One wrong password, a pause, and then three where two are too many.
abbrev once_failed : UserRow
once_failed = record {
  user = record user_1 { failed_attempts = some 1; last_failed_at = some 5 };
  password_hash = str "pw";
}

fail_at-locks_example :
    let r' = fail_at 2 100 50 (200 ∷ 210 ∷ 220 ∷ []) once_failed in
    (r'.user.failed_attempts ≡ some 3) × (r'.user.locked_until ≡ some 270)
fail_at-locks_example =
    fail_at-locks 2 100 50 200 (210 ∷ 220 ∷ []) once_failed (omega arith)
      (omega arith, (omega arith, tt))

abbrev a_token : ResetToken
a_token = record { user_id = pos 1; token_hash = str "h"; expires_at = 2000; used_at = none }

abbrev with_token : World
with_token = world_of (record no_rows_db { users = row_1 ∷ []; reset_tokens = a_token ∷ [] })

use_reset_once_example :
    ((t : ResetToken) × (find (is_usable 1000 (str "h")) with_token.db.reset_tokens ≡ some t)
      × (t.user_id ≡ pos 1)
      × (t.used_at ≡ none)
      × (1000 < t.expires_at))
    × IsSpent (str "h") (use_reset (str "h") with_token).1.db.reset_tokens 1000
unfolding use_reset exec is_usable str text_eq
use_reset_once_example = use_reset_once (str "h") with_token (pos 1) refl

abbrev admin_perm : Permission
admin_perm = record {
  id = pos 7;
  name = str "Admin";
  code = str "admin";
  system_module = str "System";
  created = none;
  updated = none;
}

abbrev with_perm : World
with_perm = world_of (record no_rows_db { users = row_1 ∷ []; permissions = admin_perm ∷ [] })

grant-revoke_effective_example :
    (is_ok (grant_user_permission (pos 1) (pos 7) with_perm).0 ≡ true
      → holds_now (pos 1) (pos 7) (grant_user_permission (pos 1) (pos 7) with_perm).1.db ≡ true)
    × (holds_now (pos 1) (pos 7) (revoke_user_permission (pos 1) (pos 7) with_perm).1.db ≡ (
        any (has_permission_id (pos 7)) with_perm.db.permissions
        && by_role (pos 1) (pos 7) with_perm.db))
grant-revoke_effective_example = grant-revoke_effective (pos 1) (pos 7) with_perm refl

no_rows-IsLinked : IsLinked no_rows_db
no_rows-IsLinked = record {
  roles = tt;
  holders = tt;
  held = tt;
  role_holders = tt;
  role_held = tt;
  refreshes = tt;
  resets = tt;
  names = λ name. omega arith;
  jtis = λ jti. omega arith;
  hashes = λ hash. omega arith;
}

abbrev editor : Role
editor = record { id = pos 0; name = str "e"; description = none; created = none; updated = none }

-- A role, a user of it with a token, a failed login, and then the role goes and the user too.
Calls-IsLinked_example :
    let with_role = call (creates_role editor) (world_of no_rows_db) in
    let user = record user_1 { user_role = some (pos 1); password = some (str "pw") } in
    let w =
      call
        (creates_refresh (pos 1) (str "t") 5000)
        (call (creates_user (λ pw. some pw) user) with_role) in
    let v = call (fails (str "ann")) (record w { now = w.now + 7; faults = false ∷ [] }) in
    IsLinked (call (deletes_user (pos 1)) (call (deletes_role (pos 1)) v)).db
Calls-IsLinked_example =
    let user = record user_1 { user_role = some (pos 1); password = some (str "pw") } in
    Calls-IsLinked
      (calls_next (deletes_user (pos 1)) tt (
        calls_next (deletes_role (pos 1)) tt (
          calls_next (fails (str "ann")) tt (
            time_goes 7 (false ∷ []) (
              calls_next (creates_refresh (pos 1) (str "t") 5000) tt (
                calls_next (creates_user (λ pw. some pw) user) tt
                  (calls_next (creates_role editor) tt none_yet)))))))
      no_rows-IsLinked

-- ===== src/Accounts/Logins.antt =====
-- internal/repo/user_repo.go: the columns of `users` that a login reads and writes. The counter
-- and the durations are natural numbers, `now()` is the time of the statement.
use mathlib.Core.Option
use sukumad.Prelude.{
  ltb, leb, if◌then◌else◌, coalesce, find, update_where, ℤ, ℕ, ◌+◌, Bool, ◌||◌, Option, none, some,
}
use sukumad.Text.{Bytes}
use sukumad.Types.{Time, User}
use sukumad.Store.{UserRow, Db, constraint, Result, ok, err, Action, pure, exec, query, one_row}
use sukumad.Accounts.Users.{has_user_id, has_username, same_email}

abbrev on_user : (User → User) → UserRow → UserRow
on_user f r = record r { user = f r.user }

abbrev pub update_users : (UserRow → Bool) → (UserRow → UserRow) → Db → Db
update_users p f db = record db { users = update_where p f db.users }

abbrev pub exec_update : (Time → Db → Db) → Action (Result (Unit {0}))
exec_update f = exec (λ now db. (ok tt, f now db))

unfoldable pub get_with_hash_by_username : Bytes → Action (Result UserRow)
get_with_hash_by_username name = query (λ now db. one_row (find (has_username name) db.users))

unfoldable pub successful : Time → UserRow → UserRow
successful now =
    on_user (λ u. record u { last_login = some now; failed_attempts = some 0; updated = some now })

unfoldable pub record_login_success : ℤ → Action (Result (Unit {0}))
unfolding successful
record_login_success id = exec_update (λ now db. update_users (has_user_id id) (successful now) db)

abbrev failures : UserRow → ℕ
failures r = coalesce r.user.failed_attempts 0

unfoldable pub failed_once : Time → UserRow → UserRow
failed_once now r =
    on_user (λ u. record u { failed_attempts = some (failures r + 1); updated = some now }) r

unfoldable pub record_login_failure : Bytes → Action (Result (Unit {0}))
unfolding failed_once
record_login_failure name =
    exec_update (λ now db. update_users (has_username name) (failed_once now) db)

-- The counter after a failure: it starts again after a pause longer than the window.
unfoldable pub failures_after : Time → ℕ → UserRow → ℕ
failures_after now window r = elim r.user.last_failed_at [
  | none ↦ 1
  | some failed_at ↦ if ltb (failed_at + window) now then 1 else failures r + 1
]

unfoldable pub failed_with_lockout : Time → ℕ → ℕ → ℕ → UserRow → UserRow
unfolding failures_after
failed_with_lockout now threshold window lockout r =
    let n = failures_after now window r in
    on_user
      (λ u. record u {
        failed_attempts = some n;
        last_failed_at = some now;
        locked_until = if leb threshold n then some (now + lockout) else u.locked_until;
        updated = some now;
      })
      r

-- The caller's own time is not used: the statement takes the database's.
unfoldable pub record_login_failure_with_lockout :
    Bytes → Time → ℕ → ℕ → ℕ → Action (Result (Unit {0}))
unfolding failed_with_lockout
record_login_failure_with_lockout name callers_now threshold window lockout = exec_update (λ now db.
    update_users (has_username name) (failed_with_lockout now threshold window lockout) db)

unfoldable pub unlocked : Time → UserRow → UserRow
unlocked now = on_user (λ u. record u {
  failed_attempts = some 0;
  last_failed_at = none;
  locked_until = none;
  updated = some now;
})

unfoldable pub clear_failures_and_unlock : ℤ → Action (Result (Unit {0}))
unfolding unlocked
clear_failures_and_unlock id =
    exec_update (λ now db. update_users (has_user_id id) (unlocked now) db)

unfoldable pub unlock_account : ℤ → Action (Result (Unit {0}))
unfolding unlocked
unlock_account id = exec_update (λ now db. update_users (has_user_id id) (unlocked now) db)

unfoldable pub with_password : Time → Bytes → UserRow → UserRow
unfolding unlocked
with_password now hash r =
    let r' = unlocked now r in
    record { user = record (r'.user) { last_passwd_update = some now }; password_hash = hash }

unfoldable pub set_password : (Bytes → Option Bytes) → ℤ → Bytes → Action (Result (Unit {0}))
unfolding with_password
set_password hash_password id plain = elim (hash_password plain) [
  | none ↦ pure (err constraint)
  | some hash ↦ exec_update (λ now db. update_users (has_user_id id) (with_password now hash) db)
]

-- The first row that the query returns, were there two.
unfoldable pub find_user_id_by_username_or_email : Bytes → Action (Result ℤ)
find_user_id_by_username_or_email key = query (λ now db. one_row (
    Option.map (λ (r : UserRow). r.user.id)
      (find (λ r. has_username key r || same_email r.user.email (some key)) db.users)))

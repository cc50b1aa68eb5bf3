-- ===== src/Accounts/Calls.antt =====
-- The statements of internal/repo/user_repo.go, role_repo.go, permission_repo.go, refresh_repo.go and
-- rest_repo.go that write, whoever calls them.
use sukumad.Prelude.{ℤ, ℕ, ◌+◌, Bool, Option, List}
use sukumad.Text.{Bytes}
use sukumad.Types.{Time, Role, Permission, User}
use sukumad.Store.{World}
use sukumad.Accounts.Users.{create_user, update_user, delete_user}
use sukumad.Accounts.Logins.{
  record_login_success, record_login_failure, record_login_failure_with_lockout,
  clear_failures_and_unlock, unlock_account, set_password,
}
use sukumad.Accounts.Grants.{
  grant_user_permission, revoke_user_permission, grant_role_permission, revoke_role_permission,
  set_user_role,
}
use sukumad.Accounts.Roles.{
  create_role, update_role, delete_role, create_permission, update_permission, delete_permission,
}
use sukumad.Accounts.Tokens.{create_refresh, revoke, revoke_all_for_user, create_reset, use_reset}

pub data Call : Type 0 where
  creates_user : (Bytes → Option Bytes) → User → Call
  updates_user : (Bytes → Option Bytes) → User → Call
  deletes_user : ℤ → Call
  succeeds : ℤ → Call
  fails : Bytes → Call
  fails_with_lockout : Bytes → Time → ℕ → ℕ → ℕ → Call
  clears : ℤ → Call
  unlocks : ℤ → Call
  sets_password : (Bytes → Option Bytes) → ℤ → Bytes → Call
  grants_user : ℤ → ℤ → Call
  revokes_user : ℤ → ℤ → Call
  grants_role : ℤ → ℤ → Call
  revokes_role : ℤ → ℤ → Call
  sets_role : ℤ → ℤ → Call
  creates_role : Role → Call
  updates_role : Role → Call
  deletes_role : ℤ → Call
  creates_permission : Permission → Call
  updates_permission : Permission → Call
  deletes_permission : ℤ → Call
  creates_refresh : ℤ → Bytes → Time → Call
  revokes : Bytes → Call
  revokes_all : ℤ → Call
  creates_reset : ℤ → Bytes → Time → Call
  uses_reset : Bytes → Call

-- The world that a call leaves.
unfoldable pub call : Call → World → World
unfolding create_user update_user delete_user record_login_success record_login_failure
    record_login_failure_with_lockout clear_failures_and_unlock unlock_account set_password
    grant_user_permission revoke_user_permission grant_role_permission revoke_role_permission
    set_user_role create_role update_role delete_role create_permission update_permission
    delete_permission create_refresh revoke revoke_all_for_user create_reset use_reset
call (creates_user hash u) w = (create_user hash u w).1
call (updates_user hash u) w = (update_user hash u w).1
call (deletes_user i) w = (delete_user i w).1
call (succeeds i) w = (record_login_success i w).1
call (fails name) w = (record_login_failure name w).1
call (fails_with_lockout name t threshold window lockout) w =
    (record_login_failure_with_lockout name t threshold window lockout w).1
call (clears i) w = (clear_failures_and_unlock i w).1
call (unlocks i) w = (unlock_account i w).1
call (sets_password hash i plain) w = (set_password hash i plain w).1
call (grants_user i p) w = (grant_user_permission i p w).1
call (revokes_user i p) w = (revoke_user_permission i p w).1
call (grants_role i p) w = (grant_role_permission i p w).1
call (revokes_role i p) w = (revoke_role_permission i p w).1
call (sets_role i r) w = (set_user_role i r w).1
call (creates_role r) w = (create_role r w).1
call (updates_role r) w = (update_role r w).1
call (deletes_role i) w = (delete_role i w).1
call (creates_permission p) w = (create_permission p w).1
call (updates_permission p) w = (update_permission p w).1
call (deletes_permission i) w = (delete_permission i w).1
call (creates_refresh i jti t) w = (create_refresh i jti t w).1
call (revokes jti) w = (revoke jti w).1
call (revokes_all i) w = (revoke_all_for_user i w).1
call (creates_reset i hash t) w = (create_reset i hash t w).1
call (uses_reset hash) w = (use_reset hash w).1

-- One call after another, each of those that may come, at the times and with the faults of the
-- worlds between them.
pub data Calls (May : Call → Type 0) (w : World) : World → Type 0 where
  none_yet : Calls May w w
  calls_next : {v : World} (c : Call) → May c → Calls May w v → Calls May w (call c v)
  time_goes :
      {v : World} (t : Time) (faults : List Bool)
      → Calls May w v
      → Calls May w (record v { now = v.now + t; faults = faults })

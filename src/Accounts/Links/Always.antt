-- ===== src/Accounts/Links/Always.antt =====
-- Every statement on the accounts keeps the foreign keys.
use mathlib.Core.Path.{subst}
use sukumad.Prelude.{
  Bool-cases, any, All-filterb_keep, delete_where, any-update_where, update_where-none, ℤ, eq_ℤ,
  ◌≡◌, refl, sym, ap, ◌∙◌, inl, inr, Bool, not, ◌&&◌, arith,
}
use sukumad.Types.{Time}
use sukumad.Store.{UserRow, World}
use sukumad.Accounts.Users.{has_user_id, has_username}
use sukumad.Accounts.Grants.{is_grant, has_permission_id, has_role_id, with_role, set_user_role}
use sukumad.Accounts.Links.{
  role_there, IsLinked, update_users-IsLinked, roles-IsLinked, permissions-IsLinked,
  user_grants-IsLinked, role_grants-IsLinked,
}
use sukumad.Accounts.Keeping.{
  create_user-keeps, update_user-keeps, set_password-keeps, write_role-keeps,
  write_permission-keeps,
}
use sukumad.Accounts.Logins.{
  update_users, exec_update, successful, failed_once, failed_with_lockout, unlocked, with_password,
}
use sukumad.Accounts.Tokens.{has_jti, is_usable}
use sukumad.Store.Laws.{exec-keeps}
use sukumad.Accounts.Calls.{
  Call, creates_user, updates_user, deletes_user, succeeds, fails, fails_with_lockout, clears,
  unlocks, sets_password, grants_user, revokes_user, grants_role, revokes_role, sets_role,
  creates_role, updates_role, deletes_role, creates_permission, updates_permission,
  deletes_permission, creates_refresh, revokes, revokes_all, creates_reset, uses_reset, call, Calls,
  none_yet, calls_next, time_goes,
}
use sukumad.Accounts.Links.Removals.{
  without_user-IsLinked, without_permission-IsLinked, without_role-IsLinked,
}
use sukumad.Accounts.Links.Writes.{
  insert_user_grant-IsLinked, insert_role_grant-IsLinked, insert_user-IsLinked, write_user-IsLinked,
  insert_role-IsLinked, insert_permission-IsLinked,
}
use sukumad.Accounts.Links.Tokens.{
  refresh_row-IsLinked, reset_row-IsLinked, mark_refreshes-IsLinked, mark_resets-IsLinked,
}

-- A statement that changes users, and neither their numbers, nor their names and roles.
exec_users-IsLinked :
    (p : UserRow → Bool) (f : Time → UserRow → UserRow) (w : World)
    → ((now : Time) (r : UserRow)
        → ((f now r).user.id ≡ r.user.id)
          × ((f now r).user.username ≡ r.user.username)
          × ((f now r).user.user_role ≡ r.user.user_role))
    → IsLinked w.db
    → IsLinked (exec_update (λ now db. update_users p (f now) db) w).1.db
exec_users-IsLinked p f w k v =
    exec-keeps IsLinked _ w
      (update_users-IsLinked w.db v p (f w.now) (λ r. ((k w.now r).0, (k w.now r).1))
        (λ r h. ap (role_there w.db.roles) ((k w.now r).2) ∙ h))
      v

set_user_role-IsLinked :
    (user role : ℤ) (w : World) → IsLinked w.db → IsLinked (set_user_role user role w).1.db
unfolding set_user_role
set_user_role-IsLinked user role w v =
    let refused = any (has_user_id user) w.db.users && not (any (has_role_id role) w.db.roles) in
    exec-keeps IsLinked _ w
      (elim (Bool-cases refused) [
        | inl e ↦ rw e v
        | inr e ↦ rw e (elim (Bool-cases (any (has_role_id role) w.db.roles)) [
          | inl there ↦
              update_users-IsLinked w.db v (has_user_id user) (with_role w.now role)
                (λ r. (refl, refl)) (λ r h. there)
          | inr gone ↦
              subst (λ us. IsLinked (record w.db { users = us }))
                (sym (
                  update_where-none (has_user_id user) (with_role w.now role) w.db.users
                    (ground (arith, e, gone))))
                v
        ])
      ])
      v

call-IsLinked : (c : Call) (w : World) → IsLinked w.db → IsLinked (call c w).db
unfolding call successful failed_once failed_with_lockout unlocked with_password
call-IsLinked (creates_user hash u) w v =
    create_user-keeps IsLinked w v hash u (λ h. insert_user-IsLinked w.db v h u w.now)
call-IsLinked (updates_user hash u) w v =
    update_user-keeps IsLinked w v hash u (λ h. write_user-IsLinked w.db v h u w.now)
call-IsLinked (deletes_user i) w v = exec-keeps IsLinked _ w (without_user-IsLinked i w.db v) v
call-IsLinked (succeeds i) w v =
    exec_users-IsLinked (has_user_id i) successful w (λ now r. (refl, refl, refl)) v
call-IsLinked (fails name) w v =
    exec_users-IsLinked (has_username name) failed_once w (λ now r. (refl, refl, refl)) v
call-IsLinked (fails_with_lockout name t a b c) w v =
    exec_users-IsLinked (has_username name) (λ now. failed_with_lockout now a b c) w
      (λ now r. (refl, refl, refl)) v
call-IsLinked (clears i) w v =
    exec_users-IsLinked (has_user_id i) unlocked w (λ now r. (refl, refl, refl)) v
call-IsLinked (unlocks i) w v =
    exec_users-IsLinked (has_user_id i) unlocked w (λ now r. (refl, refl, refl)) v
call-IsLinked (sets_password hash i plain) w v = set_password-keeps IsLinked w v hash i plain (λ h.
    update_users-IsLinked w.db v (has_user_id i) (with_password w.now h) (λ r. (refl, refl))
      (λ r k. k))
call-IsLinked (grants_user i p) w v =
    exec-keeps IsLinked _ w (insert_user_grant-IsLinked w.db v i p w.now) v
call-IsLinked (revokes_user i p) w v =
    exec-keeps IsLinked _ w
      (user_grants-IsLinked w.db v (delete_where (is_grant i p) w.db.user_permissions)
        (All-filterb_keep _ _ w.db.user_permissions v.holders)
        (All-filterb_keep _ _ w.db.user_permissions v.held))
      v
call-IsLinked (grants_role i p) w v =
    exec-keeps IsLinked _ w (insert_role_grant-IsLinked w.db v i p w.now) v
call-IsLinked (revokes_role i p) w v =
    exec-keeps IsLinked _ w
      (role_grants-IsLinked w.db v (delete_where (is_grant i p) w.db.role_permissions)
        (All-filterb_keep _ _ w.db.role_permissions v.role_holders)
        (All-filterb_keep _ _ w.db.role_permissions v.role_held))
      v
call-IsLinked (sets_role i r) w v = set_user_role-IsLinked i r w v
call-IsLinked (creates_role r) w v = exec-keeps IsLinked _ w (insert_role-IsLinked w.db v r w.now) v
call-IsLinked (updates_role r) w v =
    exec-keeps IsLinked _ w
      (write_role-keeps IsLinked r w.now w.db
        (roles-IsLinked w.db v _ w.db.role_seq
          (λ i h. any-update_where (has_role_id i) _ _ w.db.roles (λ r. refl) ∙ h))
        v)
      v
call-IsLinked (deletes_role i) w v = exec-keeps IsLinked _ w (without_role-IsLinked i w.db v) v
call-IsLinked (creates_permission p) w v =
    exec-keeps IsLinked _ w (insert_permission-IsLinked w.db v p w.now) v
call-IsLinked (updates_permission p) w v =
    exec-keeps IsLinked _ w
      (write_permission-keeps IsLinked p w.now w.db
        (permissions-IsLinked w.db v _ w.db.permission_seq
          (λ i h. any-update_where (has_permission_id i) _ _ w.db.permissions (λ r. refl) ∙ h))
        v)
      v
call-IsLinked (deletes_permission i) w v =
    exec-keeps IsLinked _ w (without_permission-IsLinked i w.db v) v
call-IsLinked (creates_refresh i jti t) w v =
    exec-keeps IsLinked _ w (refresh_row-IsLinked w.db v i jti t) v
call-IsLinked (revokes jti) w v =
    exec-keeps IsLinked _ w (mark_refreshes-IsLinked w.db v (has_jti jti)) v
call-IsLinked (revokes_all i) w v =
    exec-keeps IsLinked _ w (mark_refreshes-IsLinked w.db v (λ t. eq_ℤ t.user_id i)) v
call-IsLinked (creates_reset i hash t) w v =
    exec-keeps IsLinked _ w (reset_row-IsLinked w.db v i hash t) v
call-IsLinked (uses_reset hash) w v =
    exec-keeps IsLinked _ w (mark_resets-IsLinked w.db v (is_usable w.now hash) w.now) v

-- Whatever statements the handlers run on the accounts, in any order, at any times and with any
-- faults of the connection: if the users of grants and of tokens, the permissions of grants, the
-- roles of grants and of users are there, and no name of a user, id of a refresh token or hash of
-- a reset token is in two rows, as in empty tables, then all of that still holds.
pub Calls-IsLinked : {w v : World} → Calls (λ _. Unit) w v → IsLinked w.db → IsLinked v.db
Calls-IsLinked none_yet h = h
Calls-IsLinked (calls_next {v = u} c _ r) h = call-IsLinked c u (Calls-IsLinked r h)
Calls-IsLinked (time_goes t faults r) h = Calls-IsLinked r h

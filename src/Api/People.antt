-- ===== src/Api/People.antt =====
-- internal/handlers/user_handler.go, role_handler.go and permission_handler.go.
use sukumad.Prelude.{int32, Option, none, some}
use sukumad.Text.{Bytes, str}
use sukumad.Types.{Role, Permission, User, GrantUserPermission, GrantRolePermission, SetUserRole}
use sukumad.Store.{Action, pure}
use sukumad.Web.{user, users, role, roles, permission, permissions, Reply, failure}
use sukumad.Accounts.Users.{list_users, get_user, create_user, update_user, delete_user}
use sukumad.Accounts.Logins.{unlock_account}
use sukumad.Accounts.Grants.{
  grant_user_permission, revoke_user_permission, grant_role_permission, revoke_role_permission,
  set_user_role, list_effective_permissions,
}
use sukumad.Accounts.Roles.{
  list_roles, create_role, update_role, delete_role, list_permissions, create_permission,
  update_permission, delete_permission,
}
use sukumad.Api.Input.{
  limit_of, offset_of, loose_id, checked_id, answering, bound, broken, done_body, no_body,
}

unfoldable pub user_list : Bytes → Bytes → Action Reply
user_list limit offset =
    answering 200 (λ us. users us (limit_of limit) (offset_of offset)) (broken (str "list failed"))
      (list_users (limit_of limit) (offset_of offset))

unfoldable pub user_get : Bytes → Action Reply
user_get id = answering 200 user (failure 404 (str "not found")) (get_user (int32 (loose_id id)))

unfoldable pub user_create : (Bytes → Option Bytes) → Option User → Action Reply
user_create hash_password body =
    bound body
      (λ u. answering 201 user (broken (str "create failed")) (create_user hash_password u))

unfoldable pub user_update : (Bytes → Option Bytes) → Bytes → Option User → Action Reply
user_update hash_password id body = bound body (λ u.
    answering 200 user (broken (str "update failed"))
      (update_user hash_password (record u { id = int32 (loose_id id) })))

unfoldable pub user_delete : Bytes → Action Reply
user_delete id =
    answering 204 no_body (broken (str "delete failed")) (delete_user (int32 (loose_id id)))

unfoldable pub user_grant_permission : Bytes → Option GrantUserPermission → Action Reply
user_grant_permission id body = bound body (λ g.
    answering 200 done_body (broken (str "grant failed"))
      (grant_user_permission (int32 (loose_id id)) g.permission_id))

unfoldable pub user_revoke_permission : Bytes → Option GrantUserPermission → Action Reply
user_revoke_permission id body = bound body (λ g.
    answering 200 done_body (broken (str "revoke failed"))
      (revoke_user_permission (int32 (loose_id id)) g.permission_id))

unfoldable pub user_set_role : Bytes → Option SetUserRole → Action Reply
user_set_role id body = bound body (λ r.
    answering 200 done_body (broken (str "set role failed"))
      (set_user_role (int32 (loose_id id)) r.role_id))

unfoldable pub user_list_effective_permissions : Bytes → Action Reply
user_list_effective_permissions id =
    answering 200 permissions (broken (str "list failed"))
      (list_effective_permissions (int32 (loose_id id)))

-- The one handler of users that checks the number.
unfoldable pub user_unlock : Bytes → Action Reply
user_unlock id = elim (checked_id id) [
  | none ↦ pure (failure 400 (str "invalid id"))
  | some i ↦ answering 200 done_body (broken (str "unlock failed")) (unlock_account i)
]

unfoldable pub role_list : Action Reply
role_list = answering 200 roles (broken (str "list failed")) list_roles

unfoldable pub role_create : Option Role → Action Reply
role_create body =
    bound body (λ r. answering 201 role (broken (str "create failed")) (create_role r))

unfoldable pub role_update : Bytes → Option Role → Action Reply
role_update id body = bound body (λ r.
    answering 200 role (broken (str "update failed"))
      (update_role (record r { id = int32 (loose_id id) })))

unfoldable pub role_delete : Bytes → Action Reply
role_delete id =
    answering 204 no_body (broken (str "delete failed")) (delete_role (int32 (loose_id id)))

unfoldable pub role_grant_permission : Bytes → Option GrantRolePermission → Action Reply
role_grant_permission id body = bound body (λ g.
    answering 200 done_body (broken (str "grant failed"))
      (grant_role_permission (int32 (loose_id id)) g.permission_id))

unfoldable pub role_revoke_permission : Bytes → Option GrantRolePermission → Action Reply
role_revoke_permission id body = bound body (λ g.
    answering 200 done_body (broken (str "revoke failed"))
      (revoke_role_permission (int32 (loose_id id)) g.permission_id))

unfoldable pub permission_list : Action Reply
permission_list = answering 200 permissions (broken (str "list failed")) list_permissions

unfoldable pub permission_create : Option Permission → Action Reply
permission_create body =
    bound body (λ p. answering 201 permission (broken (str "create failed")) (create_permission p))

unfoldable pub permission_update : Bytes → Option Permission → Action Reply
permission_update id body = bound body (λ p.
    answering 200 permission (broken (str "update failed"))
      (update_permission (record p { id = int32 (loose_id id) })))

unfoldable pub permission_delete : Bytes → Action Reply
permission_delete id =
    answering 204 no_body (broken (str "delete failed")) (delete_permission (int32 (loose_id id)))

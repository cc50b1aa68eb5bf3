-- ===== src/Accounts/Roles.antt =====
-- internal/repo/role_repo.go and permission_repo.go: the rows of `user_roles` and `permissions`.
use sukumad.Prelude.{
  if◌then◌else◌, any, update_where, delete_where, ℤ, pos, eq_ℤ, lt_ℤ, suc, Bool, not, ◌&&◌, ◌||◌,
  none, some, List, [], ◌∷◌, ◌++◌, map,
}
use sukumad.Text.{Bytes, text_eq}
use sukumad.Types.{Time, Role, Permission}
use sukumad.Store.{UserRow, Grant, Db, no_rows, constraint, Result, ok, err, Action, exec, query}
use sukumad.Accounts.Users.{ordered}
use sukumad.Accounts.Logins.{exec_update}
use sukumad.Accounts.Grants.{has_permission_id, has_role_id, permission_before}

unfoldable pub list_roles : Action (Result (List Role))
unfolding ordered
list_roles = query (λ now db. ok (ordered (λ r s. lt_ℤ r.id s.id) db.roles))

abbrev pub has_role_name : Bytes → Role → Bool
has_role_name name r = text_eq r.name name

unfoldable pub insert_role : Role → Time → Db → Result Role × Db
insert_role v now db =
    let i = suc db.role_seq in
    let row = record v { id = pos i; created = some now; updated = some now } in
    if any (λ r. has_role_name v.name r || has_role_id (pos i) r) db.roles
    then (err constraint, record db { role_seq = i })
    else (ok row, record db { roles = db.roles ++ row ∷ []; role_seq = i })

unfoldable pub create_role : Role → Action (Result Role)
unfolding insert_role
create_role v = exec (insert_role v)

unfoldable pub write_role : Role → Time → Db → Result Role × Db
write_role v now db =
    if not (any (has_role_id v.id) db.roles)
    then (err no_rows, db)
    else if any (λ r. has_role_name v.name r && not (has_role_id v.id r)) db.roles
    then (err constraint, db)
    else (
      ok (record v { updated = some now }),
      record db {
        roles =
            update_where (has_role_id v.id)
              (λ r. record r { name = v.name; description = v.description; updated = some now })
              db.roles;
      },
    )

unfoldable pub update_role : Role → Action (Result Role)
unfolding write_role
update_role v = exec (write_role v)

abbrev pub leave_role : ℤ → UserRow → UserRow
leave_role id r = record r {
  user = record (r.user) {
    user_role = elim r.user.user_role [
      | none ↦ none
      | some role ↦ if eq_ℤ role id then none else some role
    ];
  };
}

-- ON DELETE SET NULL for the users, CASCADE for the grants.
unfoldable pub without_role : ℤ → Db → Db
without_role id db = record db {
  roles = delete_where (has_role_id id) db.roles;
  users = map (leave_role id) db.users;
  role_permissions = delete_where (λ (g : Grant). eq_ℤ g.0 id) db.role_permissions;
}

unfoldable pub delete_role : ℤ → Action (Result (Unit {0}))
unfolding without_role
delete_role id = exec_update (λ now db. without_role id db)

unfoldable pub list_permissions : Action (Result (List Permission))
unfolding ordered permission_before
list_permissions = query (λ now db. ok (ordered permission_before db.permissions))

abbrev pub has_code : Bytes → Permission → Bool
has_code code p = text_eq p.code code

unfoldable pub insert_permission : Permission → Time → Db → Result Permission × Db
insert_permission p now db =
    let i = suc db.permission_seq in
    let row = record p { id = pos i; created = some now; updated = some now } in
    if any (λ q. has_code p.code q || has_permission_id (pos i) q) db.permissions
    then (err constraint, record db { permission_seq = i })
    else (ok row, record db { permissions = db.permissions ++ row ∷ []; permission_seq = i })

unfoldable pub create_permission : Permission → Action (Result Permission)
unfolding insert_permission
create_permission p = exec (insert_permission p)

unfoldable pub write_permission : Permission → Time → Db → Result Permission × Db
write_permission v now db =
    if not (any (has_permission_id v.id) db.permissions)
    then (err no_rows, db)
    else if any (λ p. has_code v.code p && not (has_permission_id v.id p)) db.permissions
    then (err constraint, db)
    else (
      ok (record v { updated = some now }),
      record db {
        permissions =
            update_where (has_permission_id v.id)
              (λ p. record p {
                name = v.name;
                code = v.code;
                system_module = v.system_module;
                updated = some now;
              })
              db.permissions;
      },
    )

unfoldable pub update_permission : Permission → Action (Result Permission)
unfolding write_permission
update_permission v = exec (write_permission v)

unfoldable pub without_permission : ℤ → Db → Db
without_permission id db = record db {
  permissions = delete_where (has_permission_id id) db.permissions;
  user_permissions = delete_where (λ (g : Grant). eq_ℤ g.1 id) db.user_permissions;
  role_permissions = delete_where (λ (g : Grant). eq_ℤ g.1 id) db.role_permissions;
}

unfoldable pub delete_permission : ℤ → Action (Result (Unit {0}))
unfolding without_permission
delete_permission id = exec_update (λ now db. without_permission id db)

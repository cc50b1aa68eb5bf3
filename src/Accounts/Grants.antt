-- ===== src/Accounts/Grants.antt =====
-- internal/repo/user_repo.go and role_repo.go: who holds which permission.
use sukumad.Prelude.{
  ltb, ◌==◌, if◌then◌else◌, any, filterb, delete_where, ℤ, eq_ℤ, Bool, true, false, not, ◌&&◌, ◌||◌,
  none, some, List, [], ◌∷◌, ◌++◌,
}
use sukumad.Text.{Bytes, text_eq}
use sukumad.Types.{Time, Role, Permission}
use sukumad.Store.{UserRow, Grant, Db, constraint, Result, ok, err, Action, exec, query}
use sukumad.Accounts.Users.{has_user_id, ordered}
use sukumad.Accounts.Logins.{update_users, exec_update}

abbrev pub is_grant : ℤ → ℤ → Grant → Bool
is_grant holder perm g = eq_ℤ g.0 holder && eq_ℤ g.1 perm

abbrev pub has_permission_id : ℤ → Permission → Bool
has_permission_id id p = eq_ℤ p.id id

abbrev pub has_role_id : ℤ → Role → Bool
has_role_id id r = eq_ℤ r.id id

-- INSERT … ON CONFLICT DO NOTHING
abbrev pub add_grant : ℤ → ℤ → List Grant → List Grant
add_grant holder perm gs = if any (is_grant holder perm) gs then gs else gs ++ (holder, perm) ∷ []

-- Both ends of a grant are foreign keys.
unfoldable pub insert_user_grant : ℤ → ℤ → Time → Db → Result (Unit {0}) × Db
insert_user_grant user perm now db =
    if any (has_user_id user) db.users && any (has_permission_id perm) db.permissions
    then (ok tt, record db { user_permissions = add_grant user perm db.user_permissions })
    else (err constraint, db)

unfoldable pub insert_role_grant : ℤ → ℤ → Time → Db → Result (Unit {0}) × Db
insert_role_grant role perm now db =
    if any (has_role_id role) db.roles && any (has_permission_id perm) db.permissions
    then (ok tt, record db { role_permissions = add_grant role perm db.role_permissions })
    else (err constraint, db)

unfoldable pub grant_user_permission : ℤ → ℤ → Action (Result (Unit {0}))
unfolding insert_user_grant
grant_user_permission user perm = exec (insert_user_grant user perm)

unfoldable pub revoke_user_permission : ℤ → ℤ → Action (Result (Unit {0}))
revoke_user_permission user perm = exec_update (λ now db. record db {
  user_permissions = delete_where (is_grant user perm) db.user_permissions;
})

unfoldable pub grant_role_permission : ℤ → ℤ → Action (Result (Unit {0}))
unfolding insert_role_grant
grant_role_permission role perm = exec (insert_role_grant role perm)

unfoldable pub revoke_role_permission : ℤ → ℤ → Action (Result (Unit {0}))
revoke_role_permission role perm = exec_update (λ now db. record db {
  role_permissions = delete_where (is_grant role perm) db.role_permissions;
})

abbrev pub with_role : Time → ℤ → UserRow → UserRow
with_role now role r = record r {
  user = record (r.user) { user_role = some role; updated = some now };
}

-- The foreign key of the role is checked where a row is updated.
unfoldable pub set_user_role : ℤ → ℤ → Action (Result (Unit {0}))
set_user_role user role = exec (λ now db.
    if any (has_user_id user) db.users && not (any (has_role_id role) db.roles)
    then (err constraint, db)
    else (ok tt, update_users (has_user_id user) (with_role now role) db))

-- The join of the user's row with the grants of its role.
unfoldable pub by_role : ℤ → ℤ → Db → Bool
by_role user perm db =
    any
      (λ r. has_user_id user r && elim r.user.user_role [
        | none ↦ false
        | some role ↦ any (is_grant role perm) db.role_permissions
      ])
      db.users

unfoldable pub directly : ℤ → ℤ → Db → Bool
directly user perm db = any (is_grant user perm) db.user_permissions

-- Texts in the order of their bytes.
unfoldable pub text_before : Bytes → Bytes → Bool
text_before [] [] = false
text_before [] (_ ∷ _) = true
text_before (_ ∷ _) [] = false
text_before (a ∷ s) (b ∷ t) = ltb a b || a == b && text_before s t

-- ORDER BY system_module, code
unfoldable pub permission_before : Permission → Permission → Bool
unfolding text_before
permission_before p q =
    text_before p.system_module q.system_module
    || text_eq p.system_module q.system_module && text_before p.code q.code

unfoldable pub effective : ℤ → Db → List Permission
unfolding by_role directly permission_before
effective user db =
    ordered permission_before
      (filterb (λ p. by_role user p.id db || directly user p.id db) db.permissions)

unfoldable pub list_effective_permissions : ℤ → Action (Result (List Permission))
unfolding effective
list_effective_permissions user = query (λ now db. ok (effective user db))

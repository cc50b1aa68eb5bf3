-- ===== src/Accounts/Links.antt =====
-- The foreign keys among the users, roles, permissions, grants and tokens, and some unique columns.
pub mod Removals
pub mod Writes
pub mod Tokens
pub mod Always
use sukumad.Prelude.{
  any, countb, All, All-map, update_where, All-update_where, countb-update_where, any-update_where,
  ℤ, ℕ, ◌≤◌, ◌≡◌, refl, ◌∙◌, Bool, true, Option, none, some, List, arith,
}
use sukumad.Text.{Bytes}
use sukumad.Types.{Role, Permission}
use sukumad.Store.{UserRow, RefreshToken, ResetToken, Grant, Db}
use sukumad.Accounts.Users.{has_user_id, has_username}
use sukumad.Accounts.Logins.{update_users}
use sukumad.Accounts.Grants.{has_permission_id, has_role_id}
use sukumad.Accounts.Tokens.{has_jti, has_hash}

abbrev pub role_there : List Role → Option ℤ → Bool
role_there rs none = true
role_there rs (some role) = any (has_role_id role) rs

abbrev pub HasRole : List Role → UserRow → Type 0
HasRole rs r = role_there rs r.user.user_role ≡ true

abbrev pub UserThere : List UserRow → ℤ → Type 0
UserThere us i = any (has_user_id i) us ≡ true

abbrev pub RoleThere : List Role → ℤ → Type 0
RoleThere rs i = any (has_role_id i) rs ≡ true

abbrev pub PermissionThere : List Permission → ℤ → Type 0
PermissionThere ps i = any (has_permission_id i) ps ≡ true

pub record IsLinked (db : Db) : Type 0 where
  pub roles : All (HasRole db.roles) db.users
  pub holders : All (λ (g : Grant). UserThere db.users g.0) db.user_permissions
  pub held : All (λ (g : Grant). PermissionThere db.permissions g.1) db.user_permissions
  pub role_holders : All (λ (g : Grant). RoleThere db.roles g.0) db.role_permissions
  pub role_held : All (λ (g : Grant). PermissionThere db.permissions g.1) db.role_permissions
  pub refreshes : All (λ (t : RefreshToken). UserThere db.users t.user_id) db.refresh_tokens
  pub resets : All (λ (t : ResetToken). UserThere db.users t.user_id) db.reset_tokens
  pub names : (name : Bytes) → countb (has_username name) db.users ≤ 1
  pub jtis : (jti : Bytes) → countb (has_jti jti) db.refresh_tokens ≤ 1
  pub hashes : (hash : Bytes) → countb (has_hash hash) db.reset_tokens ≤ 1

module _ (db : Db) (v : IsLinked db) where
  -- Other users, among whom all numbers are still there.
  pub users-IsLinked :
      (us : List UserRow) (n : ℕ)
      → ((i : ℤ) → UserThere db.users i → UserThere us i)
      → All (HasRole db.roles) us
      → ((name : Bytes) → countb (has_username name) us ≤ 1)
      → IsLinked (record db { users = us; user_seq = n })
  users-IsLinked us n there roles names = record {
    roles = roles;
    holders =
        All-map (λ g. UserThere db.users g.0) (λ g. UserThere us g.0) (λ g. there g.0)
          db.user_permissions v.holders;
    held = v.held;
    role_holders = v.role_holders;
    role_held = v.role_held;
    refreshes =
        All-map (λ t. UserThere db.users t.user_id) (λ t. UserThere us t.user_id)
          (λ t. there t.user_id) db.refresh_tokens v.refreshes;
    resets =
        All-map (λ t. UserThere db.users t.user_id) (λ t. UserThere us t.user_id)
          (λ t. there t.user_id) db.reset_tokens v.resets;
    names = names;
    jtis = v.jtis;
    hashes = v.hashes;
  }

  -- A statement that changes users, and neither their numbers nor their names.
  pub update_users-IsLinked :
      (p : UserRow → Bool) (f : UserRow → UserRow)
      → ((r : UserRow) → ((f r).user.id ≡ r.user.id) × ((f r).user.username ≡ r.user.username))
      → ((r : UserRow) → HasRole db.roles r → HasRole db.roles (f r))
      → IsLinked (update_users p f db)
  update_users-IsLinked p f k role =
      users-IsLinked (update_where p f db.users) db.user_seq
        (λ i h. any-update_where (has_user_id i) p f db.users (λ r. rw ((k r).0) refl) ∙ h)
        (All-update_where (HasRole db.roles) p f db.users (λ r _ h. role r h) v.roles)
        (λ name. ground (
          arith,
          v.names name,
          countb-update_where (has_username name) (has_username name) p f db.users
              (λ r. ground (arith, k r)),
        ))

  pub roles-IsLinked :
      (rs : List Role) (n : ℕ)
      → ((i : ℤ) → RoleThere db.roles i → RoleThere rs i)
      → IsLinked (record db { roles = rs; role_seq = n })
  roles-IsLinked rs n there = record {
    roles = All-map (HasRole db.roles) (HasRole rs) (λ r. still r.user.user_role) db.users v.roles;
    holders = v.holders;
    held = v.held;
    role_holders =
        All-map (λ g. RoleThere db.roles g.0) (λ g. RoleThere rs g.0) (λ g. there g.0)
          db.role_permissions v.role_holders;
    role_held = v.role_held;
    refreshes = v.refreshes;
    resets = v.resets;
    names = v.names;
    jtis = v.jtis;
    hashes = v.hashes;
  }
    where
      still : (o : Option ℤ) → role_there db.roles o ≡ true → role_there rs o ≡ true
      still none h = refl
      still (some i) h = there i h

  pub permissions-IsLinked :
      (ps : List Permission) (n : ℕ)
      → ((i : ℤ) → PermissionThere db.permissions i → PermissionThere ps i)
      → IsLinked (record db { permissions = ps; permission_seq = n })
  permissions-IsLinked ps n there = record {
    roles = v.roles;
    holders = v.holders;
    held =
        All-map (λ g. PermissionThere db.permissions g.1) (λ g. PermissionThere ps g.1)
          (λ g. there g.1) db.user_permissions v.held;
    role_holders = v.role_holders;
    role_held =
        All-map (λ g. PermissionThere db.permissions g.1) (λ g. PermissionThere ps g.1)
          (λ g. there g.1) db.role_permissions v.role_held;
    refreshes = v.refreshes;
    resets = v.resets;
    names = v.names;
    jtis = v.jtis;
    hashes = v.hashes;
  }

  pub user_grants-IsLinked :
      (gs : List Grant)
      → All (λ (g : Grant). UserThere db.users g.0) gs
      → All (λ (g : Grant). PermissionThere db.permissions g.1) gs
      → IsLinked (record db { user_permissions = gs })
  user_grants-IsLinked gs a b = record {
    roles = v.roles;
    holders = a;
    held = b;
    role_holders = v.role_holders;
    role_held = v.role_held;
    refreshes = v.refreshes;
    resets = v.resets;
    names = v.names;
    jtis = v.jtis;
    hashes = v.hashes;
  }

  pub role_grants-IsLinked :
      (gs : List Grant)
      → All (λ (g : Grant). RoleThere db.roles g.0) gs
      → All (λ (g : Grant). PermissionThere db.permissions g.1) gs
      → IsLinked (record db { role_permissions = gs })
  role_grants-IsLinked gs a b = record {
    roles = v.roles;
    holders = v.holders;
    held = v.held;
    role_holders = a;
    role_held = b;
    refreshes = v.refreshes;
    resets = v.resets;
    names = v.names;
    jtis = v.jtis;
    hashes = v.hashes;
  }

  pub tokens-IsLinked :
      (ts : List RefreshToken) (rs : List ResetToken)
      → All (λ (t : RefreshToken). UserThere db.users t.user_id) ts
      → All (λ (t : ResetToken). UserThere db.users t.user_id) rs
      → ((jti : Bytes) → countb (has_jti jti) ts ≤ 1)
      → ((hash : Bytes) → countb (has_hash hash) rs ≤ 1)
      → IsLinked (record db { refresh_tokens = ts; reset_tokens = rs })
  tokens-IsLinked ts rs a b c d = record {
    roles = v.roles;
    holders = v.holders;
    held = v.held;
    role_holders = v.role_holders;
    role_held = v.role_held;
    refreshes = a;
    resets = b;
    names = v.names;
    jtis = c;
    hashes = d;
  }

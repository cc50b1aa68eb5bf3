-- ===== src/Accounts/Links/Removals.antt =====
-- Users, roles and permissions that go, with what their foreign keys take along.
use sukumad.Prelude.{
  if◌then◌else◌, Bool-cases, any, All, All-map, All-filterb, All-filterb_keep, delete_where,
  any-delete_where_keep, All-both, countb-filterb-le, any-map, countb-map, All-mapped, ℤ, eq_ℤ,
  eq_ℤ_iff, ◌≡◌, refl, ◌∙◌, inl, inr, true, false, not, Option, none, some, List, map, arith,
}
use sukumad.Types.{Role, Permission}
use sukumad.Store.{UserRow, Db}
use sukumad.Accounts.Users.{has_user_id, has_username, without_user}
use sukumad.Accounts.Grants.{has_permission_id, has_role_id}
use sukumad.Accounts.Roles.{leave_role, without_role, without_permission}
use sukumad.Accounts.Tokens.{has_jti, has_hash}
use sukumad.Accounts.Links.{role_there, HasRole, UserThere, RoleThere, PermissionThere, IsLinked}

module _ {ℓ} {A : Type ℓ} where
  -- What stays of a table whose rows name others, of which one goes, with the rows that name it.
  left_there :
      (key : A → ℤ) (id : ℤ) (Here There : ℤ → Type 0) (xs : List A)
      → ((i : ℤ) → eq_ℤ i id ≡ false → Here i → There i)
      → All (λ x. Here (key x)) xs
      → All (λ x. There (key x)) (delete_where (λ x. eq_ℤ (key x) id) xs)
  left_there key id Here There xs k h =
      All-both (λ x. not (eq_ℤ (key x) id) ≡ true) (λ x. Here (key x)) (λ x. There (key x))
        (delete_where (λ x. eq_ℤ (key x) id) xs) (λ x n. k (key x) (ground (arith, n)))
        (All-filterb (λ x. not (eq_ℤ (key x) id)) xs)
        (All-filterb_keep (λ x. Here (key x)) (λ x. not (eq_ℤ (key x) id)) xs h)

  -- A row that is not the one that goes.
  another_there :
      (key : A → ℤ) (id : ℤ) (xs : List A) (i : ℤ)
      → eq_ℤ i id ≡ false
      → any (λ x. eq_ℤ (key x) i) xs ≡ true
      → any (λ x. eq_ℤ (key x) i) (delete_where (λ x. eq_ℤ (key x) id) xs) ≡ true
  another_there key id xs i n =
      any-delete_where_keep (λ x. eq_ℤ (key x) i) (λ x. eq_ℤ (key x) id) xs
        (λ x e. ground (arith, e, n, eq_ℤ_iff (key x) i, eq_ℤ_iff (key x) id, eq_ℤ_iff i id))

module _ (id : ℤ) (db : Db) (v : IsLinked db) where
  pub without_user-IsLinked : IsLinked (without_user id db)
  unfolding without_user
  without_user-IsLinked =
      let us = delete_where (has_user_id id) db.users in
      let another = another_there (λ (r : UserRow). r.user.id) id db.users in
      record {
        roles = All-filterb_keep (HasRole db.roles) (λ r. not (has_user_id id r)) db.users v.roles;
        holders =
            left_there (λ g. g.0) id (UserThere db.users) (UserThere us) db.user_permissions another
              v.holders;
        held =
            All-filterb_keep (λ g. PermissionThere db.permissions g.1) (λ g. not (eq_ℤ g.0 id))
              db.user_permissions v.held;
        role_holders = v.role_holders;
        role_held = v.role_held;
        refreshes =
            left_there (λ t. t.user_id) id (UserThere db.users) (UserThere us) db.refresh_tokens
              another v.refreshes;
        resets =
            left_there (λ t. t.user_id) id (UserThere db.users) (UserThere us) db.reset_tokens
              another v.resets;
        names = λ name. omega (
          arith,
          v.names name,
          countb-filterb-le (has_username name) (λ r. not (has_user_id id r)) db.users,
        );
        jtis = λ jti. omega (
          arith,
          v.jtis jti,
          countb-filterb-le (has_jti jti) (λ t. not (eq_ℤ t.user_id id)) db.refresh_tokens,
        );
        hashes = λ hash. omega (
          arith,
          v.hashes hash,
          countb-filterb-le (has_hash hash) (λ t. not (eq_ℤ t.user_id id)) db.reset_tokens,
        );
      }

  pub without_permission-IsLinked : IsLinked (without_permission id db)
  unfolding without_permission
  without_permission-IsLinked =
      let ps = delete_where (has_permission_id id) db.permissions in
      let another = another_there (λ (p : Permission). p.id) id db.permissions in
      record {
        roles = v.roles;
        holders =
            All-filterb_keep (λ g. UserThere db.users g.0) (λ g. not (eq_ℤ g.1 id))
              db.user_permissions v.holders;
        held =
            left_there (λ g. g.1) id (PermissionThere db.permissions) (PermissionThere ps)
              db.user_permissions another v.held;
        role_holders =
            All-filterb_keep (λ g. RoleThere db.roles g.0) (λ g. not (eq_ℤ g.1 id))
              db.role_permissions v.role_holders;
        role_held =
            left_there (λ g. g.1) id (PermissionThere db.permissions) (PermissionThere ps)
              db.role_permissions another v.role_held;
        refreshes = v.refreshes;
        resets = v.resets;
        names = v.names;
        jtis = v.jtis;
        hashes = v.hashes;
      }

  pub without_role-IsLinked : IsLinked (without_role id db)
  unfolding without_role
  without_role-IsLinked =
      let rs = delete_where (has_role_id id) db.roles in
      let another = another_there (λ (r : Role). r.id) id db.roles in
      let us = map (leave_role id) db.users in
      let there : (i : ℤ) → UserThere db.users i → UserThere us i =
        λ i h. any-map (has_user_id i) (leave_role id) db.users (λ r. refl) ∙ h in
      record {
        roles =
            All-mapped (HasRole db.roles) (HasRole rs) (leave_role id) db.users
              (λ r. left rs r.user.user_role another) v.roles;
        holders =
            All-map (λ x. UserThere db.users x.0) (λ x. UserThere us x.0) (λ x. there x.0)
              db.user_permissions v.holders;
        held = v.held;
        role_holders =
            left_there (λ g. g.0) id (RoleThere db.roles) (RoleThere rs) db.role_permissions another
              v.role_holders;
        role_held =
            All-filterb_keep (λ g. PermissionThere db.permissions g.1) (λ g. not (eq_ℤ g.0 id))
              db.role_permissions v.role_held;
        refreshes =
            All-map (λ x. UserThere db.users x.user_id) (λ x. UserThere us x.user_id)
              (λ x. there x.user_id) db.refresh_tokens v.refreshes;
        resets =
            All-map (λ x. UserThere db.users x.user_id) (λ x. UserThere us x.user_id)
              (λ x. there x.user_id) db.reset_tokens v.resets;
        names = λ name. omega (
          arith,
          v.names name,
          countb-map (has_username name) (leave_role id) db.users (λ r. refl),
        );
        jtis = v.jtis;
        hashes = v.hashes;
      }
    where
      left :
          (rs' : List Role) (o : Option ℤ)
          → ((i : ℤ) → eq_ℤ i id ≡ false → RoleThere db.roles i → RoleThere rs' i)
          → role_there db.roles o ≡ true
          → role_there rs'
              (elim o [ none ↦ none | some role ↦ if eq_ℤ role id then none else some role ])
            ≡ true
      left _ none k h = refl
      left _ (some i) k h = elim (Bool-cases (eq_ℤ i id)) [
        | inl e ↦ rw e refl
        | inr e ↦ rw e (k i e h)
      ]

-- ===== src/Accounts/Links/Writes.antt =====
-- New and changed users and grants, new roles and permissions.
use mathlib.Core.Path.{subst}
use sukumad.Prelude.{
  Bool-cases, any, countb, All, All-append, countb-append, any-of_countb, any-append_left,
  any-weaken, ℤ, pos, eq_ℤ, suc, ◌≤◌, ◌≡◌, refl, inl, inr, Bool, true, false, ◌&&◌, ◌||◌, Option,
  none, some, List, [], ◌∷◌, ◌++◌, arith,
}
use sukumad.Text.{Bytes, text_eq}
use sukumad.Types.{Time, Role, Permission, User}
use sukumad.Store.{UserRow, Grant, Db}
use sukumad.Accounts.Users.{
  has_user_id, has_username, same_email, is_valid_row, inserted_row, insert_user, updated_row,
  write_user,
}
use sukumad.Accounts.Grants.{
  is_grant, has_permission_id, has_role_id, add_grant, insert_user_grant, insert_role_grant,
}
use sukumad.Accounts.Links.{
  role_there, HasRole, UserThere, RoleThere, PermissionThere, IsLinked, users-IsLinked,
  update_users-IsLinked, roles-IsLinked, permissions-IsLinked, user_grants-IsLinked,
  role_grants-IsLinked,
}
use sukumad.Accounts.Keeping.{write_user-keeps, insert_user-keeps}
use sukumad.Text.Laws.{text_eq_iff}
use sukumad.Accounts.Roles.{insert_role, insert_permission}
use sukumad.Store.Laws.{branch-keeps}

-- A row more, with a key that is new.
pub unique_more {ℓ} :
    {A : Type ℓ} (key : A → Bytes) (xs : List A) (x : A) (name : Bytes)
    → any (λ y. text_eq (key y) (key x)) xs ≡ false
    → countb (λ y. text_eq (key y) name) xs ≤ 1
    → countb (λ y. text_eq (key y) name) (xs ++ x ∷ []) ≤ 1
unique_more key xs x name new h =
    let more = countb-append (λ y. text_eq (key y) name) xs (x ∷ []) in
    elim (Bool-cases (text_eq (key x) name)) [
      | inr e ↦ ground (arith, more, e, h)
      | inl e ↦
          let none_yet =
            any-of_countb (λ y. text_eq (key y) name) xs
              (subst (λ k. any (λ y. text_eq (key y) k) xs ≡ false) ((text_eq_iff (key x) name).0 e)
                new) in
          ground (arith, more, e, none_yet)
    ]

valid_role :
    (skip : UserRow → Bool) (u : User) (db : Db)
    → is_valid_row skip u db ≡ true
    → role_there db.roles u.user_role ≡ true
unfolding is_valid_row
valid_role skip u db h = from _ db.roles u.user_role h
  where
    from :
        (b : Bool) (rs : List Role) (o : Option ℤ)
        → (b && elim o [ none ↦ true | some role ↦ any (λ (r : Role). eq_ℤ r.id role) rs ]) ≡ true
        → role_there rs o ≡ true
    from b rs none e = refl
    from b rs (some i) e = ground (arith, e)

valid_name :
    (u : User) (db : Db)
    → is_valid_row (λ _. false) u db ≡ true
    → any (has_username u.username) db.users ≡ false
unfolding is_valid_row
valid_name u db h = elim (Bool-cases (any (has_username u.username) db.users)) [
  | inr e ↦ e
  | inl e ↦
      let clash =
        any-weaken (has_username u.username)
          (λ r. has_username u.username r || same_email r.user.email u.email) db.users
          (λ r k. ground (arith, k)) e in
      absurd (ground (arith, clash, h))
]

module _ (db : Db) (v : IsLinked db) where
  grants_kept :
      (holder perm : ℤ) (gs : List Grant) (Holder Held : ℤ → Type 0)
      → Holder holder
      → Held perm
      → All (λ (g : Grant). Holder g.0) gs
      → All (λ (g : Grant). Held g.1) gs
      → All (λ (g : Grant). Holder g.0) (add_grant holder perm gs)
        × All (λ (g : Grant). Held g.1) (add_grant holder perm gs)
  grants_kept holder perm gs Holder Held a b hs ks =
      elim (Bool-cases (any (is_grant holder perm) gs)) [
        | inl e ↦ rw e (hs, ks)
        | inr e ↦ rw e (
            (
              All-append (λ g. Holder g.0) gs ((holder, perm) ∷ []) hs (a, tt),
              All-append (λ g. Held g.1) gs ((holder, perm) ∷ []) ks (b, tt),
            ))
      ]

  pub insert_user_grant-IsLinked :
      (user perm : ℤ) (now : Time) → IsLinked (insert_user_grant user perm now db).1
  unfolding insert_user_grant
  insert_user_grant-IsLinked user perm now =
      elim (Bool-cases
        (any (has_user_id user) db.users && any (has_permission_id perm) db.permissions)) [
          | inr e ↦ rw e v
          | inl e ↦
              let (a, b) =
                grants_kept user perm db.user_permissions (UserThere db.users)
                  (PermissionThere db.permissions) (ground (arith, e)) (ground (arith, e)) v.holders
                  v.held in
              rw e (user_grants-IsLinked db v (add_grant user perm db.user_permissions) a b)
        ]

  pub insert_role_grant-IsLinked :
      (role perm : ℤ) (now : Time) → IsLinked (insert_role_grant role perm now db).1
  unfolding insert_role_grant
  insert_role_grant-IsLinked role perm now =
      elim (Bool-cases
        (any (has_role_id role) db.roles && any (has_permission_id perm) db.permissions)) [
          | inr e ↦ rw e v
          | inl e ↦
              let (a, b) =
                grants_kept role perm db.role_permissions (RoleThere db.roles)
                  (PermissionThere db.permissions) (ground (arith, e)) (ground (arith, e))
                  v.role_holders v.role_held in
              rw e (role_grants-IsLinked db v (add_grant role perm db.role_permissions) a b)
        ]

  pub insert_user-IsLinked :
      (hash : Bytes) (u : User) (now : Time) → IsLinked (insert_user hash u now db).1
  unfolding inserted_row
  insert_user-IsLinked hash u now =
      let i = suc db.user_seq in
      let row = inserted_row now i hash u in
      insert_user-keeps IsLinked hash u now db
        (λ e.
          users-IsLinked db v (db.users ++ row ∷ []) i
            (λ j. any-append_left (has_user_id j) db.users (row ∷ []))
            (All-append (HasRole db.roles) db.users (row ∷ []) v.roles
              (valid_role (λ _. false) u db e, tt))
            (λ name.
              unique_more (λ (r : UserRow). r.user.username) db.users row name (valid_name u db e)
                (v.names name)))
        (users-IsLinked db v db.users i (λ j h. h) v.roles v.names)

  pub write_user-IsLinked :
      (hash : Option Bytes) (u : User) (now : Time) → IsLinked (write_user hash u now db).1
  unfolding updated_row
  write_user-IsLinked hash u now =
      write_user-keeps IsLinked hash u now db
        (λ r f e.
          update_users-IsLinked db v (has_user_id u.id) (updated_row now hash u) (λ x. (refl, refl))
            (λ x h. valid_role (has_user_id u.id) (record u { username = r.user.username }) db e))
        v

  pub insert_role-IsLinked : (r : Role) (now : Time) → IsLinked (insert_role r now db).1
  unfolding insert_role
  insert_role-IsLinked r now =
      let i = suc db.role_seq in
      let row = record r { id = pos i; created = some now; updated = some now } in
      branch-keeps IsLinked _ _ _ (roles-IsLinked db v db.roles i (λ j h. h)) (
        roles-IsLinked db v (db.roles ++ row ∷ []) i
          (λ j. any-append_left (has_role_id j) db.roles (row ∷ [])))

  pub insert_permission-IsLinked :
      (p : Permission) (now : Time) → IsLinked (insert_permission p now db).1
  unfolding insert_permission
  insert_permission-IsLinked p now =
      let i = suc db.permission_seq in
      let row = record p { id = pos i; created = some now; updated = some now } in
      branch-keeps IsLinked _ _ _ (permissions-IsLinked db v db.permissions i (λ j h. h)) (
        permissions-IsLinked db v (db.permissions ++ row ∷ []) i
          (λ j. any-append_left (has_permission_id j) db.permissions (row ∷ [])))

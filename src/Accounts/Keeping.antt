-- ===== src/Accounts/Keeping.antt =====
-- What the statements keep that choose between several writes.
use sukumad.Prelude.{
  Bool-cases, Option-cases, find, any, update_where, ℤ, suc, ◌≡◌, inl, inr, true, false, not, ◌&&◌,
  Option, none, some, [], ◌∷◌, ◌++◌,
}
use sukumad.Text.{Bytes, is_empty}
use sukumad.Types.{Time, Role, Permission, User}
use sukumad.Store.{UserRow, Db, World}
use sukumad.Store.Laws.{exec-keeps, branch-keeps}
use sukumad.Accounts.Users.{
  has_user_id, is_valid_row, inserted_row, insert_user, create_user, updated_row, write_user,
  update_user,
}
use sukumad.Accounts.Logins.{update_users, with_password, set_password}
use sukumad.Accounts.Roles.{has_role_name, write_role, has_code, write_permission}
use sukumad.Accounts.Grants.{has_permission_id, has_role_id}

module _ {κ} (P : Db → Type κ) (w : World) (v : P w.db) where
  pub create_user-keeps :
      (hash : Bytes → Option Bytes) (u : User)
      → ((h : Bytes) → P (insert_user h u w.now w.db).1)
      → P (create_user hash u w).1.db
  unfolding create_user
  create_user-keeps hash u k = elim (Option-cases u.password) [
    | inl n ↦ rw n v
    | inr (pw, n) ↦ elim (Bool-cases (is_empty pw)) [
      | inl e ↦ rw n (rw e v)
      | inr e ↦ elim (Option-cases (hash pw)) [
        | inl m ↦ rw n (rw e (rw m v))
        | inr (h, m) ↦ rw n (rw e (rw m (exec-keeps P (insert_user h u) w (k h) v)))
      ]
    ]
  ]

  pub update_user-keeps :
      (hash : Bytes → Option Bytes) (u : User)
      → ((h : Option Bytes) → P (write_user h u w.now w.db).1)
      → P (update_user hash u w).1.db
  unfolding update_user
  update_user-keeps hash u k =
      let written = λ (h : Option Bytes). exec-keeps P (write_user h u) w (k h) v in
      elim (Option-cases u.password) [
        | inl n ↦ rw n (written none)
        | inr (pw, n) ↦ elim (Bool-cases (is_empty pw)) [
          | inl e ↦ rw n (rw e (written none))
          | inr e ↦ elim (Option-cases (hash pw)) [
            | inl m ↦ rw n (rw e (rw m v))
            | inr (h, m) ↦ rw n (rw e (rw m (written (some h))))
          ]
        ]
      ]

  pub set_password-keeps :
      (hash : Bytes → Option Bytes) (i : ℤ) (plain : Bytes)
      → ((h : Bytes) → P (update_users (has_user_id i) (with_password w.now h) w.db))
      → P (set_password hash i plain w).1.db
  unfolding set_password
  set_password-keeps hash i plain k = elim (Option-cases (hash plain)) [
    | inl n ↦ rw (n, set_password) v
    | inr (h, n) ↦ rw (n, set_password) (exec-keeps P _ w (k h) v)
  ]

pub write_user-keeps {κ} :
    (P : Db → Type κ) (hash : Option Bytes) (u : User) (now : Time) (db : Db)
    → ((r : UserRow)
        → find (has_user_id u.id) db.users ≡ some r
        → is_valid_row (has_user_id u.id) (record u { username = r.user.username }) db ≡ true
        → P (update_users (has_user_id u.id) (updated_row now hash u) db))
    → P db
    → P (write_user hash u now db).1
unfolding write_user
write_user-keeps P hash u now db k v = elim (Option-cases (find (has_user_id u.id) db.users)) [
  | inl n ↦ rw (n, write_user) v
  | inr (r, n) ↦
      let valid = is_valid_row (has_user_id u.id) (record u { username = r.user.username }) db in
      elim (Bool-cases valid) [
        | inl e ↦ rw (n, write_user) (rw e (k r n e))
        | inr e ↦ rw (n, write_user) (rw e v)
      ]
]

pub insert_user-keeps {κ} :
    (P : Db → Type κ) (hash : Bytes) (u : User) (now : Time) (db : Db)
    → (is_valid_row (λ _. false) u db ≡ true
        → P (record db {
          users = db.users ++ inserted_row now (suc db.user_seq) hash u ∷ [];
          user_seq = suc db.user_seq;
        }))
    → P (record db { user_seq = suc db.user_seq })
    → P (insert_user hash u now db).1
unfolding insert_user
insert_user-keeps P hash u now db k v = elim (Bool-cases (is_valid_row (λ _. false) u db)) [
  | inl e ↦ rw e (branch-keeps P _ _ _ (k e) v)
  | inr e ↦ rw e v
]

pub write_role-keeps {κ} :
    (P : Db → Type κ) (v : Role) (now : Time) (db : Db)
    → P (record db {
      roles =
          update_where
            (has_role_id v.id)
            (λ r. record r { name = v.name; description = v.description; updated = some now })
            db.roles;
    })
    → P db
    → P (write_role v now db).1
unfolding write_role
write_role-keeps P v now db k h = elim (Bool-cases (not (any (has_role_id v.id) db.roles))) [
  | inl n ↦ rw (n, write_role) h
  | inr n ↦
      elim (Bool-cases (any (λ r. has_role_name v.name r && not (has_role_id v.id r)) db.roles)) [
        | inl c ↦ rw (n, write_role) (rw c h)
        | inr c ↦ rw (n, write_role) (rw c k)
      ]
]

pub write_permission-keeps {κ} :
    (P : Db → Type κ) (v : Permission) (now : Time) (db : Db)
    → P (record db {
      permissions =
          update_where
            (has_permission_id v.id)
            (λ p. record p {
              name = v.name;
              code = v.code;
              system_module = v.system_module;
              updated = some now;
            })
            db.permissions;
    })
    → P db
    → P (write_permission v now db).1
unfolding write_permission
write_permission-keeps P v now db k h =
    elim (Bool-cases (not (any (has_permission_id v.id) db.permissions))) [
      | inl n ↦ rw (n, write_permission) h
      | inr n ↦
          elim (Bool-cases
            (any (λ p. has_code v.code p && not (has_permission_id v.id p)) db.permissions)) [
              | inl c ↦ rw (n, write_permission) (rw c h)
              | inr c ↦ rw (n, write_permission) (rw c k)
            ]
    ]

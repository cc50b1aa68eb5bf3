-- ===== src/Accounts/Users.antt =====
-- internal/repo/user_repo.go: the rows of `users`. The hash of a password, bcrypt's, is an
-- argument, and so is whether bcrypt makes one.
use mathlib.Core.Option
use sukumad.Prelude.{
  if◌then◌else◌, coalesce, or_else, take, drop, find, any, update_where, delete_where, ℤ, pos, eq_ℤ,
  lt_ℤ, ℕ, suc, Bool, true, false, not, ◌&&◌, ◌||◌, Option, none, some, List, [], ◌∷◌, ◌++◌, map,
}
use sukumad.Text.{Bytes, text_eq, is_empty}
use sukumad.Types.{Time, Role, User}
use sukumad.Store.{
  UserRow, RefreshToken, ResetToken, Grant, Db, no_rows, constraint, Result, ok, err, Action, pure,
  exec, query, one_row,
}

abbrev pub has_user_id : ℤ → UserRow → Bool
has_user_id id r = eq_ℤ r.user.id id

abbrev pub has_username : Bytes → UserRow → Bool
has_username name r = text_eq r.user.username name

abbrev pub same_email : Option Bytes → Option Bytes → Bool
same_email (some a) (some b) = text_eq a b
same_email _ _ = false

-- The columns that `SELECT` reads: the password never, the lock only for a login.
abbrev pub listed_user : UserRow → User
listed_user r = record r.user { password = none; last_failed_at = none; locked_until = none }

-- LIMIT and OFFSET: a negative one is refused.
abbrev pub page {ℓ} : {A : Type ℓ} → ℤ → ℤ → List A → Result (List A)
page (pos limit) (pos offset) rows = ok (take limit (drop offset rows))
page _ _ rows = err constraint

unfoldable pub insert_row {ℓ} : {A : Type ℓ} → (A → A → Bool) → A → List A → List A
insert_row before r [] = r ∷ []
insert_row before r (x ∷ xs) =
    let rest = insert_row before r xs in if before r x then r ∷ (x ∷ xs) else x ∷ rest

-- ORDER BY, as an insertion sort.
unfoldable pub ordered {ℓ} : {A : Type ℓ} → (A → A → Bool) → List A → List A
unfolding insert_row
ordered before [] = []
ordered before (x ∷ xs) = insert_row before x (ordered before xs)

unfoldable pub list_users : ℤ → ℤ → Action (Result (List User))
unfolding ordered
list_users limit offset = query (λ now db.
    page limit offset (map listed_user (ordered (λ r s. lt_ℤ s.user.id r.user.id) db.users)))

unfoldable pub get_user : ℤ → Action (Result User)
get_user id = query (λ now db. one_row (Option.map listed_user (find (has_user_id id) db.users)))

-- NOT NULL, UNIQUE and the foreign key of the role. `skip` tells the row itself.
unfoldable pub is_valid_row : (UserRow → Bool) → User → Db → Bool
is_valid_row skip u db =
    not (
      any (λ r. not (skip r) && (has_username u.username r || same_email r.user.email u.email))
        db.users)
    && elim u.user_role [ none ↦ true | some role ↦ any (λ (r : Role). eq_ℤ r.id role) db.roles ]

unfoldable pub inserted_row : Time → ℕ → Bytes → User → UserRow
inserted_row now i hash u = record {
  user = record u {
    id = pos i;
    password = none;
    failed_attempts = some 0;
    is_active = some (coalesce u.is_active true);
    is_system_user = some (coalesce u.is_system_user false);
    last_login = none;
    last_failed_at = none;
    locked_until = none;
    last_passwd_update = none;
    created = some now;
    updated = some now;
  };
  password_hash = hash;
}

-- A sequence is not set back by the statement that fails.
unfoldable pub insert_user : Bytes → User → Time → Db → Result User × Db
unfolding is_valid_row inserted_row
insert_user hash u now db =
    let i = suc db.user_seq in
    if is_valid_row (λ _. false) u db && not (any (has_user_id (pos i)) db.users)
    then (
      ok (record u { id = pos i; created = some now; updated = some now; password = none }),
      record db { users = db.users ++ inserted_row now i hash u ∷ []; user_seq = i },
    )
    else (err constraint, record db { user_seq = i })

-- A password is wanted: without one the answer is the error of a query that finds no row.
unfoldable pub create_user : (Bytes → Option Bytes) → User → Action (Result User)
unfolding insert_user
create_user hash_password u = elim u.password [
  | none ↦ pure (err no_rows)
  | some pw ↦ if is_empty pw then pure (err no_rows) else elim (hash_password pw) [
    | none ↦ pure (err constraint)
    | some hash ↦ exec (insert_user hash u)
  ]
]

unfoldable pub updated_row : Time → Option Bytes → User → UserRow → UserRow
updated_row now hash u r = record {
  user = record (r.user) {
    user_role = u.user_role;
    firstname = u.firstname;
    lastname = u.lastname;
    telephone = u.telephone;
    email = u.email;
    allowed_ips = u.allowed_ips;
    denied_ips = u.denied_ips;
    transaction_limit = u.transaction_limit;
    is_active = or_else u.is_active r.user.is_active;
    is_system_user = or_else u.is_system_user r.user.is_system_user;
    updated = some now;
  };
  password_hash = coalesce hash r.password_hash;
}

-- The name is not written, so it cannot clash.
unfoldable pub write_user : Option Bytes → User → Time → Db → Result User × Db
unfolding is_valid_row updated_row
write_user hash u now db = elim (find (has_user_id u.id) db.users) [
  | none ↦ (err no_rows, db)
  | some r ↦
      if is_valid_row (has_user_id u.id) (record u { username = r.user.username }) db
      then (
        ok (record u { updated = some now; password = none }),
        record db { users = update_where (has_user_id u.id) (updated_row now hash u) db.users },
      )
      else (err constraint, db)
]

unfoldable pub update_user : (Bytes → Option Bytes) → User → Action (Result User)
unfolding write_user
update_user hash_password u = elim u.password [
  | none ↦ exec (write_user none u)
  | some pw ↦ if is_empty pw then exec (write_user none u) else elim (hash_password pw) [
    | none ↦ pure (err constraint)
    | some hash ↦ exec (write_user (some hash) u)
  ]
]

-- ON DELETE CASCADE takes the user's grants and tokens along.
unfoldable pub without_user : ℤ → Db → Db
without_user id db = record db {
  users = delete_where (has_user_id id) db.users;
  user_permissions = delete_where (λ (g : Grant). eq_ℤ g.0 id) db.user_permissions;
  refresh_tokens = delete_where (λ (t : RefreshToken). eq_ℤ t.user_id id) db.refresh_tokens;
  reset_tokens = delete_where (λ (t : ResetToken). eq_ℤ t.user_id id) db.reset_tokens;
}

unfoldable pub delete_user : ℤ → Action (Result (Unit {0}))
unfolding without_user
delete_user id = exec (λ now db. (ok tt, without_user id db))

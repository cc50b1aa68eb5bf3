-- ===== src/Boot/Seeder.antt =====
-- internal/seeder/seeder.go: the role Admin with its permissions, in one transaction.
use sukumad.Prelude.{
  leb, ◌==◌, if◌then◌else◌, find, any, ℤ, pos, suc, ◌-◌, Bool, true, false, ◌&&◌, ◌||◌, none, some,
  List, [], ◌∷◌, ◌++◌,
}
use sukumad.Text.{Bytes, str, has_prefix}
use sukumad.Types.{Time, Role, Permission}
use sukumad.Store.{
  Db, connection, constraint, Result, ok, err, Action, ◌>>=◌, pure, next_fault, later_faults, exec,
}
use sukumad.Accounts.Grants.{has_permission_id, has_role_id, insert_role_grant}
use sukumad.Accounts.Roles.{has_role_name, has_code}

-- The flag says that the next letter is to be a capital. Only a lower case letter clears it.
unfoldable pub prettify_from : Bool → Bytes → Bytes
prettify_from cap_next [] = []
prettify_from cap_next (c ∷ s) =
    let after_space = prettify_from true s in
    let small = prettify_from false s in
    let same = prettify_from cap_next s in
    if c == b'_'
    then b' ' ∷ after_space
    else if cap_next && (leb b'a' c && leb c b'z')
    then (c - 32) ∷ small
    else c ∷ same

unfoldable pub prettify : Bytes → Bytes
unfolding prettify_from
prettify s = prettify_from true s

unfoldable pub module_from : Bytes → Bytes
module_from code =
    if has_prefix code (str "can_view_deliveries") || has_prefix code (str "can_expand")
    then str "Deliveries"
    else if has_prefix code (str "can_view_reporters") || has_prefix code (str "can_edit_reporters")
    then str "Reporters"
    else str "System"

-- INSERT … ON CONFLICT (name) DO UPDATE SET name = EXCLUDED.name RETURNING id: a row of the name
-- stays as it is, and the sequence goes on all the same; a new row fails if its number is taken.
unfoldable pub upsert_role : Bytes → Bytes → Time → Db → Result ℤ × Db
upsert_role name description now db =
    let i = suc db.role_seq in
    elim (find (has_role_name name) db.roles) [
      | some r ↦ (ok r.id, record db { role_seq = i })
      | none ↦
          let row : Role = record {
            id = pos i;
            name = name;
            description = some description;
            created = some now;
            updated = some now;
          } in
          if any (has_role_id (pos i)) db.roles
          then (err constraint, record db { role_seq = i })
          else (ok (pos i), record db { roles = db.roles ++ row ∷ []; role_seq = i })
    ]

unfoldable pub upsert_permission : Bytes → Bytes → Bytes → Time → Db → Result ℤ × Db
upsert_permission name code system_module now db =
    let i = suc db.permission_seq in
    elim (find (has_code code) db.permissions) [
      | some p ↦ (ok p.id, record db { permission_seq = i })
      | none ↦
          let row : Permission = record {
            id = pos i;
            name = name;
            code = code;
            system_module = system_module;
            created = some now;
            updated = some now;
          } in
          if any (has_permission_id (pos i)) db.permissions
          then (err constraint, record db { permission_seq = i })
          else (
            ok (pos i),
            record db { permissions = db.permissions ++ row ∷ []; permission_seq = i },
          )
    ]

module _ {ℓ κ} {A : Type ℓ} {B : Type κ} where
  -- `if err != nil { return err }`
  abbrev pub on_ok : (A → Action (Result B)) → Result A → Action (Result B)
  on_ok k (err e) = pure (err e)
  on_ok k (ok a) = k a

abbrev pub grant_to : ℤ → ℤ → Action (Result (Unit {0}))
grant_to role perm = exec (insert_role_grant role perm)

-- One code: the permission, and the grant of it.
unfoldable pub ensure_code : ℤ → Bytes → Bytes → Bytes → Action (Result (Unit {0}))
unfolding upsert_permission
ensure_code role name code system_module =
    exec (upsert_permission name code system_module) >>= on_ok (grant_to role)

unfoldable pub ensure_codes : ℤ → List Bytes → Action (Result (Unit {0}))
unfolding ensure_code
ensure_codes role [] = pure (ok tt)
ensure_codes role (code ∷ codes) =
    ensure_code role (prettify code) code (module_from code)
    >>= on_ok (λ _. ensure_codes role codes)

-- What stands between Begin and the deferred function.
unfoldable pub seed : List Bytes → Action (Result (Unit {0}))
unfolding upsert_role ensure_codes
seed codes =
    exec (upsert_role (str "Admin") (str "Full administrative access"))
    >>= on_ok (λ role.
      ensure_code role (str "Admin") (str "admin") (str "System")
      >>= on_ok (λ _. ensure_codes role codes))

-- Rollback: the tables as they were; what the sequences handed out is gone.
abbrev pub rolled_back : Db → Db → Db
rolled_back before after = record before {
  role_seq = after.role_seq;
  permission_seq = after.permission_seq;
}

-- The deferred function. Whether the commit succeeds is not looked at.
abbrev pub finish : Db → Result (Unit {0}) → Action (Result (Unit {0}))
finish before (err e) w = (err e, record w { db = rolled_back before w.db })
finish before (ok a) w =
    if next_fault w.faults
    then (ok a, record w { db = rolled_back before w.db; faults = later_faults w.faults })
    else (ok a, record w { faults = later_faults w.faults })

unfoldable pub run : List Bytes → Action (Result (Unit {0}))
unfolding seed
run codes w =
    if next_fault w.faults
    then (err connection, record w { faults = later_faults w.faults })
    else (seed codes >>= finish w.db) (record w { faults = later_faults w.faults })

-- ===== src/Accounts/Effective.antt =====
-- The permissions that a user holds: those of the role and those that are granted directly.
use sukumad.Prelude.{
  Bool-cases, any, filterb, delete_where, ℤ, eq_ℤ_iff, eq_ℤ_refl, ◌≡◌, refl, ◌∙◌, inl, inr, Bool,
  true, false, ◌&&◌, ◌||◌, List, [], ◌∷◌, ◌++◌, arith,
}
use sukumad.Types.{Permission}
use sukumad.Store.{Db, World, next_fault, exec, is_ok}
use sukumad.Accounts.Users.{insert_row, ordered}
use sukumad.Accounts.Grants.{
  is_grant, has_permission_id, insert_user_grant, grant_user_permission, revoke_user_permission,
  by_role, directly, permission_before, effective,
}

any-insert_row {ℓ} :
    {A : Type ℓ} (before : A → A → Bool) (q : A → Bool) (r : A) (xs : List A)
    → any q (insert_row before r xs) ≡ (q r || any q xs)
unfolding insert_row
any-insert_row before q r [] = refl
any-insert_row before q r (x ∷ xs) = ground (arith, any-insert_row before q r xs)

any-ordered {ℓ} :
    {A : Type ℓ} (before : A → A → Bool) (q : A → Bool) (xs : List A)
    → any q (ordered before xs) ≡ any q xs
unfolding ordered
any-ordered before q [] = refl
any-ordered before q (x ∷ xs) =
    ground (arith, any-insert_row before q x (ordered before xs), any-ordered before q xs)

any-filterb_id :
    (perm : ℤ) (q : ℤ → Bool) (ps : List Permission)
    → any (has_permission_id perm) (filterb (λ p. q p.id) ps)
      ≡ (any (has_permission_id perm) ps && q perm)
any-filterb_id perm q [] = refl
any-filterb_id perm q (p ∷ ps) = ground (arith, eq_ℤ_iff p.id perm, any-filterb_id perm q ps)

-- The list holds a permission exactly if the table does and the user has it by the role or by a
-- grant of its own.
effective_lem :
    (user perm : ℤ) (db : Db)
    → any (has_permission_id perm) (effective user db) ≡ (
        any (has_permission_id perm) db.permissions
        && (by_role user perm db || directly user perm db))
unfolding effective
effective_lem user perm db =
    let held = λ (i : ℤ). by_role user i db || directly user i db in
    any-ordered permission_before (has_permission_id perm) (filterb (λ p. held p.id) db.permissions)
    ∙ any-filterb_id perm held db.permissions

any-delete_where {ℓ} : {A : Type ℓ} (p : A → Bool) (xs : List A) → any p (delete_where p xs) ≡ false
any-delete_where p [] = refl
any-delete_where p (x ∷ xs) = ground (arith, any-delete_where p xs)

any-add {ℓ} :
    {A : Type ℓ} (p : A → Bool) (x : A) (xs : List A) → p x ≡ true → any p (xs ++ x ∷ []) ≡ true
any-add p x [] h = ground arith
any-add p x (y ∷ ys) h = ground (arith, any-add p x ys h)

abbrev pub holds_now : ℤ → ℤ → Db → Bool
holds_now user perm db = any (has_permission_id perm) (effective user db)

-- A grant that the database takes is in force at once, and once the direct grant is revoked the
-- user holds the permission exactly if it is there and the user's role has it; neither statement
-- says anything of the role.
pub grant-revoke_effective :
    (user perm : ℤ) (w : World)
    → next_fault w.faults ≡ false
    → (is_ok (grant_user_permission user perm w).0 ≡ true
        → holds_now user perm (grant_user_permission user perm w).1.db ≡ true)
      × (holds_now user perm (revoke_user_permission user perm w).1.db
          ≡ (any (has_permission_id perm) w.db.permissions && by_role user perm w.db))
unfolding grant_user_permission revoke_user_permission insert_user_grant exec directly by_role
grant-revoke_effective user perm w f =
    let granted = (grant_user_permission user perm w).1.db in
    let revoked = (revoke_user_permission user perm w).1.db in
    (
      elim (Bool-cases (any (is_grant user perm) w.db.user_permissions)) [
        | inl e ↦ λ h. ground (arith, f, e, h, effective_lem user perm granted)
        | inr e ↦ λ h. ground (
          arith,
          f,
          e,
          h,
          any-add (is_grant user perm) (user, perm) w.db.user_permissions,
          eq_ℤ_refl user,
          eq_ℤ_refl perm,
          effective_lem user perm granted,
        )
      ],
      ground (
        arith,
        f,
        any-delete_where (is_grant user perm) w.db.user_permissions,
        effective_lem user perm revoked,
      ),
    )

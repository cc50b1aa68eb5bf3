-- ===== src/Boot/Seeded.antt =====
-- What the seeder leaves behind.
use mathlib.Core.Option.{some-injective}
use mathlib.Core.Path.{subst}
use sukumad.Prelude.{
  Bool-cases, Option-cases, find, any, All, All-append, All-map, find-test, ℤ, pos, eq_ℤ, eq_ℤ_iff,
  eq_ℤ_refl, is_numbered, numbered_later, numbered_other, ℕ, suc, ◌≡◌, refl, sym, ap, inl, inr,
  Bool, true, false, ◌&&◌, some, List, [], ◌∷◌, ◌++◌, arith,
}
use sukumad.Text.{Bytes}
use sukumad.Text.Laws.{text_eq_refl}
use sukumad.Types.{Time, Role, Permission}
use sukumad.Store.Laws.{exec-fine}
use sukumad.Store.{Grant, Db, Result, ok, World, Action}
use sukumad.Accounts.Grants.{is_grant, has_permission_id, has_role_id, add_grant, insert_role_grant}
use sukumad.Accounts.Roles.{has_code}
use sukumad.Boot.Seeder.{upsert_permission, ensure_code}

-- The role holds a permission of that code.
unfoldable pub is_granted : ℤ → Bytes → Db → Bool
is_granted role code db =
    any (λ p. has_code code p && any (is_grant role p.id) db.role_permissions) db.permissions

module _ {ℓ} {A : Type ℓ} where
  pub any-imp :
      (p q : A → Bool) (xs : List A)
      → ((x : A) → p x ≡ true → q x ≡ true)
      → any p xs ≡ true
      → any q xs ≡ true
  any-imp p q [] h e = e
  any-imp p q (x ∷ xs) h e = ground (arith, h x, any-imp p q xs h)

  pub any-left : (p : A → Bool) (xs ys : List A) → any p xs ≡ true → any p (xs ++ ys) ≡ true
  any-left p [] ys e = absurd (cc)
  any-left p (x ∷ xs) ys e = ground (arith, any-left p xs ys)

  pub any-right : (p : A → Bool) (x : A) (xs : List A) → p x ≡ true → any p (xs ++ x ∷ []) ≡ true
  any-right p y [] e = ground arith
  any-right p y (x ∷ xs) e = ground (arith, any-right p y xs)

  pub any-found :
      (p : A → Bool) {x : A} (xs : List A)
      → find p xs ≡ some x
      → (q : A → Bool) → q x ≡ true
      → any q xs ≡ true
  any-found p [] e q h = absurd (cc)
  any-found p {x} (y ∷ ys) e q h = elim (Bool-cases (p y)) [
    | inl k ↦
        let same : y ≡ x = some-injective _ _ (ground (arith, k, e)) in ground (arith, same, h)
    | inr k ↦ ground (arith, any-found p {x = x} ys (ground (arith, k, e)) q h)
  ]

-- No number of a role or of a permission is beyond its sequence, so the next one is free.
pub record IsAhead (db : Db) : Type 0 where
  pub roles : All (λ (r : Role). is_numbered db.role_seq r.id ≡ true) db.roles
  pub permissions :
      All (λ (p : Permission). is_numbered db.permission_seq p.id ≡ true) db.permissions

module _ {ℓ} {A : Type ℓ} (key : A → ℤ) (n : ℕ) where
  -- The next number is no row's, and after it all numbers are still in the sequence.
  pub next_free :
      (xs : List A)
      → All (λ x. is_numbered n (key x) ≡ true) xs
      → any (λ x. eq_ℤ (key x) (pos (suc n))) xs ≡ false
  next_free [] h = refl
  next_free (x ∷ xs) (h, hs) = ground (arith, numbered_other n (key x) h, next_free xs hs)

  pub still_numbered :
      (xs : List A)
      → All (λ x. is_numbered n (key x) ≡ true) xs
      → All (λ x. is_numbered (suc n) (key x) ≡ true) xs
  still_numbered xs =
      All-map (λ x. is_numbered n (key x) ≡ true) (λ x. is_numbered (suc n) (key x) ≡ true)
        (λ x. numbered_later n (key x)) xs

  pub one_numbered :
      (xs : List A) (x : A)
      → key x ≡ pos (suc n)
      → All (λ x. is_numbered n (key x) ≡ true) xs
      → All (λ x. is_numbered (suc n) (key x) ≡ true) (xs ++ x ∷ [])
  one_numbered xs x e h =
      All-append (λ x. is_numbered (suc n) (key x) ≡ true) xs (x ∷ []) (still_numbered xs h)
        (rw e (ground arith), tt)

-- What a step of the seeder keeps.
pub record Keeps (db db' : Db) : Type 0 where
  pub roles : (q : Role → Bool) → any q db.roles ≡ true → any q db'.roles ≡ true
  pub grants :
      (role : ℤ) (code : Bytes) → is_granted role code db ≡ true → is_granted role code db' ≡ true
  pub ahead : IsAhead db → IsAhead db'

pub Keeps-trans : {a b c : Db} → Keeps a b → Keeps b c → Keeps a c
Keeps-trans h k = record {
  roles = λ q e. k.roles q (h.roles q e);
  grants = λ r c e. k.grants r c (h.grants r c e);
  ahead = λ a. k.ahead (h.ahead a);
}

-- A step succeeds, with nothing left to fail.
pub record Succeeds (P : Db → Type 0) (w : World) (m : Action (Result (Unit {0}))) : Type 0 where
  pub is_done : (m w).0 ≡ ok tt
  pub no_faults : (m w).1.faults ≡ []
  pub keeps : Keeps w.db (m w).1.db
  pub result : P (m w).1.db

any-add_grant :
    (role perm : ℤ) (gs : List Grant) (q : Grant → Bool)
    → any q gs ≡ true
    → any q (add_grant role perm gs) ≡ true
any-add_grant role perm gs q h =
    ground (arith, any-left q gs ((role, perm) ∷ []), Bool-cases (any (is_grant role perm) gs))

has-add_grant :
    (role perm : ℤ) (gs : List Grant) → any (is_grant role perm) (add_grant role perm gs) ≡ true
has-add_grant role perm gs = ground (
  arith,
  any-right (is_grant role perm) (role, perm) gs,
  eq_ℤ_refl role,
  eq_ℤ_refl perm,
  Bool-cases (any (is_grant role perm) gs),
)

insert_grant_lem :
    (role perm : ℤ) (code : Bytes) (now : Time) (db : Db)
    → any (has_role_id role) db.roles ≡ true
    → any (λ p. has_code code p && eq_ℤ p.id perm) db.permissions ≡ true
    → let (r, db') = insert_role_grant role perm now db in
      (r ≡ ok tt) × Keeps db db' × (is_granted role code db' ≡ true)
unfolding insert_role_grant is_granted
insert_grant_lem role perm code now db h k =
    let gs = add_grant role perm db.role_permissions in
    let has_perm =
      any-imp (λ p. has_code code p && eq_ℤ p.id perm) (has_permission_id perm) db.permissions
        (λ p e. ground arith) k in
    rw h (
      rw has_perm (
        refl,
        record {
          roles = λ q e. e;
          grants = λ r c e.
              any-imp (λ p. has_code c p && any (is_grant r p.id) db.role_permissions)
                (λ p. has_code c p && any (is_grant r p.id) gs) db.permissions
                (λ p e'.
                  ground (arith, e', any-add_grant role perm db.role_permissions (is_grant r p.id)))
                e;
          ahead = λ a. record { roles = a.roles; permissions = a.permissions };
        },
        any-imp (λ p. has_code code p && eq_ℤ p.id perm)
            (λ p. has_code code p && any (is_grant role p.id) gs) db.permissions
            (λ p e.
              ground (arith, e, eq_ℤ_iff p.id perm, has-add_grant role perm db.role_permissions))
            k,
      ))

upsert_permission_lem :
    (name code m : Bytes) (now : Time) (db : Db)
    → IsAhead db
    → let (r, db') = upsert_permission name code m now db in
      (perm : ℤ) × (r ≡ ok perm)
      × Keeps db db'
      × (any (λ p. has_code code p && eq_ℤ p.id perm) db'.permissions ≡ true)
unfolding upsert_permission is_granted
upsert_permission_lem name code m now db a =
    elim (Option-cases (find (has_code code) db.permissions)) [
      | inr (p, e) ↦
          rw (e, upsert_permission)
            (
              p.id,
              refl,
              record {
                roles = λ q h. h;
                grants = λ r c h. h;
                ahead = λ a. record {
                  roles = a.roles;
                  permissions =
                      still_numbered (λ (p : Permission). p.id) db.permission_seq db.permissions
                        a.permissions;
                };
              },
              any-found (has_code code) db.permissions e (λ x. has_code code x && eq_ℤ x.id p.id)
                  (ground (arith, find-test (has_code code) db.permissions e, eq_ℤ_refl p.id)),
            )
      | inl e ↦
          let i = suc db.permission_seq in
          let row : Permission = record {
            id = pos i;
            name = name;
            code = code;
            system_module = m;
            created = some now;
            updated = some now;
          } in
          let free =
            next_free (λ (p : Permission). p.id) db.permission_seq db.permissions a.permissions in
          rw (e, upsert_permission)
            (rw free (
              pos i,
              refl,
              record {
                roles = λ q h. h;
                grants = λ r c h.
                    any-left (λ p. has_code c p && any (is_grant r p.id) db.role_permissions)
                      db.permissions (row ∷ []) h;
                ahead = λ a. record {
                  roles = a.roles;
                  permissions =
                      one_numbered (λ (p : Permission). p.id) db.permission_seq db.permissions row
                        refl a.permissions;
                };
              },
              any-right (λ x. has_code code x && eq_ℤ x.id (pos i)) row db.permissions
                  (ground (arith, text_eq_refl code, eq_ℤ_refl (pos i))),
            ))
    ]

pub ensure_code_lem :
    (role : ℤ) (name code m : Bytes) (w : World)
    → w.faults ≡ []
    → IsAhead w.db
    → any (has_role_id role) w.db.roles ≡ true
    → Succeeds (λ db. is_granted role code db ≡ true) w (ensure_code role name code m)
unfolding ensure_code
ensure_code_lem role name code m w f a h =
    let (perm, e, kept, there) = upsert_permission_lem name code m w.now w.db a in
    let w₁ : World = record w { db = (upsert_permission name code m w.now w.db).1; faults = [] } in
    let held = kept.roles (has_role_id role) h in
    let g = insert_grant_lem role perm code w.now w₁.db held there in
    let w₂ : World = record w { db = (insert_role_grant role perm w.now w₁.db).1; faults = [] } in
    let runs : ensure_code role name code m w ≡ (ok tt, w₂) =
      rw (exec-fine (upsert_permission name code m) w f)
        (rw e (rw (exec-fine (insert_role_grant role perm) w₁ refl) (rw g.0 refl))) in
    record {
      is_done = ap (λ x. x.0) runs;
      no_faults = ap (λ x. x.1.faults) runs;
      keeps = subst (λ x. Keeps w.db x.1.db) (sym runs) (Keeps-trans kept g.1);
      result = subst (λ x. is_granted role code x.1.db ≡ true) (sym runs) g.2;
    }

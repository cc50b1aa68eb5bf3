-- ===== src/Boot/Bootstrap.antt =====
-- What a run of the seeder does as a whole.
use mathlib.Core.Path.{subst}
use sukumad.Prelude.{
  Bool-cases, Option-cases, find, any, All, All-map, find-test, ℤ, pos, eq_ℤ, eq_ℤ_refl, suc, ◌≡◌,
  refl, sym, ap, ◌∙◌, inl, inr, Bool, true, ◌&&◌, some, List, [], ◌∷◌, arith,
}
use sukumad.Text.{Bytes, str}
use sukumad.Store.Laws.{exec-fine}
use sukumad.Store.{Db, DbError, Result, ok, err, World, Action, ◌>>=◌, next_fault, later_faults}
use sukumad.Accounts.Grants.{has_role_id}
use sukumad.Boot.Seeder.{
  prettify, module_from, upsert_role, on_ok, ensure_code, ensure_codes, seed, finish, run,
}
use sukumad.Boot.Seeded.{
  is_granted, any-imp, any-left, any-right, any-found, IsAhead, next_free, still_numbered,
  one_numbered, Keeps, Keeps-trans, Succeeds, ensure_code_lem,
}
use sukumad.Text.Laws.{text_eq_refl}
use sukumad.Types.{Time, Role}
use sukumad.Accounts.Roles.{has_role_name}

abbrev AllGranted : ℤ → List Bytes → Db → Type 0
AllGranted role codes db = All (λ c. is_granted role c db ≡ true) codes

AllGranted-Keeps :
    (role : ℤ) (codes : List Bytes) {a b : Db}
    → Keeps a b
    → AllGranted role codes a
    → AllGranted role codes b
AllGranted-Keeps role codes {a} {b} k h =
    All-map (λ c. is_granted role c a ≡ true) (λ c. is_granted role c b ≡ true)
      (λ c e. k.grants role c e) codes h

-- One step after another.
seq_lem :
    {P Q : Db → Type 0} (m k : Action (Result (Unit {0}))) (w : World)
    → Succeeds P w m
    → Succeeds Q (m w).1 k
    → Succeeds Q w (m >>= on_ok (λ _. k))
seq_lem {P} {Q} m k w a b =
    let runs : (m >>= on_ok (λ _. k)) w ≡ k (m w).1 = rw a.is_done refl in
    record {
      is_done = ap (λ x. x.0) runs ∙ b.is_done;
      no_faults = ap (λ x. x.1.faults) runs ∙ b.no_faults;
      keeps = subst (λ x. Keeps w.db x.1.db) (sym runs) (Keeps-trans a.keeps b.keeps);
      result = subst (λ x. Q x.1.db) (sym runs) b.result;
    }

Succeeds-imp :
    {P Q : Db → Type 0} {m : Action (Result (Unit {0}))} {w : World}
    → Succeeds P w m
    → (P (m w).1.db → Q (m w).1.db)
    → Succeeds Q w m
Succeeds-imp a f = record {
  is_done = a.is_done;
  no_faults = a.no_faults;
  keeps = a.keeps;
  result = f a.result;
}

ensure_codes_lem :
    (role : ℤ) (codes : List Bytes) (w : World)
    → w.faults ≡ []
    → IsAhead w.db
    → any (has_role_id role) w.db.roles ≡ true
    → Succeeds (AllGranted role codes) w (ensure_codes role codes)
unfolding ensure_codes
ensure_codes_lem role [] w f a h = record {
  is_done = refl;
  no_faults = f;
  keeps = record { roles = λ q e. e; grants = λ r c e. e; ahead = λ a. a };
  result = tt;
}
ensure_codes_lem role (code ∷ codes) w f a h =
    let first = ensure_code_lem role (prettify code) code (module_from code) w f a h in
    let w' = (ensure_code role (prettify code) code (module_from code) w).1 in
    let others =
      ensure_codes_lem role codes w' first.no_faults (first.keeps.ahead a)
        (first.keeps.roles (has_role_id role) h) in
    seq_lem {P = λ db. is_granted role code db ≡ true} {Q = AllGranted role (code ∷ codes)}
      (ensure_code role (prettify code) code (module_from code)) (ensure_codes role codes) w first
      (Succeeds-imp {P = AllGranted role codes} {Q = AllGranted role (code ∷ codes)} others
        (λ r. (others.keeps.grants role code first.result, r)))

-- A role of that name and number.
abbrev pub is_role : Bytes → ℤ → Role → Bool
is_role name id r = has_role_name name r && eq_ℤ r.id id

upsert_role_lem :
    (name description : Bytes) (now : Time) (db : Db)
    → IsAhead db
    → let (r, db') = upsert_role name description now db in
      (role : ℤ) × (r ≡ ok role) × Keeps db db' × (any (is_role name role) db'.roles ≡ true)
unfolding upsert_role is_granted
upsert_role_lem name description now db a =
    elim (Option-cases (find (has_role_name name) db.roles)) [
      | inr (r, e) ↦
          rw (e, upsert_role)
            (
              r.id,
              refl,
              record {
                roles = λ q h. h;
                grants = λ k c h. h;
                ahead = λ a. record {
                  roles = still_numbered (λ (r : Role). r.id) db.role_seq db.roles a.roles;
                  permissions = a.permissions;
                };
              },
              any-found (has_role_name name) db.roles e (is_role name r.id)
                  (ground (arith, find-test (has_role_name name) db.roles e, eq_ℤ_refl r.id)),
            )
      | inl e ↦
          let i = suc db.role_seq in
          let row : Role = record {
            id = pos i;
            name = name;
            description = some description;
            created = some now;
            updated = some now;
          } in
          let free = next_free (λ (r : Role). r.id) db.role_seq db.roles a.roles in
          rw (e, upsert_role)
            (rw free (
              pos i,
              refl,
              record {
                roles = λ q h. any-left q db.roles (row ∷ []) h;
                grants = λ k c h. h;
                ahead = λ a. record {
                  roles = one_numbered (λ (r : Role). r.id) db.role_seq db.roles row refl a.roles;
                  permissions = a.permissions;
                };
              },
              any-right (is_role name (pos i)) row db.roles
                  (ground (arith, text_eq_refl name, eq_ℤ_refl (pos i))),
            ))
    ]

-- The tables after a run have a role Admin that holds "admin" and each of the codes.
abbrev pub IsSeeded : List Bytes → Db → Type 0
IsSeeded codes db =
    (role : ℤ) × (any (is_role (str "Admin") role) db.roles ≡ true)
    × AllGranted role (str "admin" ∷ codes) db

seed_lem :
    (codes : List Bytes) (w : World)
    → w.faults ≡ []
    → IsAhead w.db
    → ((seed codes w).0 ≡ ok tt)
      × ((seed codes w).1.faults ≡ [])
      × IsSeeded codes (seed codes w).1.db
      × IsAhead (seed codes w).1.db
unfolding seed
seed_lem codes w f a =
    let admin = str "Admin" in
    let text = str "Full administrative access" in
    let (role, e, kept, there) = upsert_role_lem admin text w.now w.db a in
    let w₁ : World = record w { db = (upsert_role admin text w.now w.db).1; faults = [] } in
    let known : any (has_role_id role) w₁.db.roles ≡ true =
      any-imp (is_role admin role) (has_role_id role) w₁.db.roles (λ r h. ground arith) there in
    let first =
      ensure_code_lem role admin (str "admin") (str "System") w₁ refl (kept.ahead a) known in
    let m = ensure_code role admin (str "admin") (str "System") in
    let others =
      ensure_codes_lem role codes (m w₁).1 first.no_faults (first.keeps.ahead (kept.ahead a))
        (first.keeps.roles (has_role_id role) known) in
    let all =
      seq_lem {P = λ db. is_granted role (str "admin") db ≡ true}
        {Q = AllGranted role (str "admin" ∷ codes)} m (ensure_codes role codes) w₁ first
        (Succeeds-imp {P = AllGranted role codes} {Q = AllGranted role (str "admin" ∷ codes)} others
          (λ r. (others.keeps.grants role (str "admin") first.result, r))) in
    let k = m >>= on_ok (λ _. ensure_codes role codes) in
    let runs : seed codes w ≡ k w₁ = rw (exec-fine (upsert_role admin text) w f) (rw e refl) in
    (
      ap (λ x. x.0) runs ∙ all.is_done,
      ap (λ x. x.1.faults) runs ∙ all.no_faults,
      subst (λ x. IsSeeded codes x.1.db) (sym runs)
          (role, all.keeps.roles (is_role admin role) there, all.result),
      subst (λ x. IsAhead x.1.db) (sym runs) (all.keeps.ahead (kept.ahead a)),
    )

-- Without a fault of the connection, and with no role or permission whose number is beyond its
-- sequence, a run of the seeder succeeds, and leaves a role Admin that holds "admin" and every code
-- it was given; and the numbers are again not beyond the sequences, so that it can run once more.
pub run-IsSeeded :
    (codes : List Bytes) (w : World)
    → w.faults ≡ []
    → IsAhead w.db
    → ((run codes w).0 ≡ ok tt) × IsSeeded codes (run codes w).1.db × IsAhead (run codes w).1.db
unfolding run
run-IsSeeded codes w f ahead =
    let w₁ = record w { faults = later_faults w.faults } in
    let (d, g, s, later) = seed_lem codes w₁ (ground (arith, f)) ahead in
    let runs : run codes w ≡ (ok tt, record ((seed codes w₁).1) { faults = [] }) =
      rw (ap next_fault f) (rw d (rw g refl)) in
    (
      ap (λ x. x.0) runs,
      subst (λ x. IsSeeded codes x.1.db) (sym runs) s,
      subst (λ x. IsAhead x.1.db) (sym runs) later,
    )

IsSameRows : Db → Db → Type 0
IsSameRows a b =
    (a.roles ≡ b.roles)
    × (a.permissions ≡ b.permissions)
    × (a.role_permissions ≡ b.role_permissions)

finish_lem :
    (before : Db) (r : Result (Unit {0})) (w : World) (e : DbError)
    → (finish before r w).0 ≡ err e
    → IsSameRows (finish before r w).1.db before
unfolding IsSameRows
finish_lem before (err x) w e h = (refl, refl, refl)
finish_lem before (ok a) w e h = elim (Bool-cases (next_fault w.faults)) [
  | inl f ↦ absurd (ground (arith, f, h))
  | inr f ↦ absurd (ground (arith, f, h))
]

-- A run that fails changes no row: the roles, the permissions and the grants are as they were.
pub run_error-rollback :
    (codes : List Bytes) (w : World) (e : DbError)
    → (run codes w).0 ≡ err e
    → ((run codes w).1.db.roles ≡ w.db.roles)
      × ((run codes w).1.db.permissions ≡ w.db.permissions)
      × ((run codes w).1.db.role_permissions ≡ w.db.role_permissions)
unfolding run IsSameRows
run_error-rollback codes w e h =
    let s = seed codes (record w { faults = later_faults w.faults }) in
    elim (Bool-cases (next_fault w.faults)) [
      | inl f ↦ rw f (refl, refl, refl)
      | inr f ↦
          let runs : run codes w ≡ finish w.db s.0 s.1 = rw f refl in
          subst (λ x. IsSameRows x.1.db w.db) (sym runs)
            (finish_lem w.db s.0 s.1 e (ap (λ x. x.0) (sym runs) ∙ h))
    ]

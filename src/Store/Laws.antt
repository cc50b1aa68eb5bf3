-- ===== src/Store/Laws.antt =====
-- A call of the database while the connection holds.
use sukumad.Prelude.{◌≡◌, refl, ap, [], Bool, true, false, Bool-cases, inl, inr, if◌then◌else◌}
use sukumad.Types.{Time}
use sukumad.Store.Tables.{Db}
use sukumad.Store.Calls.{Result, World, exec, query, next_fault}

pub exec-fine {ℓ} :
    {A : Type ℓ} (stmt : Time → Db → Result A × Db) (w : World)
    → w.faults ≡ []
    → exec stmt w ≡ ((stmt w.now w.db).0, record w { db = (stmt w.now w.db).1; faults = [] })
unfolding exec
exec-fine stmt w f = rw f refl

pub query-fine {ℓ} :
    {A : Type ℓ} (stmt : Time → Db → Result A) (w : World)
    → w.faults ≡ []
    → (query stmt w).0 ≡ stmt w.now w.db
unfolding query
query-fine stmt w f = ap (λ x. x.0) (exec-fine (λ t d. (stmt t d, d)) w f)

-- What a statement keeps stays also where its connection fails.
pub exec-keeps {ℓ κ} :
    {A : Type ℓ} (P : Db → Type κ) (stmt : Time → Db → Result A × Db) (w : World)
    → P (stmt w.now w.db).1
    → P w.db
    → P (exec stmt w).1.db
unfolding exec
exec-keeps P stmt w h v = elim (Bool-cases (next_fault w.faults)) [
  | inl e ↦ rw e v
  | inr e ↦ rw e h
]

pub branch-keeps {ℓ κ} :
    {R : Type ℓ} (P : Db → Type κ) (c : Bool) (a b : R × Db)
    → P a.1
    → P b.1
    → P (if c then a else b).1
branch-keeps P true a b h k = h
branch-keeps P false a b h k = k

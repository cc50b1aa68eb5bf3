-- ===== src/Queue/Sorting.antt =====
-- The sort that stands for ORDER BY in the functions of the queue: it is in order, and has the same
-- rows.
use sukumad.Prelude.{
  if◌then◌else◌, length, All, All-map, suc, ◌≡◌, refl, Bool, true, false, List, [], ◌∷◌, arith,
}
use sukumad.Types.{Delivery}
use sukumad.Queue.Claim.{insert_by, sort_by}

-- No row comes before one that stands ahead of it.
abbrev pub Sorted : (Delivery → Delivery → Bool) → List Delivery → Type 0
Sorted before [] = Unit
Sorted before (d ∷ ds) = All (λ e. before e d ≡ false) ds × Sorted before ds

pub record IsOrder (before : Delivery → Delivery → Bool) : Type 0 where
  pub asym : (a b : Delivery) → before a b ≡ true → before b a ≡ false
  pub trans : (a b c : Delivery) → before c b ≡ false → before b a ≡ false → before c a ≡ false

All-either :
    (P : Delivery → Type 0) (b : Bool) (xs ys : List Delivery)
    → All P xs
    → All P ys
    → All P (if b then xs else ys)
All-either P true xs ys h k = h
All-either P false xs ys h k = k

Sorted-either :
    (before : Delivery → Delivery → Bool) (b : Bool) (xs ys : List Delivery)
    → (b ≡ true → Sorted before xs)
    → (b ≡ false → Sorted before ys)
    → Sorted before (if b then xs else ys)
Sorted-either before true xs ys h k = h refl
Sorted-either before false xs ys h k = k refl

All-insert_by :
    (P : Delivery → Type 0) (before : Delivery → Delivery → Bool) (d : Delivery)
    (ds : List Delivery)
    → P d
    → All P ds
    → All P (insert_by before d ds)
unfolding insert_by
All-insert_by P before d [] h hs = (h, tt)
All-insert_by P before d (e ∷ es) h (k, ks) =
    All-either P (before e d) _ _ (k, All-insert_by P before d es h ks) (h, (k, ks))

insert_by-Sorted :
    (before : Delivery → Delivery → Bool) (o : IsOrder before) (d : Delivery) (ds : List Delivery)
    → Sorted before ds
    → Sorted before (insert_by before d ds)
unfolding insert_by
insert_by-Sorted before o d [] s = (tt, tt)
insert_by-Sorted before o d (e ∷ es) (k, s) =
    let tail = insert_by-Sorted before o d es s in
    Sorted-either before (before e d) _ _
      (λ h. (All-insert_by (λ x. before x e ≡ false) before d es (o.asym e d h) k, tail))
      (λ h. (
        (
          h,
          All-map (λ x. before x e ≡ false) (λ x. before x d ≡ false) (λ x n. o.trans d e x n h) es
              k,
        ),
        (k, s),
      ))

pub sort_by-Sorted :
    (before : Delivery → Delivery → Bool) (o : IsOrder before) (ds : List Delivery)
    → Sorted before (sort_by before ds)
unfolding sort_by
sort_by-Sorted before o [] = tt
sort_by-Sorted before o (d ∷ ds) =
    insert_by-Sorted before o d (sort_by before ds) (sort_by-Sorted before o ds)

pub All-sort_by :
    (P : Delivery → Type 0) (before : Delivery → Delivery → Bool) (ds : List Delivery)
    → All P ds
    → All P (sort_by before ds)
unfolding sort_by
All-sort_by P before [] h = tt
All-sort_by P before (d ∷ ds) (h, hs) =
    All-insert_by P before d (sort_by before ds) h (All-sort_by P before ds hs)

length-insert_by :
    (before : Delivery → Delivery → Bool) (d : Delivery) (ds : List Delivery)
    → length (insert_by before d ds) ≡ suc (length ds)
unfolding insert_by
length-insert_by before d [] = refl
length-insert_by before d (e ∷ es) = ground (arith, length-insert_by before d es)

pub length-sort_by :
    (before : Delivery → Delivery → Bool) (ds : List Delivery)
    → length (sort_by before ds) ≡ length ds
unfolding sort_by
length-sort_by before [] = refl
length-sort_by before (d ∷ ds) =
    omega (arith, length-insert_by before d (sort_by before ds), length-sort_by before ds)

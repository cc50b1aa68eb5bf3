-- ===== src/Prelude/Rows.antt =====
-- SQL's reading and writing of a table, a list of rows in the order of insertion.
use mathlib.Core.Path.{◌≡◌, refl, subst}
use mathlib.Core.Bool.{Bool, true, false, not}
use mathlib.Core.List.{List, [], ◌∷◌}
use mathlib.Core.Option
use mathlib.Core.Option.{none, some, some-injective}
use native.Mathlib.Omega.{arith}
use sukumad.Prelude.Tests.{Bool-cases, if◌then◌else◌}
use sukumad.Prelude.Lists.{length, find, filterb, All}
use mathlib.Core.Logic.{inl, inr}

module _ {ℓ} {R : Type ℓ} where
  -- UPDATE t SET … WHERE p
  abbrev pub update_where : (R → Bool) → (R → R) → List R → List R
  update_where p f [] = []
  update_where p f (r ∷ rs) = (if p r then f r else r) ∷ update_where p f rs

  -- DELETE FROM t WHERE p
  abbrev pub delete_where : (R → Bool) → List R → List R
  delete_where p rs = filterb (λ r. not (p r)) rs

  pub length-update_where :
      (p : R → Bool) (f : R → R) (rs : List R) → length (update_where p f rs) ≡ length rs
  length-update_where p f [] = refl
  length-update_where p f (r ∷ rs) = ground (arith, length-update_where p f rs)

  -- What an update leaves alone of a row that is searched by the same test.
  pub find-update_where :
      (p : R → Bool) (f : R → R) (rs : List R)
      → ((r : R) → p (f r) ≡ p r)
      → find p (update_where p f rs) ≡ Option.map f (find p rs)
  find-update_where p f [] k = refl
  find-update_where p f (r ∷ rs) k = elim (Bool-cases (p r)) [
    | inl here ↦ ground (arith, k r)
    | inr there ↦ ground (arith, k r, find-update_where p f rs k)
  ]

  -- The same for an update of the rows that pass any other test.
  pub find-update_where_each :
      (q p : R → Bool) (f : R → R) (rs : List R)
      → ((r : R) → q (f r) ≡ q r)
      → find q (update_where p f rs) ≡ Option.map (λ r. if p r then f r else r) (find q rs)
  find-update_where_each q p f [] k = refl
  find-update_where_each q p f (r ∷ rs) k = elim (Bool-cases (p r)) [
    | inl here ↦ ground (arith, k r, find-update_where_each q p f rs k)
    | inr there ↦ ground (arith, find-update_where_each q p f rs k)
  ]

  -- A search by another test, which no row that is updated passes before or after.
  pub find-update_where_ne :
      (q p : R → Bool) (f : R → R) (rs : List R)
      → ((r : R) → p r ≡ true → q r ≡ false)
      → ((r : R) → p r ≡ true → q (f r) ≡ false)
      → find q (update_where p f rs) ≡ find q rs
  find-update_where_ne q p f [] h k = refl
  find-update_where_ne q p f (r ∷ rs) h k =
      ground (arith, h r, k r, find-update_where_ne q p f rs h k)

  pub All-update_where {κ} :
      (P : R → Type κ) (p : R → Bool) (f : R → R) (rs : List R)
      → ((r : R) → p r ≡ true → P r → P (f r))
      → All P rs
      → All P (update_where p f rs)
  All-update_where P p f [] k h = tt
  All-update_where P p f (r ∷ rs) k (h, hs) = (go (p r) refl, All-update_where P p f rs k hs)
    where
      go : (b : Bool) → p r ≡ b → P (if b then f r else r)
      go true e = k r e h
      go false e = h

  pub find-delete_where : (p : R → Bool) (rs : List R) → find p (delete_where p rs) ≡ none
  find-delete_where p [] = refl
  find-delete_where p (r ∷ rs) = ground (arith, find-delete_where p rs)

  -- A row that a search finds passes its test.
  pub find-test : (p : R → Bool) {r : R} (rs : List R) → find p rs ≡ some r → p r ≡ true
  find-test p [] e = cc
  find-test p {r} (x ∷ xs) e = ground (arith, find-test p {r = r} xs)

  -- A row that a search finds is a row of the table.
  pub find-All {κ} :
      (P : R → Type κ) (p : R → Bool) {r : R} (rs : List R) → find p rs ≡ some r → All P rs → P r
  find-All P p [] e h = absurd (cc)
  find-All P p {r} (x ∷ xs) e (h, hs) = go (p x) e (λ e'. find-All P p xs e' hs)
    where
      go :
          (b : Bool) → (if b then some x else find p xs) ≡ some r → (find p xs ≡ some r → P r) → P r
      go true e k = subst P (some-injective _ _ e) h
      go false e k = k e

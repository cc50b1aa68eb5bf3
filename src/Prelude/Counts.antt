-- ===== src/Prelude/Counts.antt =====
-- How many elements of a list pass a test, after each of the list operations.
use Prim.Native.Nat.{ℕ, zero, suc, ◌+◌, ◌≤◌, ◌<◌}
use mathlib.Core.Path.{◌≡◌, refl}
use mathlib.Core.Bool.{Bool, true, false, ◌&&◌}
use mathlib.Core.List.{List, [], ◌∷◌, ◌++◌}
use native.Mathlib.Omega.{arith}
use sukumad.Prelude.Tests.{Bool-cases, if◌then◌else◌}
use mathlib.Core.Logic.{inl, inr}
use mathlib.Core.Option.{some}
use sukumad.Prelude.Lists.{take, find, any, filterb, countb}
use sukumad.Prelude.Rows.{update_where}

module _ {ℓ} {A : Type ℓ} where
  pub countb-append :
      (p : A → Bool) (xs ys : List A) → countb p (xs ++ ys) ≡ countb p xs + countb p ys
  countb-append p [] ys = omega arith
  countb-append p (x ∷ xs) ys = ground (arith, countb-append p xs ys)

  pub countb-take-le : (p : A → Bool) (n : ℕ) (xs : List A) → countb p (take n xs) ≤ countb p xs
  countb-take-le p zero xs = omega arith
  countb-take-le p (suc n) [] = omega arith
  countb-take-le p (suc n) (x ∷ xs) = ground (arith, countb-take-le p n xs)

  pub countb-filterb :
      (q p : A → Bool) (xs : List A) → countb q (filterb p xs) ≡ countb (λ x. p x && q x) xs
  countb-filterb q p [] = refl
  countb-filterb q p (x ∷ xs) = ground (arith, countb-filterb q p xs)

  pub countb-le :
      (p q : A → Bool) (xs : List A)
      → ((x : A) → p x ≡ true → q x ≡ true)
      → countb p xs ≤ countb q xs
  countb-le p q [] h = omega arith
  countb-le p q (x ∷ xs) h = ground (arith, h x, countb-le p q xs h)

  -- Two tests that exclude one another, inside a third.
  pub countb-add-le :
      (p r q : A → Bool) (xs : List A)
      → ((x : A) → p x ≡ true → (q x ≡ true) × (r x ≡ false))
      → ((x : A) → r x ≡ true → q x ≡ true)
      → countb p xs + countb r xs ≤ countb q xs
  countb-add-le p r q [] h k = omega arith
  countb-add-le p r q (x ∷ xs) h k = ground (arith, h x, k x, countb-add-le p r q xs h k)

  pub any-of_countb : (p : A → Bool) (xs : List A) → any p xs ≡ false → countb p xs ≡ 0
  any-of_countb p [] h = refl
  any-of_countb p (x ∷ xs) h = ground (arith, any-of_countb p xs)

  -- An update, row by row.
  pub countb-update_where :
      (q r p : A → Bool) (f : A → A) (xs : List A)
      → ((x : A) → q (if p x then f x else x) ≡ r x)
      → countb q (update_where p f xs) ≡ countb r xs
  countb-update_where q r p f [] h = refl
  countb-update_where q r p f (x ∷ xs) h = ground (arith, h x, countb-update_where q r p f xs h)

  pub countb-of_any : (p : A → Bool) (xs : List A) → any p xs ≡ true → 0 < countb p xs
  countb-of_any p [] h = absurd (cc)
  countb-of_any p (x ∷ xs) h = ground (arith, countb-of_any p xs)

  pub countb-update_where-le :
      (q r p : A → Bool) (f : A → A) (xs : List A)
      → ((x : A) → q (if p x then f x else x) ≡ true → r x ≡ true)
      → countb q (update_where p f xs) ≤ countb r xs
  countb-update_where-le q r p f [] h = omega arith
  countb-update_where-le q r p f (x ∷ xs) h =
      ground (arith, h x, countb-update_where-le q r p f xs h)

  -- If at most one element passes a test, the one that a search finds passes any narrower test
  -- that some element passes.
  pub find-countb_one :
      (q r : A → Bool) {a : A} (xs : List A)
      → ((x : A) → r x ≡ true → q x ≡ true)
      → countb q xs ≤ 1
      → 0 < countb r xs
      → find q xs ≡ some a
      → r a ≡ true
  find-countb_one q r [] h one more e = absurd (cc)
  find-countb_one q r {a} (x ∷ xs) h one more e = elim (Bool-cases (q x)) [
    | inl here ↦ ground (arith, h x, countb-le r q xs h)
    | inr there ↦
        find-countb_one q r {a = a} xs h (ground arith) (ground (arith, h x)) (ground arith)
  ]

  pub find-countb_zero :
      (q r : A → Bool) {a : A} (xs : List A)
      → countb (λ x. q x && r x) xs ≡ 0
      → find q xs ≡ some a
      → r a ≡ false
  find-countb_zero q r [] z e = absurd (cc)
  find-countb_zero q r {a} (x ∷ xs) z e = ground (arith, find-countb_zero q r {a = a} xs)

-- ===== src/Prelude/Any.antt =====
-- Whether some row passes a test, as rows are added, change and go.
use Prim.Native.Nat.{◌≤◌}
use mathlib.Core.Path.{◌≡◌, refl}
use mathlib.Core.Bool.{Bool, true, false, ◌||◌}
use mathlib.Core.Logic.{inl, inr}
use mathlib.Core.List.{List, [], ◌∷◌, ◌++◌, map}
use native.Mathlib.Omega.{arith}
use sukumad.Prelude.Tests.{is_some, Bool-cases}
use sukumad.Prelude.Lists.{any, find, filterb, countb, All}
use sukumad.Prelude.Rows.{update_where, delete_where}

module _ {ℓ} {A : Type ℓ} where
  pub any-append_left : (p : A → Bool) (xs ys : List A) → any p xs ≡ true → any p (xs ++ ys) ≡ true
  any-append_left p [] ys h = absurd (cc)
  any-append_left p (x ∷ xs) ys h = ground (arith, any-append_left p xs ys)

  pub any-update_where :
      (q p : A → Bool) (f : A → A) (xs : List A)
      → ((x : A) → q (f x) ≡ q x)
      → any q (update_where p f xs) ≡ any q xs
  any-update_where q p f [] k = refl
  any-update_where q p f (x ∷ xs) k = ground (arith, k x, any-update_where q p f xs k)

  pub any-append : (p : A → Bool) (xs ys : List A) → any p (xs ++ ys) ≡ (any p xs || any p ys)
  any-append p [] ys = refl
  any-append p (x ∷ xs) ys = ground (arith, any-append p xs ys)

  -- A row that passes a test stays, if what goes does not pass it.
  pub any-delete_where_keep :
      (q p : A → Bool) (xs : List A)
      → ((x : A) → q x ≡ true → p x ≡ false)
      → any q xs ≡ true
      → any q (delete_where p xs) ≡ true
  any-delete_where_keep q p [] k h = absurd (cc)
  any-delete_where_keep q p (x ∷ xs) k h = ground (arith, k x, any-delete_where_keep q p xs k)

  pub any-delete_where_none :
      (q p : A → Bool) (xs : List A) → any q xs ≡ false → any q (delete_where p xs) ≡ false
  any-delete_where_none q p [] h = h
  any-delete_where_none q p (x ∷ xs) h = ground (arith, any-delete_where_none q p xs)

  pub any-weaken :
      (q p : A → Bool) (xs : List A)
      → ((x : A) → q x ≡ true → p x ≡ true)
      → any q xs ≡ true
      → any p xs ≡ true
  any-weaken q p [] k h = absurd (cc)
  any-weaken q p (x ∷ xs) k h = ground (arith, k x, any-weaken q p xs k)

  pub All-of_any : (p : A → Bool) (xs : List A) → any p xs ≡ false → All (λ x. p x ≡ false) xs
  All-of_any p [] h = tt
  All-of_any p (x ∷ xs) h = (ground (arith, h), All-of_any p xs (ground (arith, h)))

  pub All-both {κ μ ν} :
      (P : A → Type κ) (Q : A → Type μ) (R : A → Type ν) (xs : List A)
      → ((x : A) → P x → Q x → R x)
      → All P xs
      → All Q xs
      → All R xs
  All-both P Q R [] k h h' = tt
  All-both P Q R (x ∷ xs) k (h, hs) (h', hs') = (k x h h', All-both P Q R xs k hs hs')

  pub some-of_any : (p : A → Bool) (xs : List A) → is_some (find p xs) ≡ any p xs
  some-of_any p [] = refl
  some-of_any p (x ∷ xs) = ground (arith, some-of_any p xs)

  pub update_where-none :
      (p : A → Bool) (f : A → A) (xs : List A) → any p xs ≡ false → update_where p f xs ≡ xs
  update_where-none p f [] h = refl
  update_where-none p f (x ∷ xs) h =
      rw (update_where-none p f xs (ground (arith, h)))
        (elim (Bool-cases (p x)) [ inl e ↦ absurd (ground (arith, e, h)) | inr e ↦ rw e refl ])

  pub countb-filterb-le : (q p : A → Bool) (xs : List A) → countb q (filterb p xs) ≤ countb q xs
  countb-filterb-le q p [] = omega arith
  countb-filterb-le q p (x ∷ xs) = ground (arith, countb-filterb-le q p xs)

  -- Rows that change, but not for a test.
  pub any-map :
      (q : A → Bool) (f : A → A) (xs : List A)
      → ((x : A) → q (f x) ≡ q x)
      → any q (map f xs) ≡ any q xs
  any-map q f [] k = refl
  any-map q f (x ∷ xs) k = ground (arith, k x, any-map q f xs k)

  pub countb-map :
      (q : A → Bool) (f : A → A) (xs : List A)
      → ((x : A) → q (f x) ≡ q x)
      → countb q (map f xs) ≡ countb q xs
  countb-map q f [] k = refl
  countb-map q f (x ∷ xs) k = ground (arith, k x, countb-map q f xs k)

  pub All-mapped {κ μ} :
      (P : A → Type κ) (Q : A → Type μ) (f : A → A) (xs : List A)
      → ((x : A) → P x → Q (f x))
      → All P xs
      → All Q (map f xs)
  All-mapped P Q f [] k h = tt
  All-mapped P Q f (x ∷ xs) k (h, hs) = (k x h, All-mapped P Q f xs k hs)

-- ===== src/Text/Parts.antt =====
-- The parts of a byte string.
use mathlib.Core.List.{reverse-append, reverse-reverse}
use sukumad.Prelude.{
  ◌==◌, Bool-cases, any, ℕ, ◌≡◌, refl, inl, inr, Bool, false, [], ◌∷◌, ◌++◌, arith,
}
use sukumad.Text.{Bytes, is_empty, drop_byte, trim_right, split}

pub trim_right-last :
    (c a : ℕ) (s : Bytes) → a == c ≡ false → trim_right c (s ++ (a ∷ [])) ≡ s ++ (a ∷ [])
unfolding trim_right drop_byte
trim_right-last c a s e =
    rw (reverse-append s (a ∷ []))
      (rw e (cc (reverse-append s (a ∷ []), reverse-reverse (s ++ (a ∷ [])))))

-- A string without the separator is its only part.
pub split-whole : (c : ℕ) (s : Bytes) → any (λ a. a == c) s ≡ false → split c s ≡ s ∷ []
unfolding split
split-whole c [] e = refl
split-whole c (a ∷ s) e = elim (Bool-cases (a == c)) [
  | inl k ↦ absurd (ground (arith, k, e))
  | inr k ↦ rw k (rw (split-whole c s (ground (arith, k, e))) refl)
]

pub any-last : (p : ℕ → Bool) (s : Bytes) (a : ℕ) → any p (s ++ (a ∷ [])) ≡ false → p a ≡ false
any-last p [] a e = ground (arith, e)
any-last p (b ∷ s) a e = any-last p s a (ground (arith, e))

pub is_empty-between : (s t : Bytes) (c : ℕ) → is_empty (s ++ (c ∷ t)) ≡ false
is_empty-between [] t c = refl
is_empty-between (b ∷ s) t c = refl

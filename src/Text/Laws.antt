-- ===== src/Text/Laws.antt =====
-- Laws of the byte strings.
use sukumad.Prelude.{length, drop, ℕ, ◌≡◌, refl, ◌↔◌, true, [], ◌∷◌, ◌++◌, arith}
use sukumad.Text.{Bytes, text_eq, upper_byte, to_upper, has_prefix}

pub text_eq_iff : (s t : Bytes) → (text_eq s t ≡ true) ↔ (s ≡ t)
unfolding text_eq
text_eq_iff [] [] = ground arith
text_eq_iff [] (b ∷ t) = ground arith
text_eq_iff (a ∷ s) [] = ground arith
text_eq_iff (a ∷ s) (b ∷ t) = ground (arith, text_eq_iff s t)

pub text_eq_refl : (s : Bytes) → text_eq s s ≡ true
text_eq_refl s = (text_eq_iff s s).1 refl

-- A text begins with a prefix of which it is made.
pub has_prefix-append : (p s : Bytes) → has_prefix (p ++ s) p ≡ true
unfolding has_prefix
has_prefix-append [] s = refl
has_prefix-append (a ∷ p) s = ground (arith, has_prefix-append p s)

-- And a text that passes the test is made of the prefix and what follows it.
pub append_of_has_prefix : (s p : Bytes) → has_prefix s p ≡ true → s ≡ p ++ drop (length p) s
unfolding has_prefix
append_of_has_prefix s [] e = refl
append_of_has_prefix [] (b ∷ p) e = absurd (cc)
append_of_has_prefix (a ∷ s) (b ∷ p) e = ground (arith, append_of_has_prefix s p)

-- Upper case is unchanged by upper case.
pub upper_byte_idem : (c : ℕ) → upper_byte (upper_byte c) ≡ upper_byte c
upper_byte_idem c = ground arith

pub to_upper_idem : (s : Bytes) → to_upper (to_upper s) ≡ to_upper s
unfolding to_upper
to_upper_idem [] = refl
to_upper_idem (c ∷ s) = cc (upper_byte_idem c, to_upper_idem s)

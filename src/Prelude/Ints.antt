-- ===== src/Prelude/Ints.antt =====
-- Go's signed integers: `int` and `int64` as integers, with the conversions that wrap.
use Prim.Native.Nat.{zero, ℕ, suc, ◌+◌, ◌-◌, ◌*◌, ◌%◌, ◌<◌}
use mathlib.Core.Path.{◌≡◌, refl}
use mathlib.Core.Logic.{◌↔◌}
use mathlib.Core.Bool.{Bool, true, false}
use native.Mathlib.Omega.{arith}
use sukumad.Prelude.Tests.{ltb, leb, ◌==◌, if◌then◌else◌}

-- `negsuc n` is -(n + 1).
pub data ℤ : Type 0 where
  pos : ℕ → ℤ
  negsuc : ℕ → ℤ

abbrev pub pos_part : ℤ → ℕ
pos_part (pos n) = n
pos_part (negsuc n) = 0

abbrev pub neg_part : ℤ → ℕ
neg_part (pos n) = 0
neg_part (negsuc n) = suc n

unfoldable pub eq_ℤ : ℤ → ℤ → Bool
eq_ℤ (pos a) (pos b) = a == b
eq_ℤ (negsuc a) (negsuc b) = a == b
eq_ℤ _ _ = false

pub eq_ℤ_iff : (a b : ℤ) → (eq_ℤ a b ≡ true) ↔ (a ≡ b)
unfolding eq_ℤ
eq_ℤ_iff (pos a) (pos b) = ground arith
eq_ℤ_iff (negsuc a) (negsuc b) = ground arith
eq_ℤ_iff (pos a) (negsuc b) = ground arith
eq_ℤ_iff (negsuc a) (pos b) = ground arith

pub eq_ℤ_refl : (a : ℤ) → eq_ℤ a a ≡ true
eq_ℤ_refl a = (eq_ℤ_iff a a).1 refl

-- `a <= 0`
abbrev pub is_nonpos : ℤ → Bool
is_nonpos (pos n) = n == 0
is_nonpos (negsuc n) = true

-- The two's complement reading of the low 32 bits: the conversion `int32(x)`.
unfoldable pub signed32 : ℕ → ℤ
signed32 n = if ltb n 2147483648 then pos n else negsuc (4294967295 - n)

unfoldable pub int32 : ℤ → ℤ
unfolding signed32
int32 (pos n) = signed32 (n % 4294967296)
int32 (negsuc n) = signed32 (4294967295 - n % 4294967296)

pub int32_small : (n : ℕ) → n < 2147483648 → int32 (pos n) ≡ pos n
unfolding int32
int32_small n h = ground arith

-- Adding a multiple of 2 ^ 32 is lost.
pub int32_wraps : (n k : ℕ) → int32 (pos (n + k * 4294967296)) ≡ int32 (pos n)
unfolding int32
int32_wraps n k = ground arith

abbrev pub lt_ℤ : ℤ → ℤ → Bool
lt_ℤ a b = ltb (pos_part a + neg_part b) (pos_part b + neg_part a)

-- The two's complement reading of the low 64 bits: an int64 result that wraps.
unfoldable pub signed64 : ℕ → ℤ
signed64 n = if ltb n 9223372036854775808 then pos n else negsuc (18446744073709551615 - n)

unfoldable pub int64 : ℤ → ℤ
unfolding signed64
int64 (pos n) = signed64 (n % 18446744073709551616)
int64 (negsuc n) = signed64 (18446744073709551615 - n % 18446744073709551616)

pub int64_small : (n : ℕ) → n < 9223372036854775808 → int64 (pos n) ≡ pos n
unfolding int64
int64_small n h = ground arith

-- A multiple of an integer.
abbrev pub scale_ℤ : ℤ → ℕ → ℤ
scale_ℤ (pos n) k = pos (n * k)
scale_ℤ (negsuc n) k = if k == 0 then pos 0 else negsuc (suc n * k - 1)

abbrev pub negate : ℕ → ℤ
negate zero = pos 0
negate (suc n) = negsuc n

-- A number that a sequence has handed out, and the next one.
abbrev pub is_numbered : ℕ → ℤ → Bool
is_numbered n (pos k) = leb k n
is_numbered n (negsuc k) = false

pub numbered_later : (n : ℕ) (i : ℤ) → is_numbered n i ≡ true → is_numbered (suc n) i ≡ true
numbered_later n (pos k) e = ground (arith, e)
numbered_later n (negsuc k) e = absurd (cc)

pub numbered_other : (n : ℕ) (i : ℤ) → is_numbered n i ≡ true → eq_ℤ i (pos (suc n)) ≡ false
unfolding eq_ℤ
numbered_other n (pos k) e = ground (arith, e)
numbered_other n (negsuc k) e = refl

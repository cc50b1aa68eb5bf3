-- ===== src/Accounts/Lockout.antt =====
-- The lock on an account after failed logins, and what lifts it.
use sukumad.Prelude.{
  leb, if◌then◌else◌, length, ℕ, ◌+◌, ◌≤◌, ◌<◌, ◌≡◌, refl, Option, none, some, List, [], ◌∷◌, arith,
}
use sukumad.Types.{Time}
use sukumad.Store.{UserRow}
use sukumad.Accounts.Logins.{failures_after, failed_with_lockout}

-- One failure after another.
unfoldable pub fail_at : ℕ → ℕ → ℕ → List Time → UserRow → UserRow
unfolding failed_with_lockout
fail_at threshold window lockout [] r = r
fail_at threshold window lockout (now ∷ times) r =
    fail_at threshold window lockout times (failed_with_lockout now threshold window lockout r)

-- Each time is no further from the one before than the window.
abbrev pub InWindow : ℕ → Time → List Time → Type 0
InWindow window t [] = Unit
InWindow window t (now ∷ times) = (now ≤ t + window) × InWindow window now times

abbrev pub final_time : Time → List Time → Time
final_time t [] = t
final_time t (now ∷ times) = final_time now times

-- The time is further from the last failure on record than the window, or none is on record.
abbrev pub IsApart : ℕ → Option Time → Time → Type 0
IsApart window none t = Unit
IsApart window (some u) t = u + window < t

fail_at_lem :
    (threshold window lockout : ℕ) (t : Time) (times : List Time) (r : UserRow) (n : ℕ)
    (old : Option Time)
    → r.user.last_failed_at ≡ some t
    → r.user.failed_attempts ≡ some n
    → r.user.locked_until ≡ (if leb threshold n then some (t + lockout) else old)
    → InWindow window t times
    → let r' = fail_at threshold window lockout times r in
      (r'.user.failed_attempts ≡ some (n + length times))
      × (r'.user.locked_until
          ≡ (if leb threshold (n + length times) then some (final_time t times + lockout) else old))
unfolding fail_at
fail_at_lem threshold window lockout t [] r n old f a l k = ground (arith, f, a, l)
fail_at_lem threshold window lockout t (now ∷ times) r n old f a l (h, k) =
    let r' = failed_with_lockout now threshold window lockout r in
    let counted : r'.user.failed_attempts ≡ some (n + 1) = ground (arith, f, a, h) in
    let still : r'.user.locked_until
        ≡ (if leb threshold (n + 1) then some (now + lockout) else old) =
      ground (arith, f, a, h, l) in
    ground
      (arith, fail_at_lem threshold window lockout now times r' (n + 1) old refl counted still k)

first_failure :
    (window : ℕ) (t : Time) (r : UserRow)
    → IsApart window r.user.last_failed_at t
    → failures_after t window r ≡ 1
unfolding failures_after
first_failure window t r h = go r.user.last_failed_at refl h
  where
    go :
        (o : Option Time)
        → r.user.last_failed_at ≡ o
        → IsApart window o t
        → failures_after t window r ≡ 1
    go none e h = ground (arith, e)
    go (some u) e h = ground (arith, e, h)

-- Whatever is on record of an account, wrong passwords of which the first comes later after the
-- last one on record than the window, or is the first, and each other within the window of the one
-- before, are counted from one again; and they lock the account, until the lockout has passed since
-- the last of them, exactly if they are as many as the threshold, and else leave its lock as it was.
pub fail_at-locks :
    (threshold window lockout : ℕ) (t : Time) (times : List Time) (r : UserRow)
    → IsApart window r.user.last_failed_at t
    → InWindow window t times
    → let r' = fail_at threshold window lockout (t ∷ times) r in
      (r'.user.failed_attempts ≡ some (1 + length times))
      × (r'.user.locked_until ≡ (
          if leb threshold (1 + length times)
          then some (final_time t times + lockout)
          else r.user.locked_until))
unfolding fail_at failed_with_lockout
fail_at-locks threshold window lockout t times r f k =
    let r' = failed_with_lockout t threshold window lockout r in
    let one = first_failure window t r f in
    let counted : r'.user.failed_attempts ≡ some 1 = ground (arith, one) in
    let still : r'.user.locked_until
        ≡ (if leb threshold 1 then some (t + lockout) else r.user.locked_until) =
      ground (arith, one) in
    fail_at_lem threshold window lockout t times r' 1 r.user.locked_until refl counted still k

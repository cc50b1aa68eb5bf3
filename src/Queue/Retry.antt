-- ===== src/Queue/Retry.antt =====
-- The retries of finalize_delivery: how long they wait, and that they end.
use sukumad.Prelude.{
  leb, if◌then◌else◌, Option-cases, coalesce, length, All, ℕ, suc, ◌+◌, ◌*◌, ◌^◌, ◌≤◌, max, ◌≡◌,
  ◌⊎◌, inl, inr, false, none, some, List, [], ◌∷◌, arith,
}
use sukumad.Types.{Time, ready, failed, Delivery}
use sukumad.Queue.Moves.{second, Final, backoff_seconds, is_exhausted, finalized_row}
use sukumad.Queue.Claim.{claimed_row}
use native.Mathlib.Nat.{pow-le-pow_right}

two_le_pow : (n : ℕ) → 2 ≤ 2 ^ max n 1
two_le_pow n = pow-le-pow_right {n = 2} (omega arith) {i = 1} {j = max n 1} (omega arith)

-- With the worker's limits of 2 and 120 seconds, the wait before a retry lies between 4 and 120
-- seconds, and a later attempt never waits less.
backoff_seconds-bounds :
    (a b : ℕ)
    → a ≤ b
    → (4 ≤ backoff_seconds 2 120 a)
      × (backoff_seconds 2 120 a ≤ backoff_seconds 2 120 b)
      × (backoff_seconds 2 120 b ≤ 120)
unfolding backoff_seconds
backoff_seconds-bounds a b h =
    let grows : 2 ^ max a 1 ≤ 2 ^ max b 1 =
      pow-le-pow_right {n = 2} (omega arith) {i = max a 1} {j = max b 1} (omega arith) in
    omega (arith, grows, two_le_pow a)

retried_lem :
    (now : Time) (p : Final) (d : Delivery)
    → p.succeeded ≡ false
    → p.backoff_min_seconds ≡ 2
    → p.backoff_max_seconds ≡ 120
    → is_exhausted p d ≡ false
    → p.retry_after ≡ none
    → (finalized_row now p d).next_run_at ≡ now + backoff_seconds 2 120 d.attempts * second
unfolding finalized_row
retried_lem now p d f lo hi more r = ground (arith, f, lo, hi, more, r)

-- A failed attempt that may be repeated leaves the delivery ready, and it is due again at the time
-- that the server's Retry-After names, if it names one, whenever that is; and else, with the
-- worker's limits, from 4 to 120 seconds after the failure, and never sooner than an attempt of the
-- same delivery before it would have been.
pub finalized_row_due :
    (now : Time) (p : Final) (d : Delivery) (before : ℕ)
    → p.succeeded ≡ false
    → p.backoff_min_seconds ≡ 2
    → p.backoff_max_seconds ≡ 120
    → is_exhausted p d ≡ false
    → before ≤ d.attempts
    → let row = finalized_row now p d in
      let earlier = finalized_row now p (record d { attempts = before }) in
      (row.status ≡ ready)
      × (((t : Time) × (p.retry_after ≡ some t) × (row.next_run_at ≡ t))
          ⊎ ((p.retry_after ≡ none)
              × (now + 4 * second ≤ row.next_run_at)
              × (row.next_run_at ≤ now + 120 * second)
              × (earlier.next_run_at ≤ row.next_run_at)))
unfolding finalized_row
finalized_row_due now p d before f lo hi more le =
    let (least, grows, most) = backoff_seconds-bounds before d.attempts le in
    let still : is_exhausted p (record d { attempts = before }) ≡ false =
      ground (arith, more, le) in
    let row = retried_lem now p d f lo hi more in
    let earlier = retried_lem now p (record d { attempts = before }) f lo hi still in
    elim (Option-cases p.retry_after) [
      | inr (t, r) ↦ (ground (arith, f, more), inl (t, r, ground (arith, f, more, r)))
      | inl r ↦ (
        ground (arith, f, more),
        inr (
          r,
          omega (arith, row r, least, grows),
          omega (arith, row r, most),
          omega (arith, row r, earlier r, grows),
        ),
      )
    ]

-- One attempt that fails: the claim, and finalize_delivery.
unfoldable pub fail_once : Time → Final → Delivery → Delivery
unfolding finalized_row
fail_once now p d = finalized_row now p (claimed_row now d)

unfoldable pub fail_each : List (Time × Final) → Delivery → Delivery
unfolding fail_once
fail_each [] d = d
fail_each ((now, p) ∷ ps) d = fail_each ps (fail_once now p d)

abbrev pub IsFailure : ℕ → Time × Final → Type 0
IsFailure m (now, p) = (p.succeeded ≡ false) × (p.default_max_attempts ≡ m)

fail_once_lem :
    (m : ℕ) (now : Time) (p : Final) (d : Delivery)
    → IsFailure m (now, p)
    → ((fail_once now p d).attempts ≡ d.attempts + 1)
      × ((fail_once now p d).max_attempts ≡ d.max_attempts)
      × ((fail_once now p d).status
          ≡ (if leb (coalesce d.max_attempts m) (d.attempts + 1) then failed else ready))
unfolding fail_once
fail_once_lem m now p d h = ground arith

-- Whatever the errors, after any positive number of failed attempts the delivery is failed exactly
-- if they are as many as its limit (or the default one) allows, counting those made before, and
-- else it is ready again.
pub fail_each-status :
    (m : ℕ) (x : Time × Final) (ps : List (Time × Final)) (d : Delivery)
    → IsFailure m x
    → All (IsFailure m) ps
    → ((fail_each (x ∷ ps) d).attempts ≡ d.attempts + suc (length ps))
      × ((fail_each (x ∷ ps) d).status ≡ (
          if leb (coalesce d.max_attempts m) (d.attempts + suc (length ps)) then failed else ready))
unfolding fail_each
fail_each-status m (now, p) [] d h hs = ground (arith, fail_once_lem m now p d h)
fail_each-status m (now, p) (y ∷ ps) d h (k, ks) =
    ground (arith, fail_once_lem m now p d h, fail_each-status m y ps (fail_once now p d) k ks)

-- ===== src/Queue/Counts.antt =====
-- How many rows of a delivery have a status, before and after a claim.
use sukumad.Prelude.{
  if◌then◌else◌, Bool-cases, any, filterb, countb, update_where, countb-take-le, countb-filterb,
  countb-le, countb-add-le, any-of_countb, countb-update_where, countb-of_any, ℤ, eq_ℤ_iff, ℕ, ◌+◌,
  ◌≤◌, ◌≡◌, refl, ap, inl, inr, Bool, true, false, ◌&&◌, List, [], ◌∷◌, arith,
}
use sukumad.Types.{Time, Status, ready, processing, Delivery}
use sukumad.Queue.Moves.{has_id}
use sukumad.Queue.Claim.{can_send, send_before, insert_by, sort_by, pick, is_picked, claimed_row}
use sukumad.Store.{Db}

abbrev pub is_processing : Status → Bool
is_processing processing = true
is_processing _ = false

-- Ready or being sent: the worker has not heard of the outcome.
abbrev pub is_open : Status → Bool
is_open ready = true
is_open processing = true
is_open _ = false

abbrev pub busy : ℤ → Delivery → Bool
busy i d = has_id i d && is_processing d.status

abbrev pub open_for : ℤ → Delivery → Bool
open_for i d = has_id i d && is_open d.status

countb-insert_by :
    (q : Delivery → Bool) (before : Delivery → Delivery → Bool) (d : Delivery) (ds : List Delivery)
    → countb q (insert_by before d ds) ≡ countb q (d ∷ ds)
unfolding insert_by
countb-insert_by q before d [] = refl
countb-insert_by q before d (e ∷ ds) = ground (arith, countb-insert_by q before d ds)

pub countb-sort_by :
    (q : Delivery → Bool) (before : Delivery → Delivery → Bool) (ds : List Delivery)
    → countb q (sort_by before ds) ≡ countb q ds
unfolding sort_by
countb-sort_by q before [] = refl
countb-sort_by q before (d ∷ ds) =
    ground (arith, countb-insert_by q before d (sort_by before ds), countb-sort_by q before ds)

pub countb-pick-le :
    (q : Delivery → Bool) (before : Delivery → Delivery → Bool) (eligible : Delivery → Bool)
    (limit : ℕ) (ds : List Delivery)
    → countb q (pick before eligible limit ds) ≤ countb (λ d. eligible d && q d) ds
unfolding pick
countb-pick-le q before eligible limit ds = omega (
  arith,
  countb-take-le q limit (sort_by before (filterb eligible ds)),
  countb-sort_by q before (filterb eligible ds),
  countb-filterb q eligible ds,
)

-- One claim: the rows that it picks, and the table that it leaves.
module _ (now : Time) (db : Db) (limit : ℕ) (i : ℤ) where
  abbrev pub picked_to_send : List Delivery
  picked_to_send = pick send_before (can_send now db) limit db.deliveries

  abbrev pub after_claim : List Delivery
  after_claim = update_where (is_picked picked_to_send) (claimed_row now) db.deliveries

  is_picked_same :
      (d : Delivery)
      → has_id i d ≡ true
      → is_picked picked_to_send d ≡ any (has_id i) picked_to_send
  is_picked_same d h = ap (λ j. any (has_id j) picked_to_send) ((eq_ℤ_iff d.id i).0 h)

  ready_count-le :
      countb (has_id i) picked_to_send ≤ countb (λ d. can_send now db d && has_id i d) db.deliveries
  ready_count-le = countb-pick-le (has_id i) send_before (can_send now db) limit db.deliveries

  claimed_busy :
      any (has_id i) picked_to_send ≡ true
      → (d : Delivery)
      → busy i (if is_picked picked_to_send d then claimed_row now d else d) ≡ has_id i d
  claimed_busy h d = elim (Bool-cases (has_id i d)) [
    | inl e ↦ ground (arith, is_picked_same d e)
    | inr e ↦ ground arith
  ]

  -- A test that reads the id and the status is unchanged on a delivery that is not picked.
  unclaimed :
      (q : Status → Bool)
      → any (has_id i) picked_to_send ≡ false
      → (d : Delivery)
      → (has_id i (if is_picked picked_to_send d then claimed_row now d else d)
          && q (if is_picked picked_to_send d then claimed_row now d else d).status)
        ≡ (has_id i d && q d.status)
  unclaimed q h d = elim (Bool-cases (has_id i d)) [
    | inl e ↦ ground (arith, is_picked_same d e)
    | inr e ↦ ground arith
  ]

  pub busy-after_claim :
      countb (busy i) db.deliveries + countb (has_id i) picked_to_send ≤ countb (busy i) after_claim
  unfolding can_send
  busy-after_claim = elim (Bool-cases (any (has_id i) picked_to_send)) [
    | inl h ↦ omega (
      arith,
      ready_count-le,
      countb-update_where (busy i) (has_id i) (is_picked picked_to_send) (claimed_row now)
          db.deliveries (claimed_busy h),
      countb-add-le (busy i) (λ d. can_send now db d && has_id i d) (has_id i) db.deliveries
          (λ d e. ground arith) (λ d e. ground arith),
    )
    | inr h ↦ omega (
      arith,
      any-of_countb (has_id i) picked_to_send h,
      countb-update_where (busy i) (busy i) (is_picked picked_to_send) (claimed_row now)
          db.deliveries (unclaimed is_processing h),
    )
  ]

  pub open-after_claim : countb (open_for i) db.deliveries ≡ 0 → countb (open_for i) after_claim ≡ 0
  unfolding can_send
  open-after_claim z = elim (Bool-cases (any (has_id i) picked_to_send)) [
    | inl h ↦ absurd (
        omega (
          arith,
          countb-of_any (has_id i) picked_to_send h,
          ready_count-le,
          countb-le (λ d. can_send now db d && has_id i d) (open_for i) db.deliveries
              (λ d e. ground arith),
        ))
    | inr h ↦ omega (
      arith,
      countb-update_where (open_for i) (open_for i) (is_picked picked_to_send) (claimed_row now)
          db.deliveries (unclaimed is_open h),
    )
  ]

  pub rows-after_claim : countb (has_id i) after_claim ≡ countb (has_id i) db.deliveries
  rows-after_claim =
      countb-update_where (has_id i) (has_id i) (is_picked picked_to_send) (claimed_row now)
        db.deliveries (λ d. ground arith)

-- ===== src/Queue/Tests.antt =====
-- The theorems of the queue, applied to small tables.
use mathlib.Core.Option
use sukumad.Prelude.{
  if◌then◌else◌, length, any, countb, ℤ, pos, eq_ℤ, ◌+◌, ◌*◌, ◌≤◌, min, ◌≡◌, refl, ◌⊎◌, Bool, true,
  false, ◌&&◌, none, some, List, [], ◌∷◌, ◌++◌, map, arith,
}
use sukumad.Types.{Time, ready, failed, Delivery}
use sukumad.Store.{ok, World, exec, is_ok}
use sukumad.Queue.Moves.{second, has_id, get_delivery, Final, finalized_row}
use sukumad.Queue.Claim.{can_send, send_before, SendRow, claim_deliveries}
use sukumad.Queue.Expand.{expand_request_to_deliveries}
use sukumad.Queue.Retry.{finalized_row_due, fail_each, fail_each-status}
use sukumad.Queue.Copies.{Inserted, Accepts, expand_request_to_deliveries-Inserted}
use sukumad.Queue.Sorting.{Sorted}
use sukumad.Queue.Turn.{marked, claim_deliveries-in_turn}
use sukumad.Samples.{world_of, delivery_1, one_delivery}
use sukumad.Queue.Sendable.{sendable, expand_request_to_deliveries-sendable}
use sukumad.Text.{str, text_eq}

abbrev w₁ : World
w₁ = world_of one_delivery

claim_deliveries-in_turn_example :
    let (r, w') = claim_deliveries 5 w₁ in
    (rows : List SendRow) × (r ≡ ok rows)
    × (length rows ≡ min 5 (countb (can_send w₁.now w₁.db) w₁.db.deliveries))
    × ((picked : List Delivery) × (rest : List Delivery) × Sorted send_before (picked ++ rest)
        × ((q : Delivery → Bool)
            → countb q (picked ++ rest)
              ≡ countb (λ d. can_send w₁.now w₁.db d && q d) w₁.db.deliveries)
        × ((q : Delivery → Bool)
            → countb q (map (λ (row : SendRow). row.delivery) rows)
              ≡ countb q (map (marked w₁.now) picked))
        × ((i : ℤ)
            → get_delivery i w'.db
              ≡ Option.map
                  (λ d. if any (has_id i) picked then marked w₁.now d else d)
                  (get_delivery i w₁.db)))
claim_deliveries-in_turn_example = claim_deliveries-in_turn 5 w₁ refl

-- The second copy is refused, since the pair is there already.
expand_request_to_deliveries-Inserted_example :
    let (r, w') = expand_request_to_deliveries (pos 1) (pos 2) (pos 1 ∷ []) (pos 100) (pos 50) w₁ in
    (is_ok r ≡ true
      → Inserted (pos 1) (pos 2 ∷ pos 1 ∷ []) w₁.db.deliveries w'.db.deliveries
        × Accepts (pos 1) (pos 2 ∷ pos 1 ∷ []) w₁.db)
    × (is_ok r ≡ false → w'.db.deliveries ≡ w₁.db.deliveries)
expand_request_to_deliveries-Inserted_example =
    expand_request_to_deliveries-Inserted (pos 1) (pos 2) (pos 1 ∷ []) (pos 100) (pos 50) w₁

abbrev a_failure : Final
a_failure = record {
  succeeded = false;
  status_code = pos 500;
  response_body = [];
  error = [];
  retry_after = none;
  default_max_attempts = 2;
  backoff_min_seconds = 2;
  backoff_max_seconds = 120;
}

finalized_row_due_example :
    let row =
      finalized_row 20
        (record a_failure { default_max_attempts = 5 })
        (record delivery_1 { attempts = 1 }) in
    let earlier =
      finalized_row 20
        (record a_failure { default_max_attempts = 5 })
        (record delivery_1 { attempts = 0 }) in
    (row.status ≡ ready)
    × (((t : Time) × (none ≡ some t) × (row.next_run_at ≡ t))
        ⊎ ((a_failure.retry_after ≡ none)
            × (20 + 4 * second ≤ row.next_run_at)
            × (row.next_run_at ≤ 20 + 120 * second)
            × (earlier.next_run_at ≤ row.next_run_at)))
finalized_row_due_example =
    finalized_row_due 20 (record a_failure { default_max_attempts = 5 })
      (record delivery_1 { attempts = 1 }) 0 refl refl refl refl (omega arith)

abbrev failure_at : Time → Time × Final
failure_at t = (t, a_failure)

fail_each-status_example :
    ((fail_each (failure_at 20 ∷ failure_at 30 ∷ []) delivery_1).attempts ≡ 2)
    × ((fail_each (failure_at 20 ∷ failure_at 30 ∷ []) delivery_1).status ≡ failed)
fail_each-status_example =
    fail_each-status 2 (failure_at 20) (failure_at 30 ∷ []) delivery_1 (refl, refl)
      ((refl, refl), tt)

abbrev unsent : World
unsent = world_of (record one_delivery { deliveries = [] })

expand_request_to_deliveries-sendable_example :
    let w' = (expand_request_to_deliveries (pos 1) (pos 1) [] (pos 100) (pos 50) unsent).1 in
    any (sendable 2000 w'.db (pos 1) (pos 1)) w'.db.deliveries ≡ true
unfolding expand_request_to_deliveries exec eq_ℤ str text_eq
expand_request_to_deliveries-sendable_example =
    expand_request_to_deliveries-sendable (pos 1) (pos 1) [] (pos 100) (pos 50) 2000 unsent (pos 1)
      (omega arith) refl refl refl

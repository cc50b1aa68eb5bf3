-- ===== src/Worker/Statements.antt =====
-- What the worker's statements do to one delivery, as moves of the life cycle.
use mathlib.Core.Option
use mathlib.Core.Path.{subst}
use sukumad.Prelude.{
  if◌then◌else◌, Bool-cases, any, countb, find-update_where_each, find-test, countb-le,
  countb-of_any, find-countb_one, ℤ, eq_ℤ_iff, ℕ, ◌≤◌, ◌≡◌, refl, sym, ap, ◌∙◌, inl, inr, Bool,
  true, false, ◌&&◌, some, List, arith,
}
use sukumad.Types.{Status, ready, Delivery}
use sukumad.Store.{Db, World, next_fault, exec}
use sukumad.Queue.Moves.{has_id, update_delivery, get_delivery}
use sukumad.Queue.Rows.{get_delivery-update_delivery, get_delivery-update_delivery_ne}
use sukumad.Queue.Counts.{countb-pick-le, picked_to_send}
use sukumad.Worker.Wire.{DeliveryRow}
use sukumad.Worker.Outcome.{one_update}
use sukumad.Worker.Steps.{KeepsId, eq_ℤ-cases}
use sukumad.Worker.Life.{view, Arc, stays, claim}
use sukumad.Queue.Claim.{
  is_ready, can_send, can_poll, due_before, send_before, pick, is_picked, claimed_row,
  claim_deliveries, touched_row, claim_async_polls,
}
use sukumad.Worker.Dispatch.{Patience, dispatch_polls}

-- A statement finds the delivery of that number, and leaves it after at most one move.
pub record MovesTo (i : ℤ) (d : Delivery) (db : Db) : Type 0 where
  pub after : Delivery
  pub there : get_delivery i db ≡ some after
  pub moved : Arc (view d) (view after)

-- The row of an update of one delivery.
pub one_update-MovesTo :
    (i j : ℤ) (f : Delivery → Delivery) (w : World) (d : Delivery)
    → KeepsId f
    → get_delivery j w.db ≡ some d
    → (i ≡ j → Arc (view d) (view (f d)))
    → MovesTo j d (one_update i f w).1.db
unfolding exec
one_update-MovesTo i j f w d k e arc = elim (Bool-cases (next_fault w.faults)) [
  | inl h ↦ rw h (record { after = d; there = e; moved = stays refl })
  | inr h ↦ rw h (elim (eq_ℤ-cases i j) [
    | inl (same, _) ↦ record {
      after = f d;
      there =
          subst (λ n. get_delivery n (update_delivery i f w.db) ≡ some (f d)) same
            (get_delivery-update_delivery i f w.db k
              ∙ ap (Option.map f) (subst (λ n. get_delivery n w.db ≡ some d) (sym same) e));
      moved = arc same;
    }
    | inr (ne, _) ↦ record {
      after = d;
      there = get_delivery-update_delivery_ne i j f w.db ne k ∙ e;
      moved = stays refl;
    }
  ])
]

ready-of_is_ready : (s : Status) (b : Bool) → (is_ready s && b) ≡ true → s ≡ ready
ready-of_is_ready s b h = ground (arith, h)

-- A claim takes a delivery that is ready, or leaves it.
pub claim_deliveries-MovesTo :
    (batch : ℕ) (w : World) (i : ℤ) (d : Delivery)
    → countb (has_id i) w.db.deliveries ≤ 1
    → get_delivery i w.db ≡ some d
    → MovesTo i d (claim_deliveries batch w).1.db
unfolding claim_deliveries exec can_send
claim_deliveries-MovesTo batch w i d keyed e =
    let ds = w.db.deliveries in
    let picked = picked_to_send w.now w.db batch i in
    let same : is_picked picked d ≡ any (has_id i) picked =
      ap (λ j. any (has_id j) picked) ((eq_ℤ_iff d.id i).0 (find-test (has_id i) ds e)) in
    let found =
      find-update_where_each (has_id i) (is_picked picked) (claimed_row w.now) ds (λ r. refl)
      ∙ ap (Option.map (λ r. if is_picked picked r then claimed_row w.now r else r)) e in
    elim (Bool-cases (next_fault w.faults)) [
      | inl h ↦ rw h (record { after = d; there = e; moved = stays refl })
      | inr h ↦ rw h (elim (Bool-cases (any (has_id i) picked)) [
        | inl taken ↦ record {
          after = claimed_row w.now d;
          there = found ∙ ap some (rw (same ∙ taken) refl);
          moved =
              claim
                (ready-of_is_ready d.status (has_id i d) (
                  find-countb_one (has_id i) (λ x. is_ready x.status && has_id i x) ds
                    (λ x k. ground (arith, k)) keyed
                    (omega (
                      arith,
                      countb-of_any (has_id i) picked taken,
                      countb-pick-le (has_id i) send_before (can_send w.now w.db) batch ds,
                      countb-le (λ x. can_send w.now w.db x && has_id i x)
                          (λ x. is_ready x.status && has_id i x) ds (λ x k. ground (arith, k)),
                    ))
                    e))
                refl;
        }
        | inr left ↦ record {
          after = d;
          there = found ∙ ap some (rw (same ∙ left) refl);
          moved = stays refl;
        }
      ])
    ]

-- A claim of polls touches the row, which keeps what is seen of it.
claim_async_polls-MovesTo :
    (batch : ℕ) (w : World) (i : ℤ) (a d : Delivery)
    → Arc (view a) (view d)
    → get_delivery i w.db ≡ some d
    → (d' : Delivery) × (get_delivery i (claim_async_polls batch w).1.db ≡ some d')
      × Arc (view a) (view d')
unfolding claim_async_polls exec
claim_async_polls-MovesTo batch w i a d arc e =
    let ds = w.db.deliveries in
    let picked = pick due_before (can_poll w.now w.db) batch ds in
    let found =
      find-update_where_each (has_id i) (is_picked picked) (touched_row w.now) ds (λ r. refl)
      ∙ ap (Option.map (λ r. if is_picked picked r then touched_row w.now r else r)) e in
    elim (Bool-cases (next_fault w.faults)) [
      | inl h ↦ rw h (d, e, arc)
      | inr h ↦ rw h (elim (Bool-cases (is_picked picked d)) [
        | inl k ↦ (touched_row w.now d, found ∙ ap some (rw k refl), arc)
        | inr k ↦ (d, found ∙ ap some (rw k refl), arc)
      ])
    ]

pub dispatch_polls-MovesTo :
    (batch : ℕ) (rows : List DeliveryRow) (p : Patience) (returned : Bool) (w : World) (i : ℤ)
    (a d : Delivery)
    → Arc (view a) (view d)
    → get_delivery i w.db ≡ some d
    → MovesTo i a (dispatch_polls batch (rows, p, returned) w).1.db
unfolding dispatch_polls
dispatch_polls-MovesTo batch rows p true w i a d arc e = record {
  after = d;
  there = e;
  moved = arc;
}
dispatch_polls-MovesTo batch rows p false w i a d arc e =
    let (d', there, moved) = claim_async_polls-MovesTo batch w i a d arc e in
    record { after = d'; there = there; moved = moved }

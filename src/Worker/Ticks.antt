-- ===== src/Worker/Ticks.antt =====
-- A tick of the main loop keeps the invariant: what each of its two claims does to the counts.
use sukumad.Prelude.{
  ltb, ltb→lt, Bool-cases, Option-cases, countb, countb-append, countb-add-le, countb-update_where,
  ℤ, ℕ, ◌+◌, ◌≤◌, ◌<◌, ◌≡◌, refl, ap, ◌∙◌, inl, inr, Bool, true, false, ◌&&◌, some, List, [], ◌∷◌,
  map, arith,
}
use sukumad.Text.{Bytes}
use sukumad.Types.{Json, Time, Delivery}
use sukumad.Store.{Db, World, next_fault, exec}
use sukumad.Queue.Moves.{has_id}
use sukumad.Queue.Claim.{
  can_poll, due_before, pick, is_picked, SendRow, keep_some, claim_deliveries, PollClaim,
  poll_claim, touched_row, claim_async_polls,
}
use sukumad.Queue.Counts.{
  busy, open_for, countb-pick-le, picked_to_send, busy-after_claim, open-after_claim,
  rows-after_claim,
}
use sukumad.Worker.Dispatch.{
  Patience, send_rows, rows_of, Dispatched, dispatch_polls, claim_and_dispatch,
}
use sukumad.Worker.Exclusive.{
  sends, polls, poll_count, Inv, send_rows-count, claimed-count, poll_rows-count,
}
use sukumad.Config.{Config}
use sukumad.Worker.Wire.{DeliveryRow, PollRow}
use sukumad.Worker.Handlers.{Outside}
use sukumad.Worker.System.{System, tick}

-- What a claim of deliveries to send changes, for one delivery.
record Claimed (i : ℤ) (rows : List SendRow) (db db' : Db) : Type 0 where
  same_rows : countb (has_id i) db'.deliveries ≡ countb (has_id i) db.deliveries
  now_busy :
      countb (busy i) db.deliveries + countb (λ (r : SendRow). has_id i r.delivery) rows
      ≤ countb (busy i) db'.deliveries
  still_settled : countb (open_for i) db.deliveries ≡ 0 → countb (open_for i) db'.deliveries ≡ 0

claim_deliveries-Claimed :
    (print : Json → Bytes) (batch : ℕ) (w : World) (i : ℤ)
    → Claimed i (rows_of (claim_deliveries batch w).0) w.db (claim_deliveries batch w).1.db
unfolding claim_deliveries exec
claim_deliveries-Claimed print batch w i = elim (Bool-cases (next_fault w.faults)) [
  | inl e ↦ rw e (record { same_rows = refl; now_busy = omega arith; still_settled = λ z. z })
  | inr e ↦ rw e (record {
    same_rows = rows-after_claim w.now w.db batch i;
    now_busy = omega (
      arith,
      busy-after_claim w.now w.db batch i,
      claimed-count print i w.now w.db (picked_to_send w.now w.db batch i),
    );
    still_settled = open-after_claim w.now w.db batch i;
  })
]

-- A claim of polls changes no id and no status, and takes only what was sent before.
record Touched (i : ℤ) (rows : List PollClaim) (db db' : Db) : Type 0 where
  same_rows : countb (has_id i) db'.deliveries ≡ countb (has_id i) db.deliveries
  same_busy : countb (busy i) db'.deliveries ≡ countb (busy i) db.deliveries
  same_open : countb (open_for i) db'.deliveries ≡ countb (open_for i) db.deliveries
  settled :
      countb (has_id i) db.deliveries ≤ 1
      → 0 < countb (λ (r : PollClaim). has_id i r.delivery) rows
      → countb (open_for i) db.deliveries ≡ 0

poll_claim-id : (db : Db) (d : Delivery) (r : PollClaim) → poll_claim db d ≡ some r → r.delivery ≡ d
poll_claim-id db d r e = ground arith

touched-count :
    (i : ℤ) (now : Time) (db : Db) (ds : List Delivery)
    → countb
        (λ (r : PollClaim). has_id i r.delivery)
        (keep_some (poll_claim db) (map (touched_row now) ds))
      ≤ countb (has_id i) ds
touched-count i now db [] = omega arith
touched-count i now db (d ∷ ds) = elim (Option-cases (poll_claim db (touched_row now d))) [
  | inl e ↦ ground (arith, touched-count i now db ds)
  | inr (r, e) ↦ ground (arith, poll_claim-id db (touched_row now d) r e, touched-count i now db ds)
]

claim_async_polls-Touched :
    (batch : ℕ) (w : World) (i : ℤ)
    → Touched i (rows_of (claim_async_polls batch w).0) w.db (claim_async_polls batch w).1.db
unfolding claim_async_polls exec can_poll
claim_async_polls-Touched batch w i =
    let ds = w.db.deliveries in
    let picked = pick due_before (can_poll w.now w.db) batch ds in
    elim (Bool-cases (next_fault w.faults)) [
      | inl e ↦ rw e (record {
        same_rows = refl;
        same_busy = refl;
        same_open = refl;
        settled = λ _ h. absurd (omega arith);
      })
      | inr e ↦ rw e (record {
        same_rows =
            countb-update_where (has_id i) (has_id i) (is_picked picked) (touched_row w.now) ds
              (λ d. ground arith);
        same_busy =
            countb-update_where (busy i) (busy i) (is_picked picked) (touched_row w.now) ds
              (λ d. ground arith);
        same_open =
            countb-update_where (open_for i) (open_for i) (is_picked picked) (touched_row w.now) ds
              (λ d. ground arith);
        settled = λ one h. omega (
          arith,
          touched-count i w.now w.db picked,
          countb-pick-le (has_id i) due_before (can_poll w.now w.db) batch ds,
          countb-add-le (λ d. can_poll w.now w.db d && has_id i d) (open_for i) (has_id i) ds
              (λ d e. ground arith) (λ d e. ground arith),
        );
      })
    ]

-- What the second half of a tick changes, for one delivery.
record Polled (i : ℤ) (rows : List PollRow) (db db' : Db) : Type 0 where
  same_rows : countb (has_id i) db'.deliveries ≡ countb (has_id i) db.deliveries
  same_busy : countb (busy i) db'.deliveries ≡ countb (busy i) db.deliveries
  same_open : countb (open_for i) db'.deliveries ≡ countb (open_for i) db.deliveries
  settled :
      countb (has_id i) db.deliveries ≤ 1
      → 0 < countb (polls i) rows
      → countb (open_for i) db.deliveries ≡ 0

dispatch_polls-Polled :
    (batch : ℕ) (sends : List DeliveryRow) (p : Patience) (returned : Bool) (w : World) (i : ℤ)
    → let (rows, w') = dispatch_polls batch (sends, p, returned) w in
      Polled i rows.1 w.db w'.db × (rows.0 ≡ sends)
unfolding dispatch_polls
dispatch_polls-Polled batch sends p true w i = (
  record {
    same_rows = refl;
    same_busy = refl;
    same_open = refl;
    settled = λ _ h. absurd (omega arith);
  },
  refl,
)
dispatch_polls-Polled batch sends p false w i =
    let t = claim_async_polls-Touched batch w i in
    (
      record {
        same_rows = t.same_rows;
        same_busy = t.same_busy;
        same_open = t.same_open;
        settled = λ one h.
            t.settled one
              (omega (arith, poll_rows-count i p (rows_of (claim_async_polls batch w).0)));
      },
      refl,
    )

-- What a whole tick changes, for one delivery.
pub record Ticked (i : ℤ) (rows : Dispatched) (db db' : Db) : Type 0 where
  pub same_rows : countb (has_id i) db'.deliveries ≡ countb (has_id i) db.deliveries
  pub now_busy :
      countb (busy i) db.deliveries + countb (sends i) rows.0 ≤ countb (busy i) db'.deliveries
  pub still_settled : countb (open_for i) db.deliveries ≡ 0 → countb (open_for i) db'.deliveries ≡ 0
  pub settled :
      countb (has_id i) db.deliveries ≤ 1
      → 0 < countb (polls i) rows.1
      → countb (open_for i) db'.deliveries ≡ 0

pub claim_and_dispatch-Ticked :
    (print : Json → Bytes) (p : Patience) (batch : ℕ) (w : World) (i : ℤ)
    → let (rows, w') = claim_and_dispatch print p batch w in Ticked i rows w.db w'.db
unfolding claim_and_dispatch
claim_and_dispatch-Ticked print p batch w i =
    let r = claim_deliveries batch w in
    let c = claim_deliveries-Claimed print batch w i in
    let sent = send_rows print p (rows_of r.0) in
    let (q, same) = dispatch_polls-Polled batch sent.0 sent.1 sent.2 r.1 i in
    record {
      same_rows = q.same_rows ∙ c.same_rows;
      now_busy = omega (
        arith,
        c.now_busy,
        q.same_busy,
        send_rows-count print i p (rows_of r.0),
        ap (countb (sends i)) same,
      );
      still_settled = λ z. q.same_open ∙ c.still_settled z;
      settled = λ one h. q.same_open ∙ q.settled (omega (arith, c.same_rows)) h;
    }

pub tick-Inv :
    (out : Outside) (cfg : Config) (p : Patience) (s : System) → Inv s → Inv (tick out cfg p s)
unfolding tick
tick-Inv out cfg p s v =
    let r = claim_and_dispatch out.print p cfg.claim_batch s.world in
    let t = claim_and_dispatch-Ticked out.print p cfg.claim_batch s.world in
    record {
      keyed = λ i. omega (arith, (t i).same_rows, v.keyed i);
      marked =
          λ i. omega (arith, (t i).now_busy, v.marked i, countb-append (sends i) s.send_ch r.0.0);
      polled = λ i h. elim (Bool-cases (ltb 0 (poll_count i s))) [
        | inl e ↦ (t i).still_settled (v.polled i (ltb→lt _ _ e))
        | inr e ↦
            (t i).settled (v.keyed i) (ground (arith, countb-append (polls i) s.poll_ch r.0.1))
      ];
    }

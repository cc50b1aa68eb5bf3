-- ===== src/Worker/Refines.antt =====
-- The worker implements the life cycle: each of its steps is at most one move of each delivery.
use mathlib.Core.Option.{some-injective}
use mathlib.Core.Path.{subst}
use sukumad.Prelude.{
  find-countb_one, find-countb_zero, ℤ, eq_ℤ_iff, ◌≤◌, ◌<◌, ◌≡◌, refl, sym, ap, ◌∙◌, true, false,
  some, List, arith,
}
use sukumad.Types.{processing, Delivery}
use sukumad.Store.{World}
use sukumad.Config.{Config}
use sukumad.Queue.Moves.{has_id, get_delivery}
use sukumad.Queue.Counts.{is_open, busy}
use sukumad.Worker.Wire.{DeliveryRow, PollRow}
use sukumad.Worker.Handlers.{Outside, handle_send, handle_poll}
use sukumad.Worker.Outcome.{answer_to, max_attempts_of, sent_row, send_answer_lem, sent_row-id}
use sukumad.Worker.Polling.{poll_answer_to, job_answer_row, poll_answer_lem, job_answer_row-id}
use sukumad.Worker.Steps.{Pick-count}
use sukumad.Worker.Life.{view, stays, Lives, born, onward, Lives-InLimits, Lives-settled}
use sukumad.Queue.Claim.{claim_deliveries}
use sukumad.Worker.System.{
  Held, System, take_send, take_poll, tick, finish_send, finish_poll, Pick, Step, ticks, takes_send,
  takes_poll, finishes_send, finishes_poll, waits, Reach, start, next,
}
use sukumad.Worker.Exclusive.{sends, polls, Inv}
use sukumad.Worker.Dispatch.{Patience, send_rows, rows_of, claim_and_dispatch}
use sukumad.Worker.Reachable.{IsFresh, IsFresh-Inv, Reach-Inv}
use sukumad.Worker.Limiter.{LimiterSet, Waited, refused, blocked, passed}
use sukumad.Worker.Arcs.{ByArc, sent_row-ByArc, job_answer_row-ByArc}
use sukumad.Worker.Statements.{
  MovesTo, one_update-MovesTo, claim_deliveries-MovesTo, dispatch_polls-MovesTo,
}

module _ (cfg : Config) (i : ℤ) (d : Delivery) where
  tick-MovesTo :
      (out : Outside) (p : Patience) (s : System)
      → Inv s
      → get_delivery i s.world.db ≡ some d
      → MovesTo i d (tick out cfg p s).world.db
  unfolding tick claim_and_dispatch
  tick-MovesTo out p s v e =
      let (rows, w) = claim_deliveries cfg.claim_batch s.world in
      let m = claim_deliveries-MovesTo cfg.claim_batch s.world i d (v.keyed i) e in
      let (sent, left, returned) = send_rows out.print p (rows_of rows) in
      dispatch_polls-MovesTo cfg.claim_batch sent left returned w i d m.after m.moved m.there

  -- What is being sent is marked as processing.
  sending-processing :
      (h : Held DeliveryRow) (others : List (Held DeliveryRow)) (s : System)
      → Pick h others s.sending
      → Inv s
      → get_delivery i s.world.db ≡ some d
      → h.0.delivery_id ≡ i
      → d.status ≡ processing
  sending-processing h others s k v e same =
      let ds = s.world.db.deliveries in
      let passed =
        find-countb_one (has_id i) (busy i) ds (λ x b. ground (arith, b)) (v.keyed i)
          (ground (
            arith,
            (eq_ℤ_iff h.0.delivery_id i).1 same,
            Pick-count (λ (r : Held DeliveryRow). sends i r.0) k,
            v.marked i,
          ))
          e in
      ground (arith, passed)

  -- What is being polled is settled.
  polling-settled :
      (h : Held PollRow) (others : List (Held PollRow)) (s : System)
      → Pick h others s.polling
      → Inv s
      → get_delivery i s.world.db ≡ some d
      → h.0.delivery_id ≡ i
      → is_open d.status ≡ false
  polling-settled h others s k v e same =
      find-countb_zero (has_id i) (λ x. is_open x.status) s.world.db.deliveries
        (v.polled i (
          ground (
            arith,
            (eq_ℤ_iff h.0.delivery_id i).1 same,
            Pick-count (λ (r : Held PollRow). polls i r.0) k,
          )))
        e

  finish_send-MovesTo :
      (out : Outside) (h : Held DeliveryRow) (others : List (Held DeliveryRow)) (s : System)
      → Pick h others s.sending
      → Inv s
      → get_delivery i s.world.db ≡ some d
      → MovesTo i d (finish_send out cfg h others s).world.db
  unfolding finish_send handle_send ByArc
  finish_send-MovesTo out (row, held) others s k v e =
      let a = answer_to out cfg row in
      rw (send_answer_lem out cfg row a s.world) (
        one_update-MovesTo row.delivery_id i (sent_row out cfg row s.world.now a) s.world d
          (sent_row-id out cfg row s.world.now a) e
          (λ same.
            sent_row-ByArc out cfg row s.world.now a d
              (sending-processing (row, held) others s k v e same)))

  finish_poll-MovesTo :
      (out : Outside) (h : Held PollRow) (others : List (Held PollRow)) (s : System)
      → Pick h others s.polling
      → Inv s
      → get_delivery i s.world.db ≡ some d
      → MovesTo i d (finish_poll out cfg h others s).world.db
  unfolding finish_poll handle_poll ByArc
  finish_poll-MovesTo out (row, held) others s k v e =
      let a = poll_answer_to out cfg row in
      rw (poll_answer_lem out cfg row a s.world) (
        one_update-MovesTo row.delivery_id i (job_answer_row out cfg s.world.now a) s.world d
          (job_answer_row-id out cfg s.world.now a) e
          (λ same.
            job_answer_row-ByArc out cfg s.world.now a d
              (polling-settled (row, held) others s k v e same)))

take_send-world :
    (r : Waited × LimiterSet) (row : DeliveryRow) (rest : List DeliveryRow) (s : System)
    → (take_send r row rest s).world ≡ s.world
unfolding take_send
take_send-world (passed held, ls) row rest s = refl
take_send-world (blocked, ls) row rest s = refl
take_send-world (refused, ls) row rest s = refl

take_poll-world :
    (r : Waited × LimiterSet) (row : PollRow) (rest : List PollRow) (s : System)
    → (take_poll r row rest s).world ≡ s.world
unfolding take_poll
take_poll-world (passed held, ls) row rest s = refl
take_poll-world (blocked, ls) row rest s = refl
take_poll-world (refused, ls) row rest s = refl

same_world :
    (i : ℤ) (d : Delivery) {v w : World} → w ≡ v → get_delivery i v.db ≡ some d → MovesTo i d w.db
same_world i d same e = record {
  after = d;
  there = ap (λ (w : World). get_delivery i w.db) same ∙ e;
  moved = stays refl;
}

Step-MovesTo :
    (cfg : Config) (i : ℤ) (d : Delivery) {s t : System}
    → Step cfg s t
    → Inv s
    → get_delivery i s.world.db ≡ some d
    → MovesTo i d t.world.db
Step-MovesTo cfg i d (ticks out p s) v e = tick-MovesTo cfg i d out p s v e
Step-MovesTo cfg i d (takes_send luck s row rest c) v e =
    same_world i d (take_send-world _ row rest s) e
Step-MovesTo cfg i d (takes_poll luck s row rest c) v e =
    same_world i d (take_poll-world _ row rest s) e
Step-MovesTo cfg i d (finishes_send out s h others k) v e =
    finish_send-MovesTo cfg i d out h others s k v e
Step-MovesTo cfg i d (finishes_poll out s h others k) v e =
    finish_poll-MovesTo cfg i d out h others s k v e
Step-MovesTo cfg i d (waits s t faults) v e = record { after = d; there = e; moved = stays refl }

-- The worker implements the life cycle: from a fresh start, by any interleaving of ticks, workers,
-- answers and faults, each delivery of the table is still there and has gone, as far as its
-- status, its failed attempts and their limit tell, a way of moves of the abstract machine: claimed
-- only when ready, sent only when claimed, and opened again only by a failed attempt that leaves
-- some.
pub Reach-Lives :
    (cfg : Config) {s t : System} (i : ℤ) (d : Delivery)
    → IsFresh s
    → Reach cfg s t
    → get_delivery i s.world.db ≡ some d
    → (d' : Delivery) × (get_delivery i t.world.db ≡ some d') × Lives (view d) (view d')
Reach-Lives cfg i d f start e = (d, e, born)
Reach-Lives cfg {s} i d f (next r st) e =
    let (b, found, lives) = Reach-Lives cfg i d f r e in
    let m = Step-MovesTo cfg i b st (Reach-Inv cfg r (IsFresh-Inv s f)) found in
    (m.after, m.there, onward lives m.moved)

-- By the worker's steps a delivery whose attempts are below its limit (or the default one) never
-- makes more of them than that, and while it can still be sent it has some left; and one that is
-- no longer ready or being sent makes no further attempt and never becomes so again.
pub Reach-attempts :
    (cfg : Config) {s t : System} (i : ℤ) (d d' : Delivery)
    → IsFresh s
    → Reach cfg s t
    → get_delivery i s.world.db ≡ some d
    → get_delivery i t.world.db ≡ some d'
    → d.attempts < max_attempts_of d
    → (d'.attempts ≤ max_attempts_of d)
      × (is_open d'.status ≡ true → d'.attempts < max_attempts_of d)
      × (is_open d.status ≡ false → (is_open d'.status ≡ false) × (d'.attempts ≡ d.attempts))
Reach-attempts cfg i d d' f r e e' less =
    let (b, found, lives) = Reach-Lives cfg i d f r e in
    let same : b ≡ d' = some-injective b d' (sym found ∙ e') in
    let v =
      Lives-InLimits lives (record { same_limit = refl; within = omega arith; left = λ _. less }) in
    subst
      (λ (x : Delivery).
        (x.attempts ≤ max_attempts_of d)
        × (is_open x.status ≡ true → x.attempts < max_attempts_of d)
        × (is_open d.status ≡ false → (is_open x.status ≡ false) × (x.attempts ≡ d.attempts)))
      same (v.within, v.left, Lives-settled lives)

-- ===== src/Worker/Stranded.antt =====
-- Deliveries that the worker claims and then loses.
use sukumad.Prelude.{
  ltb, ltb→lt, Bool-cases, countb, countb-append, ℤ, eq_ℤ, eq_ℤ_refl, ◌≡◌, inl, inr, true, List,
  arith,
}
use sukumad.Config.{Config}
use sukumad.Queue.Moves.{has_id}
use sukumad.Queue.Counts.{busy}
use sukumad.Worker.Wire.{DeliveryRow, PollRow}
use sukumad.Worker.Limiter.{LimiterSet, Waited, refused, blocked, passed}
use sukumad.Worker.Handlers.{Outside, handle_send, handle_poll}
use sukumad.Worker.Dispatch.{Patience, claim_and_dispatch}
use sukumad.Worker.System.{
  Held, System, take_send, take_poll, tick, finish_send, finish_poll, Pick, Step, ticks, takes_send,
  takes_poll, finishes_send, finishes_poll, waits, Reach, start, next,
}
use sukumad.Worker.Exclusive.{sends, polls, send_count, poll_count, Inv}
use sukumad.Worker.Ticks.{claim_and_dispatch-Ticked}
use sukumad.Worker.Outcome.{answer_to, sent_row, send_answer_lem, sent_row-id}
use sukumad.Worker.Polling.{poll_answer_to, job_answer_row, poll_answer_lem, job_answer_row-id}
use sukumad.Worker.Steps.{one_update-Updated, Pick-count, busy-le-open, busy-le-rows, eq_ℤ-cases}

-- A delivery that is marked as processing while no worker has it.
pub record IsStranded (i : ℤ) (s : System) : Type 0 where
  pub one_row : countb (has_id i) s.world.db.deliveries ≡ 1
  pub marked : countb (busy i) s.world.db.deliveries ≡ 1
  pub not_sent : send_count i s ≡ 0
  pub not_polled : poll_count i s ≡ 0

tick-IsStranded :
    (out : Outside) (cfg : Config) (p : Patience) (s : System) (i : ℤ)
    → IsStranded i s
    → IsStranded i (tick out cfg p s)
unfolding tick
tick-IsStranded out cfg p s i v =
    let r = claim_and_dispatch out.print p cfg.claim_batch s.world in
    let t = claim_and_dispatch-Ticked out.print p cfg.claim_batch s.world i in
    let ds = r.1.db.deliveries in
    let no_new : countb (sends i) r.0.0 ≡ 0 =
      omega (arith, t.now_busy, t.same_rows, v.one_row, v.marked, busy-le-rows i ds) in
    let busy_now : countb (busy i) ds ≡ 1 =
      omega (arith, t.now_busy, t.same_rows, v.one_row, v.marked, busy-le-rows i ds) in
    record {
      one_row = omega (arith, t.same_rows, v.one_row);
      marked = busy_now;
      not_sent = omega (arith, no_new, v.not_sent, countb-append (sends i) s.send_ch r.0.0);
      not_polled = elim (Bool-cases (ltb 0 (countb (polls i) r.0.1))) [
        | inl e ↦ absurd (
            omega (
              arith,
              t.settled (omega (arith, v.one_row)) (ltb→lt _ _ e),
              busy_now,
              busy-le-open i ds,
            ))
        | inr e ↦ ground (arith, v.not_polled, countb-append (polls i) s.poll_ch r.0.1)
      ];
    }

finish_send-IsStranded :
    (out : Outside) (cfg : Config) (h : Held DeliveryRow) (others : List (Held DeliveryRow))
    (s : System) (i : ℤ)
    → Pick h others s.sending
    → IsStranded i s
    → IsStranded i (finish_send out cfg h others s)
unfolding finish_send handle_send
finish_send-IsStranded out cfg (row, held) others s i k v =
    let a = answer_to out cfg row in
    let f = sent_row out cfg row s.world.now a in
    rw (send_answer_lem out cfg row a s.world) (
      let u =
        one_update-Updated row.delivery_id i f s.world (sent_row-id out cfg row s.world.now a) in
      let n = Pick-count (λ h. sends i h.0) k in
      elim (eq_ℤ-cases row.delivery_id i) [
        | inl (_, e) ↦ absurd (ground (arith, e, n, v.not_sent))
        | inr (ne, e) ↦ record {
          one_row = omega (arith, u.same_rows, v.one_row);
          marked = omega (arith, u.busy_elsewhere ne, v.marked);
          not_sent = ground (arith, e, n, v.not_sent);
          not_polled = v.not_polled;
        }
      ])

finish_poll-IsStranded :
    (out : Outside) (cfg : Config) (h : Held PollRow) (others : List (Held PollRow)) (s : System)
    (i : ℤ)
    → Pick h others s.polling
    → IsStranded i s
    → IsStranded i (finish_poll out cfg h others s)
unfolding finish_poll handle_poll
finish_poll-IsStranded out cfg (row, held) others s i k v =
    let a = poll_answer_to out cfg row in
    let f = job_answer_row out cfg s.world.now a in
    rw (poll_answer_lem out cfg row a s.world) (
      let u =
        one_update-Updated row.delivery_id i f s.world (job_answer_row-id out cfg s.world.now a) in
      let n = Pick-count (λ h. polls i h.0) k in
      elim (eq_ℤ-cases row.delivery_id i) [
        | inl (_, e) ↦ absurd (ground (arith, e, n, v.not_polled))
        | inr (ne, e) ↦ record {
          one_row = omega (arith, u.same_rows, v.one_row);
          marked = omega (arith, u.busy_elsewhere ne, v.marked);
          not_sent = v.not_sent;
          not_polled = ground (arith, e, n, v.not_polled);
        }
      ])

take_send-IsStranded :
    (r : Waited × LimiterSet) (row : DeliveryRow) (rest : List DeliveryRow) (s : System) (i : ℤ)
    → Pick row rest s.send_ch
    → IsStranded i s
    → IsStranded i (take_send r row rest s)
unfolding take_send
take_send-IsStranded (passed held, ls) row rest s i e v = record {
  one_row = v.one_row;
  marked = v.marked;
  not_sent = ground (arith, Pick-count (sends i) e, v.not_sent);
  not_polled = v.not_polled;
}
take_send-IsStranded (blocked, ls) row rest s i e v = record {
  one_row = v.one_row;
  marked = v.marked;
  not_sent = v.not_sent;
  not_polled = v.not_polled;
}
take_send-IsStranded (refused, ls) row rest s i e v = record {
  one_row = v.one_row;
  marked = v.marked;
  not_sent = ground (arith, Pick-count (sends i) e, v.not_sent);
  not_polled = v.not_polled;
}

take_poll-IsStranded :
    (r : Waited × LimiterSet) (row : PollRow) (rest : List PollRow) (s : System) (i : ℤ)
    → Pick row rest s.poll_ch
    → IsStranded i s
    → IsStranded i (take_poll r row rest s)
unfolding take_poll
take_poll-IsStranded (passed held, ls) row rest s i e v = record {
  one_row = v.one_row;
  marked = v.marked;
  not_sent = v.not_sent;
  not_polled = ground (arith, Pick-count (polls i) e, v.not_polled);
}
take_poll-IsStranded (blocked, ls) row rest s i e v = record {
  one_row = v.one_row;
  marked = v.marked;
  not_sent = v.not_sent;
  not_polled = v.not_polled;
}
take_poll-IsStranded (refused, ls) row rest s i e v = record {
  one_row = v.one_row;
  marked = v.marked;
  not_sent = v.not_sent;
  not_polled = ground (arith, Pick-count (polls i) e, v.not_polled);
}

Step-IsStranded :
    (cfg : Config) (i : ℤ) {s t : System} → Step cfg s t → IsStranded i s → IsStranded i t
Step-IsStranded cfg i (ticks out p s) v = tick-IsStranded out cfg p s i v
Step-IsStranded cfg i (takes_send luck s row rest e) v = take_send-IsStranded _ row rest s i e v
Step-IsStranded cfg i (takes_poll luck s row rest e) v = take_poll-IsStranded _ row rest s i e v
Step-IsStranded cfg i (finishes_send out s h others k) v =
    finish_send-IsStranded out cfg h others s i k v
Step-IsStranded cfg i (finishes_poll out s h others k) v =
    finish_poll-IsStranded out cfg h others s i k v
Step-IsStranded cfg i (waits s t faults) v = record {
  one_row = v.one_row;
  marked = v.marked;
  not_sent = v.not_sent;
  not_polled = v.not_polled;
}

-- A delivery that is marked as processing while no worker has it stays so for ever: no later step
-- of the worker sends it, retries it or fails it.
pub Reach-IsStranded :
    (cfg : Config) (i : ℤ) {s t : System} → Reach cfg s t → IsStranded i s → IsStranded i t
Reach-IsStranded cfg i start v = v
Reach-IsStranded cfg i (next r st) v = Step-IsStranded cfg i st (Reach-IsStranded cfg i r v)

-- And that is the fate of each row that the limiters refuse: after a refusal the delivery is
-- stranded, from any state that meets the invariant.
pub refused-IsStranded :
    (ls : LimiterSet) (row : DeliveryRow) (rest : List DeliveryRow) (s : System)
    → Pick row rest s.send_ch
    → Inv s
    → IsStranded row.delivery_id (take_send (refused, ls) row rest s)
unfolding take_send
refused-IsStranded ls row rest s e v =
    let i = row.delivery_id in
    let ds = s.world.db.deliveries in
    let first : eq_ℤ i i ≡ true = eq_ℤ_refl i in
    let n = Pick-count (sends i) e in
    record {
      one_row = ground (arith, first, n, v.keyed i, v.marked i, busy-le-rows i ds);
      marked = ground (arith, first, n, v.keyed i, v.marked i, busy-le-rows i ds);
      not_sent = ground (arith, first, n, v.keyed i, v.marked i, busy-le-rows i ds);
      not_polled = elim (Bool-cases (ltb 0 (poll_count i s))) [
        | inl h ↦
            absurd
              (ground (arith, first, n, v.marked i, v.polled i (ltb→lt _ _ h), busy-le-open i ds))
        | inr h ↦ ground (arith, h)
      ];
    }

-- ===== src/Worker/Reachable.antt =====
-- What holds of the worker in every state that it reaches.
use sukumad.Prelude.{countb, ℤ, ◌≤◌, ◌<◌, ◌≡◌, ap, [], arith}
use sukumad.Config.{Config}
use sukumad.Queue.Moves.{has_id}
use sukumad.Queue.Counts.{busy}
use sukumad.Worker.Wire.{DeliveryRow, PollRow}
use sukumad.Worker.System.{Held, System, Reach, start, next}
use sukumad.Worker.Exclusive.{sends, polls, send_count, poll_count, Inv}
use sukumad.Worker.Steps.{busy-le-open, busy-le-rows, Step-Inv}

-- A worker that has just started, over a table whose ids are a key.
pub record IsFresh (s : System) : Type 0 where
  pub keyed : (i : ℤ) → countb (has_id i) s.world.db.deliveries ≤ 1
  pub no_sends : (s.send_ch ≡ []) × (s.sending ≡ [])
  pub no_polls : (s.poll_ch ≡ []) × (s.polling ≡ [])

pub IsFresh-Inv : (s : System) → IsFresh s → Inv s
IsFresh-Inv s f = record {
  keyed = f.keyed;
  marked = λ j. omega (
    arith,
    ap (countb (sends j)) f.no_sends.0,
    ap (countb (λ (h : Held DeliveryRow). sends j h.0)) f.no_sends.1,
  );
  polled = λ j h. absurd (
      omega (
        arith,
        h,
        ap (countb (polls j)) f.no_polls.0,
        ap (countb (λ (h : Held PollRow). polls j h.0)) f.no_polls.1,
      ));
}

pub Reach-Inv : (cfg : Config) {s t : System} → Reach cfg s t → Inv s → Inv t
Reach-Inv cfg start v = v
Reach-Inv cfg (next r st) v = Step-Inv cfg st (Reach-Inv cfg r v)

-- From a fresh start, by any interleaving of ticks, workers, answers and database faults: no
-- delivery is twice in the send channel and with the send workers together, one that is there is
-- marked as processing in the table, and none of them is at the same time being polled.
pub Reach-exclusive :
    (cfg : Config) {s t : System} (i : ℤ)
    → IsFresh s
    → Reach cfg s t
    → (send_count i t ≤ 1)
      × (send_count i t ≤ countb (busy i) t.world.db.deliveries)
      × (0 < poll_count i t → send_count i t ≡ 0)
Reach-exclusive cfg {s} {t} i f r =
    let v = Reach-Inv cfg r (IsFresh-Inv s f) in
    let ds = t.world.db.deliveries in
    (
      omega (arith, v.marked i, v.keyed i, busy-le-rows i ds),
      v.marked i,
      λ h. omega (arith, v.marked i, v.polled i h, busy-le-open i ds),
    )

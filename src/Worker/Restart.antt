-- ===== src/Worker/Restart.antt =====
-- The start of main.go, and what a start finds of the process before it.
use mathlib.Core.Path.{subst}
use sukumad.Prelude.{
  if◌then◌else◌, Bool-cases, countb, ℤ, pos, ◌≤◌, ◌<◌, ◌≡◌, sym, ap, inl, inr, Bool, not, Option,
  none, some, [], arith,
}
use sukumad.Text.{is_empty}
use sukumad.Store.{World}
use sukumad.Config.{Config}
use sukumad.Queue.Moves.{has_id}
use sukumad.Queue.Counts.{busy}
use sukumad.Worker.Wire.{DeliveryRow, PollRow}
use sukumad.Worker.Limiter.{new_limiter_set}
use sukumad.Worker.System.{Held, System, Reach}
use sukumad.Worker.Exclusive.{sends, polls, send_count, Inv}
use sukumad.Worker.Reachable.{IsFresh}
use sukumad.Worker.Steps.{busy-le-rows}
use sukumad.Worker.Stranded.{IsStranded, Reach-IsStranded}

-- `none` where the process ends: without an URL, or without a pool.
unfoldable pub start_worker : Bool → Config → World → Option System
unfolding new_limiter_set
start_worker pool_opens cfg w =
    if is_empty cfg.db_url
    then none
    else if not pool_opens
    then none
    else some (record {
      world = w;
      limiters = new_limiter_set cfg.global_rps (pos cfg.global_burst);
      send_ch = [];
      poll_ch = [];
      sending = [];
      polling = [];
    })

-- A process that starts holds nothing, and has the tables as it finds them.
pub record IsNew (w : World) (s : System) : Type 0 where
  pub world : s.world ≡ w
  pub no_sends : (s.send_ch ≡ []) × (s.sending ≡ [])
  pub no_polls : (s.poll_ch ≡ []) × (s.polling ≡ [])

start_worker-IsNew :
    (pool_opens : Bool) (cfg : Config) (w : World) (t : System)
    → start_worker pool_opens cfg w ≡ some t
    → IsNew w t
unfolding start_worker
start_worker-IsNew pool_opens cfg w t e = elim (Bool-cases (is_empty cfg.db_url)) [
  | inl h ↦ absurd (ground (arith, h, e))
  | inr h ↦ elim (Bool-cases pool_opens) [
    | inr k ↦ absurd (ground (arith, h, k, e))
    | inl k ↦ ground (arith, h, k, e)
  ]
]

pub start_worker-IsFresh :
    (pool_opens : Bool) (cfg : Config) (w : World) (t : System)
    → start_worker pool_opens cfg w ≡ some t
    → ((i : ℤ) → countb (has_id i) w.db.deliveries ≤ 1)
    → IsFresh t
start_worker-IsFresh pool_opens cfg w t e keyed =
    let new = start_worker-IsNew pool_opens cfg w t e in
    record {
      keyed = λ i.
          subst (λ (v : World). countb (has_id i) v.db.deliveries ≤ 1) (sym new.world) (keyed i);
      no_sends = new.no_sends;
      no_polls = new.no_polls;
    }

-- What a process holds in the send channel or with a send worker when it stops is lost: the next
-- process that starts over its tables never sends it, whatever it does, and the delivery stays
-- marked as processing.
pub start_worker-IsStranded :
    (pool_opens : Bool) (cfg : Config) (i : ℤ) {s t u : System}
    → Inv s
    → 0 < send_count i s
    → start_worker pool_opens cfg s.world ≡ some t
    → Reach cfg t u
    → IsStranded i u
start_worker-IsStranded pool_opens cfg i {s} {t} v held e r =
    let new = start_worker-IsNew pool_opens cfg s.world t e in
    let ds = s.world.db.deliveries in
    let same : t.world.db.deliveries ≡ ds = ap (λ (w : World). w.db.deliveries) new.world in
    Reach-IsStranded cfg i r (record {
      one_row =
          omega (arith, ap (countb (has_id i)) same, v.keyed i, v.marked i, busy-le-rows i ds);
      marked = omega (arith, ap (countb (busy i)) same, v.keyed i, v.marked i, busy-le-rows i ds);
      not_sent = omega (
        arith,
        ap (countb (sends i)) new.no_sends.0,
        ap (countb (λ (h : Held DeliveryRow). sends i h.0)) new.no_sends.1,
      );
      not_polled = omega (
        arith,
        ap (countb (polls i)) new.no_polls.0,
        ap (countb (λ (h : Held PollRow). polls i h.0)) new.no_polls.1,
      );
    })

-- ===== src/Worker/Tests.antt =====
-- The theorems of the worker, applied to small states.
use sukumad.Prelude.{
  Bool-cases, countb, ℤ, pos, eq_ℤ, ◌≤◌, ◌<◌, ◌≡◌, refl, inl, inr, true, false, none, some, [], ◌∷◌,
  arith,
}
use sukumad.Text.{str}
use sukumad.Types.{processing, Delivery}
use sukumad.Config.{default_config}
use sukumad.Queue.Moves.{has_id, get_delivery}
use sukumad.Queue.Counts.{is_open, busy}
use sukumad.Worker.Limiter.{refused}
use sukumad.Worker.Handlers.{handle_send, handle_poll}
use sukumad.Worker.System.{
  System, send_wait, take_send, tick, here, ticks, takes_send, Reach, start, next,
}
use sukumad.Worker.Exclusive.{send_count, poll_count, Inv}
use sukumad.Worker.Reachable.{IsFresh, Reach-exclusive}
use sukumad.Worker.Outcome.{answer_to, SendOutcome, handle_send-SendOutcome, handle_send-others}
use sukumad.Worker.Report.{SaysFinished, SaysFailed}
use sukumad.Worker.Polling.{poll_answer_to, Reports, PollOutcome, handle_poll-PollOutcome}
use sukumad.Worker.Bounded.{IsCounted, Reach-IsCounted}
use sukumad.Worker.Stranded.{IsStranded, Reach-IsStranded, refused-IsStranded}
use sukumad.Worker.Fraction.{send_wait-fraction}
use sukumad.Samples.{
  world_of, delivery_1, one_delivery, send_row_1, poll_row_1, outside_200, luck_1, new_limiters,
  idle,
}
use sukumad.Store.{exec}
use sukumad.Worker.Life.{view, Lives}
use sukumad.Worker.Refines.{Reach-Lives, Reach-attempts}
use sukumad.Queue.Claim.{claimed_row}
use sukumad.Worker.Wire.{DeliveryRow, scan_delivery}
use sukumad.Worker.Restart.{start_worker, start_worker-IsStranded}
use sukumad.Worker.Progress.{IsClear, Reach-IsClear}

one_row_keyed : (i : ℤ) → countb (has_id i) one_delivery.deliveries ≤ 1
one_row_keyed i = elim (Bool-cases (eq_ℤ (pos 1) i)) [
  | inl e ↦ ground (arith, e)
  | inr e ↦ ground (arith, e)
]

idle-IsFresh : IsFresh idle
idle-IsFresh = record { keyed = one_row_keyed; no_sends = (refl, refl); no_polls = (refl, refl) }

abbrev ticked : System
ticked = tick outside_200 default_config (none) idle

one_tick : Reach default_config idle ticked
one_tick = next start (ticks outside_200 none idle)

Reach-exclusive_example :
    (send_count (pos 1) ticked ≤ 1)
    × (send_count (pos 1) ticked ≤ countb (busy (pos 1)) ticked.world.db.deliveries)
    × (0 < poll_count (pos 1) ticked → send_count (pos 1) ticked ≡ 0)
Reach-exclusive_example = Reach-exclusive default_config (pos 1) idle-IsFresh one_tick

handle_send-SendOutcome_example :
    (d' : Delivery) × (get_delivery
        (pos 1)
        (handle_send outside_200 default_config send_row_1 (world_of one_delivery)).1.db
      ≡ some d')
    × SendOutcome send_row_1 (answer_to outside_200 default_config send_row_1) delivery_1 d'
unfolding eq_ℤ
handle_send-SendOutcome_example =
    handle_send-SendOutcome outside_200 default_config send_row_1 (world_of one_delivery) delivery_1
      refl refl

handle_send-others_example :
    get_delivery
      (pos 2)
      (handle_send outside_200 default_config send_row_1 (world_of one_delivery)).1.db
    ≡ get_delivery (pos 2) one_delivery
handle_send-others_example =
    handle_send-others outside_200 default_config send_row_1 (world_of one_delivery) (pos 2)
      (λ e. cc)

handle_poll-PollOutcome_example :
    (d' : Delivery) × (get_delivery
        (pos 1)
        (handle_poll outside_200 default_config poll_row_1 (world_of one_delivery)).1.db
      ≡ some d')
    × PollOutcome default_config
        (Reports SaysFinished outside_200 (poll_answer_to outside_200 default_config poll_row_1))
        (Reports SaysFailed outside_200 (poll_answer_to outside_200 default_config poll_row_1))
        1000
        delivery_1
        d'
unfolding eq_ℤ
handle_poll-PollOutcome_example =
    handle_poll-PollOutcome outside_200 default_config poll_row_1 (world_of one_delivery) delivery_1
      refl refl

idle-IsCounted : IsCounted idle
idle-IsCounted = record { counted = λ key. refl; bounded = λ key. omega arith }

Reach-IsCounted_example : IsCounted ticked
Reach-IsCounted_example = Reach-IsCounted default_config one_tick idle-IsCounted

-- Two rows of one key are in the channel; a worker takes the first.
abbrev fast_row : DeliveryRow
fast_row = record send_row_1 { rps = some (pos 5_000_000) }

abbrev waiting : System
waiting = record idle { send_ch = fast_row ∷ fast_row ∷ [] }

abbrev taken : System
taken = take_send (send_wait luck_1 fast_row waiting.limiters) fast_row (fast_row ∷ []) waiting

Reach-IsClear_example : (u : System) × Reach default_config taken u × IsClear taken u
Reach-IsClear_example =
    Reach-IsClear default_config outside_200
      (next start (takes_send luck_1 waiting fast_row (fast_row ∷ []) here))
      (record { counted = λ key. refl; bounded = λ key. omega arith }) tt

-- The row is in the channel, and the table says that it is being sent.
abbrev claimed : System
claimed = record idle {
  world =
      world_of
        (record one_delivery { deliveries = record delivery_1 { status = processing } ∷ [] });
  send_ch = send_row_1 ∷ [];
}

claimed-Inv : Inv claimed
claimed-Inv = record {
  keyed = λ i. elim (Bool-cases (eq_ℤ (pos 1) i)) [
    | inl e ↦ ground (arith, e)
    | inr e ↦ ground (arith, e)
  ];
  marked = λ i. elim (Bool-cases (eq_ℤ (pos 1) i)) [
    | inl e ↦ ground (arith, e)
    | inr e ↦ ground (arith, e)
  ];
  polled = λ i h. absurd (omega (arith, h));
}

refused-IsStranded_example :
    IsStranded (pos 1) (take_send (refused, claimed.limiters) send_row_1 [] claimed)
refused-IsStranded_example =
    refused-IsStranded claimed.limiters send_row_1 [] claimed here claimed-Inv

abbrev lost : System
lost = record claimed { send_ch = [] }

lost-IsStranded : IsStranded (pos 1) lost
unfolding eq_ℤ
lost-IsStranded = record { one_row = refl; marked = refl; not_sent = refl; not_polled = refl }

abbrev later : System
later = tick outside_200 default_config none lost

Reach-IsStranded_example : IsStranded (pos 1) later
Reach-IsStranded_example =
    Reach-IsStranded default_config (pos 1) (next start (ticks outside_200 none lost))
      lost-IsStranded

send_wait-fraction_example : (send_wait luck_1 send_row_1 idle.limiters).0 ≡ refused
send_wait-fraction_example =
    send_wait-fraction luck_1 send_row_1 500_000 idle.limiters (omega arith) (omega arith) refl refl
      refl (λ b e. ground (arith, e))

Reach-Lives_example :
    (d' : Delivery) × (get_delivery (pos 1) ticked.world.db ≡ some d')
    × Lives (view delivery_1) (view d')
unfolding eq_ℤ
Reach-Lives_example = Reach-Lives default_config (pos 1) delivery_1 idle-IsFresh one_tick refl

abbrev claimed_1 : Delivery
claimed_1 = claimed_row 1000 delivery_1

Reach-attempts_example :
    (claimed_1.attempts ≤ 8)
    × (is_open claimed_1.status ≡ true → claimed_1.attempts < 8)
    × (is_open delivery_1.status ≡ false
        → (is_open claimed_1.status ≡ false) × (claimed_1.attempts ≡ delivery_1.attempts))
unfolding eq_ℤ tick exec default_config scan_delivery
Reach-attempts_example =
    Reach-attempts default_config (pos 1) delivery_1 claimed_1 idle-IsFresh one_tick refl refl
      (omega arith)

abbrev restarted : System
restarted = record claimed {
  limiters = new_limiters;
  send_ch = [];
  poll_ch = [];
  sending = [];
  polling = [];
}

start_worker-IsStranded_example : IsStranded (pos 1) restarted
unfolding start_worker default_config eq_ℤ str
start_worker-IsStranded_example =
    start_worker-IsStranded true default_config (pos 1) {s = claimed} {t = restarted} claimed-Inv
      (omega arith) refl start

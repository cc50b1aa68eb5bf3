-- ===== src/Worker/Bounded.antt =====
-- The limit on a key's concurrency: what the workers hold is what the semaphores count.
use sukumad.Prelude.{countb, ℕ, ◌+◌, ◌≤◌, ◌≡◌, Bool, ◌&&◌, List, arith}
use sukumad.Text.{Bytes, text_eq}
use sukumad.Text.Laws.{text_eq_refl}
use sukumad.Config.{Config}
use sukumad.Worker.Wire.{DeliveryRow, PollRow}
use sukumad.Worker.Limiter.{LimiterSet, Waited, refused, blocked, passed}
use sukumad.Worker.Places.{used, capacity, gained, one_if, Changed, wait-Changed, release-Changed}
use sukumad.Worker.Handlers.{Outside}
use sukumad.Worker.System.{
  Held, System, rate_of, burst_of, send_wait, poll_wait, take_send, take_poll, tick, finish_send,
  finish_poll, Pick, Step, ticks, takes_send, takes_poll, finishes_send, finishes_poll, waits,
  Reach, start, next,
}
use sukumad.Worker.Steps.{Pick-count}

abbrev pub sends_at : Bytes → Held DeliveryRow → Bool
sends_at key (row, held) = held && text_eq row.rate_key key

abbrev pub polls_at : Bytes → Held PollRow → Bool
polls_at key (row, held) = held && text_eq row.rate_key key

-- How many workers hold a place of the key.
abbrev pub places : Bytes → System → ℕ
places key s = countb (sends_at key) s.sending + countb (polls_at key) s.polling

pub record IsCounted (s : System) : Type 0 where
  pub counted : (key : Bytes) → places key s ≡ used key s.limiters
  pub bounded : (key : Bytes) → used key s.limiters ≤ capacity key s.limiters

module _ (key : Bytes) (r : Waited × LimiterSet) (ls : LimiterSet) where
  abbrev IsWait : Bytes → Type 0
  IsWait j = Changed (one_if (gained r.0 && text_eq key j)) 0 ls.conc r.1.conc j

take_send-IsCounted :
    (r : Waited × LimiterSet) (row : DeliveryRow) (rest : List DeliveryRow) (s : System)
    → ((j : Bytes) → IsWait row.rate_key r s.limiters j)
    → IsCounted s
    → IsCounted (take_send r row rest s)
unfolding take_send
take_send-IsCounted (passed held, ls) row rest s c v = record {
  counted = λ j. ground (arith, (c j).counted, v.counted j);
  bounded = λ j. (c j).bounded (v.bounded j);
}
take_send-IsCounted (blocked, ls) row rest s c v = record {
  counted = λ j. ground (arith, (c j).counted, v.counted j);
  bounded = λ j. (c j).bounded (v.bounded j);
}
take_send-IsCounted (refused, ls) row rest s c v = record {
  counted = λ j. ground (arith, (c j).counted, v.counted j);
  bounded = λ j. (c j).bounded (v.bounded j);
}

take_poll-IsCounted :
    (r : Waited × LimiterSet) (row : PollRow) (rest : List PollRow) (s : System)
    → ((j : Bytes) → IsWait row.rate_key r s.limiters j)
    → IsCounted s
    → IsCounted (take_poll r row rest s)
unfolding take_poll
take_poll-IsCounted (passed held, ls) row rest s c v = record {
  counted = λ j. ground (arith, (c j).counted, v.counted j);
  bounded = λ j. (c j).bounded (v.bounded j);
}
take_poll-IsCounted (blocked, ls) row rest s c v = record {
  counted = λ j. ground (arith, (c j).counted, v.counted j);
  bounded = λ j. (c j).bounded (v.bounded j);
}
take_poll-IsCounted (refused, ls) row rest s c v = record {
  counted = λ j. ground (arith, (c j).counted, v.counted j);
  bounded = λ j. (c j).bounded (v.bounded j);
}

finish_send-IsCounted :
    (out : Outside) (cfg : Config) (h : Held DeliveryRow) (others : List (Held DeliveryRow))
    (s : System)
    → Pick h others s.sending
    → IsCounted s
    → IsCounted (finish_send out cfg h others s)
unfolding finish_send
finish_send-IsCounted out cfg (row, held) others s k v =
    let key = row.rate_key in
    let c = λ (j : Bytes).
      release-Changed key held s.limiters j
        (λ e. ground (arith, Pick-count (sends_at key) k, v.counted key, text_eq_refl key)) in
    record {
      counted = λ j. ground (arith, (c j).counted, v.counted j, Pick-count (sends_at j) k);
      bounded = λ j. (c j).bounded (v.bounded j);
    }

finish_poll-IsCounted :
    (out : Outside) (cfg : Config) (h : Held PollRow) (others : List (Held PollRow)) (s : System)
    → Pick h others s.polling
    → IsCounted s
    → IsCounted (finish_poll out cfg h others s)
unfolding finish_poll
finish_poll-IsCounted out cfg (row, held) others s k v =
    let key = row.rate_key in
    let c = λ (j : Bytes).
      release-Changed key held s.limiters j
        (λ e. ground (arith, Pick-count (polls_at key) k, v.counted key, text_eq_refl key)) in
    record {
      counted = λ j. ground (arith, (c j).counted, v.counted j, Pick-count (polls_at j) k);
      bounded = λ j. (c j).bounded (v.bounded j);
    }

Step-IsCounted : (cfg : Config) {s t : System} → Step cfg s t → IsCounted s → IsCounted t
unfolding tick send_wait poll_wait
Step-IsCounted cfg (ticks out p s) v = record { counted = v.counted; bounded = v.bounded }
Step-IsCounted cfg (takes_send luck s row rest e) v =
    take_send-IsCounted (send_wait luck row s.limiters) row rest s
      (wait-Changed luck row.rate_key (rate_of row.rps) (burst_of row.rps row.burst) row.max_conc
        s.limiters)
      v
Step-IsCounted cfg (takes_poll luck s row rest e) v =
    take_poll-IsCounted (poll_wait luck row s.limiters) row rest s
      (wait-Changed luck row.rate_key (rate_of row.rps) (burst_of row.rps row.burst) row.max_conc
        s.limiters)
      v
Step-IsCounted cfg (finishes_send out s h others k) v = finish_send-IsCounted out cfg h others s k v
Step-IsCounted cfg (finishes_poll out s h others k) v = finish_poll-IsCounted out cfg h others s k v
Step-IsCounted cfg (waits s t faults) v = record { counted = v.counted; bounded = v.bounded }

-- In every state that the worker reaches from one where the semaphores count what is held, such as
-- a start with none, they still do: the workers that hold a place of a key are as many as its
-- channel has values, and never more than its capacity.
pub Reach-IsCounted : (cfg : Config) {s t : System} → Reach cfg s t → IsCounted s → IsCounted t
Reach-IsCounted cfg start v = v
Reach-IsCounted cfg (next r st) v = Step-IsCounted cfg st (Reach-IsCounted cfg r v)

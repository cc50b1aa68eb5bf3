-- ===== src/Worker/System.antt =====
-- The whole worker as a step relation: the main loop's tick, and the send and poll workers, which
-- interleave in any order. A worker that takes a row asks the limiters, handles the row, and
-- releases; while it waits for a place in a semaphore its row stays with those of the
-- channel, and other workers take rows from behind it: any row may be next.
use sukumad.Prelude.{ℤ, ℕ, ◌+◌, Bool, Option, List, ◌∷◌, ◌++◌}
use sukumad.Types.{Float}
use sukumad.Store.{World}
use sukumad.Config.{Config}
use sukumad.Worker.Helpers.{deref_float, deref_int32, one, int32_of_float}
use sukumad.Worker.Wire.{DeliveryRow, PollRow}
use sukumad.Worker.Limiter.{LimiterSet, Luck, Waited, refused, blocked, passed, wait, release}
use sukumad.Worker.Handlers.{Outside, handle_send, handle_poll}
use sukumad.Worker.Dispatch.{Patience, claim_and_dispatch}

-- A row that a worker is handling, and whether it holds a place in its key's semaphore.
abbrev pub Held : Type 0 → Type 0
Held R = R × Bool

pub record System : Type 0 where
  pub world : World
  pub limiters : LimiterSet
  pub send_ch : List DeliveryRow
  pub poll_ch : List PollRow
  pub sending : List (Held DeliveryRow)
  pub polling : List (Held PollRow)

-- `ls.wait` as the workers call it: a rate of nil or none is 1.0, and a burst of nil or none is the
-- rate without its fraction.
abbrev pub rate_of : Option Float → Float
rate_of rps = deref_float rps one

abbrev pub burst_of : Option Float → Option ℤ → ℤ
burst_of rps burst = deref_int32 burst (int32_of_float (rate_of rps))

unfoldable pub send_wait : Luck → DeliveryRow → LimiterSet → Waited × LimiterSet
unfolding wait
send_wait luck row =
    wait luck row.rate_key (rate_of row.rps) (burst_of row.rps row.burst) row.max_conc

unfoldable pub poll_wait : Luck → PollRow → LimiterSet → Waited × LimiterSet
unfolding wait
poll_wait luck row =
    wait luck row.rate_key (rate_of row.rps) (burst_of row.rps row.burst) row.max_conc

-- A row of the send channel, taken by a worker: handled next if the limiters pass it, left among
-- the others if it waits, and dropped if they refuse it.
unfoldable pub take_send : Waited × LimiterSet → DeliveryRow → List DeliveryRow → System → System
take_send (passed held, ls) row rest s = record s {
  limiters = ls;
  send_ch = rest;
  sending = (row, held) ∷ s.sending;
}
take_send (blocked, ls) row rest s = record s { limiters = ls }
take_send (refused, ls) row rest s = record s { limiters = ls; send_ch = rest }

unfoldable pub take_poll : Waited × LimiterSet → PollRow → List PollRow → System → System
take_poll (passed held, ls) row rest s = record s {
  limiters = ls;
  poll_ch = rest;
  polling = (row, held) ∷ s.polling;
}
take_poll (blocked, ls) row rest s = record s { limiters = ls }
take_poll (refused, ls) row rest s = record s { limiters = ls; poll_ch = rest }

unfoldable pub tick : Outside → Config → Patience → System → System
unfolding claim_and_dispatch
tick out cfg p s =
    let (rows, w) = claim_and_dispatch out.print p cfg.claim_batch s.world in
    record s { world = w; send_ch = s.send_ch ++ rows.0; poll_ch = s.poll_ch ++ rows.1 }

-- `handleSendResty` of a row, and `release`.
unfoldable pub finish_send :
    Outside → Config → Held DeliveryRow → List (Held DeliveryRow) → System → System
unfolding handle_send release
finish_send out cfg (row, held) others s = record s {
  world = (handle_send out cfg row s.world).1;
  limiters = release row.rate_key held s.limiters;
  sending = others;
}

unfoldable pub finish_poll : Outside → Config → Held PollRow → List (Held PollRow) → System → System
unfolding handle_poll release
finish_poll out cfg (row, held) others s = record s {
  world = (handle_poll out cfg row s.world).1;
  limiters = release row.rate_key held s.limiters;
  polling = others;
}

-- One element of a list, and the rest in order.
pub data Pick {A : Type 0} : A → List A → List A → Type 0 where
  here : {a : A} {as' : List A} → Pick a as' (a ∷ as')
  there : {a b : A} {as' bs : List A} → Pick a as' bs → Pick a (b ∷ as') (b ∷ bs)

pub data Step (cfg : Config) : System → System → Type 0 where
  -- The ticker fires.
  ticks : (out : Outside) (p : Patience) (s : System) → Step cfg s (tick out cfg p s)
  -- A send worker has received a row, and those before it wait with other workers.
  takes_send :
      (luck : Luck) (s : System) (row : DeliveryRow) (rest : List DeliveryRow)
      → Pick row rest s.send_ch
      → Step cfg s (take_send (send_wait luck row s.limiters) row rest s)
  takes_poll :
      (luck : Luck) (s : System) (row : PollRow) (rest : List PollRow)
      → Pick row rest s.poll_ch
      → Step cfg s (take_poll (poll_wait luck row s.limiters) row rest s)
  -- A worker is done with its row, whatever the server answered.
  finishes_send :
      (out : Outside) (s : System) (h : Held DeliveryRow) (others : List (Held DeliveryRow))
      → Pick h others s.sending
      → Step cfg s (finish_send out cfg h others s)
  finishes_poll :
      (out : Outside) (s : System) (h : Held PollRow) (others : List (Held PollRow))
      → Pick h others s.polling
      → Step cfg s (finish_poll out cfg h others s)
  -- Time passes, and the connection's fate is drawn anew.
  waits :
      (s : System) (t : ℕ) (faults : List Bool)
      → Step cfg s
          (record s { world = record { db = s.world.db; now = s.world.now + t; faults = faults } })

pub data Reach (cfg : Config) (s : System) : System → Type 0 where
  start : Reach cfg s s
  next : {t u : System} → Reach cfg s t → Step cfg t u → Reach cfg s u

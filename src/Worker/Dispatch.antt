-- ===== src/Worker/Dispatch.antt =====
-- claimAndDispatch: what one tick of the main loop claims, and which rows reach the channels.
use sukumad.Prelude.{
  ◌==◌, if◌then◌else◌, ℕ, ◌-◌, Bool, true, false, Option, none, some, List, [], ◌∷◌,
}
use sukumad.Types.{Json}
use sukumad.Store.{Result, ok, err, Action}
use sukumad.Queue.Claim.{SendRow, claim_deliveries, PollClaim, claim_async_polls}
use sukumad.Worker.Wire.{DeliveryRow, PollRow, scan_delivery, scan_poll}
use sukumad.Text.{Bytes}

-- How many more rows the channels take before a `select` takes `ctx.Done()`; `none` is a context
-- that stays alive, and workers that make room.
abbrev pub Patience : Type 0
Patience = Option ℕ

abbrev pub is_spent : Patience → Bool
is_spent none = false
is_spent (some n) = n == 0

abbrev pub one_less : Patience → Patience
one_less none = none
one_less (some n) = some (n - 1)

-- The rows that were sent, the patience left, and whether the function returned.
abbrev pub Sent : Type 0 → Type 0
Sent R = List R × Patience × Bool

abbrev sent_first : {R : Type 0} → R → Sent R → Sent R
sent_first r (rs, p, returned) = (r ∷ rs, p, returned)

-- The loop over the rows of claim_deliveries: a row that does not scan is passed over.
unfoldable pub send_rows : (Json → Bytes) → Patience → List SendRow → Sent DeliveryRow
send_rows print p [] = ([], p, false)
send_rows print p (r ∷ rs) = elim (scan_delivery print r) [
  | none ↦ send_rows print p rs
  | some row ↦
      let more = send_rows print (one_less p) rs in
      if is_spent p then ([], p, true) else sent_first row more
]

-- The loop over the rows of claim_async_polls.
unfoldable pub poll_rows : Patience → List PollClaim → Sent PollRow
poll_rows p [] = ([], p, false)
poll_rows p (r ∷ rs) =
    let more = poll_rows (one_less p) rs in
    if is_spent p then ([], p, true) else sent_first (scan_poll r) more

-- A query that fails is logged, and there are no rows.
abbrev pub rows_of : {A : Type 0} → Result (List A) → List A
rows_of (ok rs) = rs
rows_of (err _) = []

abbrev pub Dispatched : Type 0
Dispatched = List DeliveryRow × List PollRow

-- The second half: it is not reached if the first returned.
unfoldable pub dispatch_polls : ℕ → Sent DeliveryRow → Action Dispatched
unfolding claim_async_polls poll_rows
dispatch_polls batch (sends, p, returned) w =
    let (polls, w') = claim_async_polls batch w in
    if returned then ((sends, []), w) else ((sends, (poll_rows p (rows_of polls)).0), w')

unfoldable pub claim_and_dispatch : (Json → Bytes) → Patience → ℕ → Action Dispatched
unfolding claim_deliveries send_rows dispatch_polls
claim_and_dispatch print p batch w =
    let (rows, w') = claim_deliveries batch w in
    dispatch_polls batch (send_rows print p (rows_of rows)) w'

-- ===== src/Worker/Exclusive.antt =====
-- No delivery is handed to two workers: the invariant of the whole worker's steps.
use sukumad.Prelude.{
  Option-cases, countb, ℤ, eq_ℤ, ℕ, ◌+◌, ◌≤◌, ◌<◌, ◌≡◌, inl, inr, Bool, some, List, [], ◌∷◌, map,
  arith,
}
use sukumad.Text.{Bytes}
use sukumad.Types.{Json, Time, Delivery}
use sukumad.Store.{Db}
use sukumad.Queue.Moves.{has_id}
use sukumad.Queue.Claim.{SendRow, send_row, keep_some, claimed_row, PollClaim}
use sukumad.Queue.Counts.{busy, open_for}
use sukumad.Worker.Wire.{DeliveryRow, PollRow, scan_delivery, scan_poll}
use sukumad.Worker.Dispatch.{Patience, one_less, send_rows, poll_rows}
use sukumad.Worker.System.{System}

abbrev pub sends : ℤ → DeliveryRow → Bool
sends i r = eq_ℤ r.delivery_id i

abbrev pub polls : ℤ → PollRow → Bool
polls i r = eq_ℤ r.delivery_id i

-- How many times a delivery is in the send channel or with a send worker.
abbrev pub send_count : ℤ → System → ℕ
send_count i s = countb (sends i) s.send_ch + countb (λ h. sends i h.0) s.sending

abbrev pub poll_count : ℤ → System → ℕ
poll_count i s = countb (polls i) s.poll_ch + countb (λ h. polls i h.0) s.polling

pub record Inv (s : System) : Type 0 where
  -- The id is the table's key.
  pub keyed : (i : ℤ) → countb (has_id i) s.world.db.deliveries ≤ 1
  -- What is being sent is marked as processing.
  pub marked : (i : ℤ) → send_count i s ≤ countb (busy i) s.world.db.deliveries
  -- What is being polled has been sent.
  pub polled : (i : ℤ) → 0 < poll_count i s → countb (open_for i) s.world.db.deliveries ≡ 0

pub scan_delivery-id :
    (print : Json → Bytes) (r : SendRow) (row : DeliveryRow)
    → scan_delivery print r ≡ some row
    → row.delivery_id ≡ r.delivery.id
unfolding scan_delivery
scan_delivery-id print r row e = ground arith

module _ (print : Json → Bytes) (i : ℤ) where
  abbrev pub claims : SendRow → Bool
  claims r = has_id i r.delivery

  pub send_rows-count :
      (p : Patience) (rs : List SendRow)
      → countb (sends i) (send_rows print p rs).0 ≤ countb claims rs
  unfolding send_rows
  send_rows-count p [] = omega arith
  send_rows-count p (r ∷ rs) = elim (Option-cases (scan_delivery print r)) [
    | inl e ↦ ground (arith, send_rows-count p rs)
    | inr (row, e) ↦ ground (arith, scan_delivery-id print r row e, send_rows-count (one_less p) rs)
  ]

  send_row-id : (db : Db) (d : Delivery) (r : SendRow) → send_row db d ≡ some r → r.delivery ≡ d
  send_row-id db d r e = ground arith

  pub claimed-count :
      (now : Time) (db : Db) (ds : List Delivery)
      → countb claims (keep_some (send_row db) (map (claimed_row now) ds)) ≤ countb (has_id i) ds
  claimed-count now db [] = omega arith
  claimed-count now db (d ∷ ds) = elim (Option-cases (send_row db (claimed_row now d))) [
    | inl e ↦ ground (arith, claimed-count now db ds)
    | inr (r, e) ↦ ground (arith, send_row-id db (claimed_row now d) r e, claimed-count now db ds)
  ]

pub poll_rows-count :
    (i : ℤ) (p : Patience) (rs : List PollClaim)
    → countb (polls i) (poll_rows p rs).0 ≤ countb (λ r. eq_ℤ r.delivery.id i) rs
unfolding poll_rows scan_poll
poll_rows-count i p [] = omega arith
poll_rows-count i p (r ∷ rs) = ground (arith, poll_rows-count i (one_less p) rs)

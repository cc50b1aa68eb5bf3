-- ===== src/Queue/Expand.antt =====
-- expand_request_to_deliveries: the rows are inserted together or not at all. The numbers that a
-- statement takes from the sequence before it fails are not counted as used.
use sukumad.Prelude.{
  if◌then◌else◌, is_some, any, ℤ, pos, eq_ℤ, suc, Bool, not, ◌&&◌, Option, none, some, List, [],
  ◌∷◌, ◌++◌,
}
use sukumad.Types.{Time, ready, Delivery}
use sukumad.Store.{Db, constraint, Result, ok, err, Action, exec}
use sukumad.Queue.Claim.{get_server, get_request}
use sukumad.Queue.Moves.{has_id}

-- A new row, with the defaults of the columns that the INSERT leaves out.
abbrev pub new_delivery : Time → ℤ → ℤ → ℤ → ℤ → Delivery
new_delivery now i request server priority = record {
  id = i;
  request_id = request;
  server_id = server;
  status = ready;
  attempts = 0;
  next_run_at = now;
  retry_after_at = none;
  last_error = none;
  status_code = none;
  response_body = none;
  priority = priority;
  scheduled_at = now;
  sent_at = none;
  updated_at = now;
  rate_class = none;
  rps_override = none;
  burst_override = none;
  timeout_ms = none;
  max_attempts = none;
  depends_on_delivery_id = none;
  async_job_id = none;
  async_status = none;
  async_response = none;
  async_poll_url = none;
  async_last_polled = none;
}

-- UNIQUE (request_id, server_id)
abbrev pub is_pair : ℤ → ℤ → Delivery → Bool
is_pair request server d = eq_ℤ d.request_id request && eq_ℤ d.server_id server

-- The constraints on a new row: its number and its pair are new, and both foreign keys are there.
unfoldable pub can_insert : ℤ → ℤ → Db → Bool
can_insert request server db =
    not (any (is_pair request server) db.deliveries)
    && not (any (has_id (pos (suc db.delivery_seq))) db.deliveries)
    && is_some (get_server server db)
    && is_some (get_request request db)

-- One row; the sequence goes on.
unfoldable pub insert_delivery : Time → ℤ → ℤ → ℤ → Db → Option Db
unfolding can_insert
insert_delivery now request server priority db =
    let i = suc db.delivery_seq in
    if can_insert request server db
    then some (record db {
      deliveries = db.deliveries ++ new_delivery now (pos i) request server priority ∷ [];
      delivery_seq = i;
    })
    else none

-- INSERT … SELECT over the array of the copies.
unfoldable pub insert_copies : Time → ℤ → List ℤ → ℤ → Db → Option Db
insert_copies now request [] priority db = some db
insert_copies now request (server ∷ servers) priority db =
    elim (insert_delivery now request server priority db) [
      | none ↦ none
      | some db' ↦ insert_copies now request servers priority db'
    ]

unfoldable pub expanded : Time → ℤ → ℤ → List ℤ → ℤ → ℤ → Db → Option Db
expanded now request dest copies priority cc_priority db =
    elim (insert_delivery now request dest priority db) [
      | none ↦ none
      | some db' ↦ insert_copies now request copies cc_priority db'
    ]

abbrev committed : Option Db → Db → Result (Unit {0}) × Db
committed none db = (err constraint, db)
committed (some db') db = (ok tt, db')

unfoldable pub expand_request_to_deliveries : ℤ → ℤ → List ℤ → ℤ → ℤ → Action (Result (Unit {0}))
unfolding expanded insert_copies insert_delivery
expand_request_to_deliveries request dest copies priority cc_priority =
    exec (λ now db. committed (expanded now request dest copies priority cc_priority db) db)

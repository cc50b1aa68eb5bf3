-- ===== src/Queue/Claim.antt =====
-- claim_deliveries and claim_async_polls. SQL promises no order of the rows that an UPDATE returns;
-- here they come as they were picked, and no theorem depends on their order.
use sukumad.Prelude.{
  ltb, leb, ◌==◌, if◌then◌else◌, coalesce, take, find, any, filterb, update_where, ℤ, eq_ℤ, lt_ℤ, ℕ,
  Bool, true, false, not, ◌&&◌, ◌||◌, Option, none, some, List, [], ◌∷◌, map,
}
use sukumad.Types.{Time, Server, Request, Status, ready, processing, awaiting_async, Delivery}
use sukumad.Store.{Db, Result, ok, Action, exec}
use sukumad.Queue.Moves.{has_id}

abbrev pub get_server : ℤ → Db → Option Server
get_server i db = find (λ s. eq_ℤ s.id i) db.servers

abbrev pub get_request : ℤ → Db → Option Request
get_request i db = find (λ r. eq_ℤ r.id i) db.requests

-- The join with `servers`, and COALESCE(s.suspended, false) = false.
abbrev pub server_open : Option Server → Bool
server_open none = false
server_open (some s) = not (coalesce s.suspended false)

abbrev pub request_open : Option Request → Bool
request_open none = false
request_open (some r) = not (coalesce r.suspended false)

abbrev pub is_ready : Status → Bool
is_ready ready = true
is_ready _ = false

abbrev pub is_awaiting : Status → Bool
is_awaiting awaiting_async = true
is_awaiting _ = false

-- The WHERE clause of claim_deliveries.
unfoldable pub can_send : Time → Db → Delivery → Bool
can_send now db d =
    is_ready d.status
    && leb d.next_run_at now
    && server_open (get_server d.server_id db)
    && request_open (get_request d.request_id db)

-- The WHERE clause of claim_async_polls.
unfoldable pub can_poll : Time → Db → Delivery → Bool
can_poll now db d =
    is_awaiting d.status && leb d.next_run_at now && server_open (get_server d.server_id db)

-- ORDER BY next_run_at, id
abbrev pub due_before : Delivery → Delivery → Bool
due_before a b = ltb a.next_run_at b.next_run_at || a.next_run_at == b.next_run_at && lt_ℤ a.id b.id

-- ORDER BY priority DESC, next_run_at, id
abbrev pub send_before : Delivery → Delivery → Bool
send_before a b = lt_ℤ b.priority a.priority || eq_ℤ a.priority b.priority && due_before a b

unfoldable pub insert_by : (Delivery → Delivery → Bool) → Delivery → List Delivery → List Delivery
insert_by before d [] = d ∷ []
insert_by before d (e ∷ es) =
    let later = e ∷ insert_by before d es in if before e d then later else d ∷ (e ∷ es)

unfoldable pub sort_by : (Delivery → Delivery → Bool) → List Delivery → List Delivery
unfolding insert_by
sort_by before [] = []
sort_by before (d ∷ ds) = insert_by before d (sort_by before ds)

-- The subquery `picked`.
unfoldable pub pick :
    (Delivery → Delivery → Bool) → (Delivery → Bool) → ℕ → List Delivery → List Delivery
unfolding sort_by
pick before eligible limit ds = take limit (sort_by before (filterb eligible ds))

abbrev pub is_picked : List Delivery → Delivery → Bool
is_picked picked d = any (has_id d.id) picked

-- A row of claim_deliveries, whose last column is NULL where the server's is.
pub record SendRow : Type 0 where
  pub delivery : Delivery
  pub server : Server
  pub request : Request

abbrev pub send_row : Db → Delivery → Option SendRow
send_row db d = elim (get_server d.server_id db) [
  | none ↦ none
  | some s ↦ elim (get_request d.request_id db) [
    | none ↦ none
    | some r ↦ some (record { delivery = d; server = s; request = r })
  ]
]

abbrev pub keep_some {ℓ κ} : {A : Type ℓ} {B : Type κ} → (A → Option B) → List A → List B
keep_some f [] = []
keep_some f (a ∷ as') = let rest = keep_some f as' in elim (f a) [ none ↦ rest | some b ↦ b ∷ rest ]

abbrev pub claimed_row : Time → Delivery → Delivery
claimed_row now d = record d { status = processing; updated_at = now }

unfoldable pub claim_deliveries : ℕ → Action (Result (List SendRow))
unfolding can_send pick
claim_deliveries limit = exec (λ now db.
    let picked = pick send_before (can_send now db) limit db.deliveries in
    (
      ok (keep_some (send_row db) (map (claimed_row now) picked)),
      record db { deliveries = update_where (is_picked picked) (claimed_row now) db.deliveries },
    ))

pub record PollClaim : Type 0 where
  pub delivery : Delivery
  pub server : Server

abbrev pub poll_claim : Db → Delivery → Option PollClaim
poll_claim db d = elim (get_server d.server_id db) [
  | none ↦ none
  | some s ↦ some (record { delivery = d; server = s })
]

abbrev pub touched_row : Time → Delivery → Delivery
touched_row now d = record d { updated_at = now }

unfoldable pub claim_async_polls : ℕ → Action (Result (List PollClaim))
unfolding can_poll pick
claim_async_polls limit = exec (λ now db.
    let picked = pick due_before (can_poll now db) limit db.deliveries in
    (
      ok (keep_some (poll_claim db) (map (touched_row now) picked)),
      record db { deliveries = update_where (is_picked picked) (touched_row now) db.deliveries },
    ))

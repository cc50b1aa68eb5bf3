-- ===== src/Worker/Outcome.antt =====
-- What becomes of a delivery that the worker sends or polls.
use sukumad.Prelude.{
  ◌==◌, if◌then◌else◌, Bool-cases, coalesce, ℤ, ℕ, ◌+◌, ◌≤◌, ◌<◌, ◌≡◌, refl, ap, ◌∙◌, ◌≢◌, ◌↔◌, ◌⊎◌,
  inl, inr, true, false, ◌&&◌, none, some, [], arith,
}
use sukumad.Text.{str, is_empty}
use sukumad.Types.{Time, ready, awaiting_async, done, failed, Delivery}
use sukumad.Store.{Result, ok, World, Action, next_fault, later_faults, exec}
use sukumad.Config.{Config}
use sukumad.Queue.Moves.{update_delivery, get_delivery, started_row, finalized_row}
use sukumad.Queue.Rows.{get_delivery-update_delivery, get_delivery-update_delivery_ne}
use sukumad.Worker.Helpers.{extract_async_handles_from_location, truncate, parse_retry_after_str}
use sukumad.Worker.Wire.{DeliveryRow, Response, Answer, no_answer, answered, resty_timeout}
use sukumad.Worker.Handlers.{
  Outside, final, finalize, is_success, is_retryable, send_accepted, send_response, send_answer,
  send_request, handle_send,
}
use mathlib.Core.Option

-- The answer that the client gives to a row.
abbrev pub answer_to : Outside → Config → DeliveryRow → Answer
answer_to out cfg row =
    out.client (resty_timeout row.timeout_ms cfg.downstream_client_timeout) row.method row.final_url
      (send_request out row)

-- The request was carried out: any 2xx, but a 202 of a server that answers later.
abbrev pub IsDelivered : DeliveryRow → Answer → Type 0
IsDelivered row (no_answer e) = ⊥
IsDelivered row (answered r) =
    (200 ≤ r.status_code)
    × (r.status_code < 300)
    × ((row.server_use_async ≡ false) ⊎ (r.status_code ≢ 202))

-- A job was started that has a name.
abbrev pub IsStarted : DeliveryRow → Answer → Type 0
IsStarted row (no_answer e) = ⊥
IsStarted row (answered r) =
    (row.server_use_async ≡ true)
    × (r.status_code ≡ 202)
    × ((extract_async_handles_from_location r.location).0 ≢ [])

-- The limit of a delivery's attempts.
abbrev pub max_attempts_of : Delivery → ℕ
max_attempts_of d = coalesce d.max_attempts 8

-- What the row is after a send.
pub record SendOutcome (row : DeliveryRow) (a : Answer) (d d' : Delivery) : Type 0 where
  pub done_iff : (d'.status ≡ done) ↔ IsDelivered row a
  pub started_iff : (d'.status ≡ awaiting_async) ↔ IsStarted row a
  pub failed_iff :
      (d'.status ≡ failed)
      ↔ (¬ IsDelivered row a) × (¬ IsStarted row a) × (max_attempts_of d ≤ d.attempts + 1)
  pub ready_iff :
      (d'.status ≡ ready)
      ↔ (¬ IsDelivered row a) × (¬ IsStarted row a) × (d.attempts + 1 < max_attempts_of d)
  pub attempts_counted :
      (IsDelivered row a → d'.attempts ≡ d.attempts)
      × (IsStarted row a → d'.attempts ≡ d.attempts)
      × (¬ IsDelivered row a → ¬ IsStarted row a → d'.attempts ≡ d.attempts + 1)

-- The update that the handler makes, by the same tests.
unfoldable pub sent_accepted :
    Outside → Config → DeliveryRow → Time → Response → Delivery → Delivery
unfolding finalized_row
sent_accepted out cfg row now r =
    let (job, url) = extract_async_handles_from_location r.location in
    if is_empty job
    then finalized_row now (
        final false r.status_code (truncate r.body 1024) (str "missing async job id")
          (parse_retry_after_str out.parse_time now r.retry_after))
    else started_row now job url (str "queued") cfg.poll_again_seconds

unfoldable pub sent_row : Outside → Config → DeliveryRow → Time → Answer → Delivery → Delivery
unfolding sent_accepted finalized_row
sent_row out cfg row now (no_answer e) = finalized_row now (final false 0 [] e none)
sent_row out cfg row now (answered r) =
    if row.server_use_async && r.status_code == 202
    then sent_accepted out cfg row now r
    else if is_success r.status_code
    then finalized_row now (final true r.status_code (truncate r.body 4096) [] none)
    else if is_retryable r.status_code
    then finalized_row now (
        final false r.status_code (truncate r.body 4096) (str "retryable")
          (parse_retry_after_str out.parse_time now r.retry_after))
    else finalized_row now (final false r.status_code (truncate r.body 4096) (str "terminal") none)

-- A handler makes one call of the database, which fails or makes the update.
abbrev pub one_update : ℤ → (Delivery → Delivery) → Action (Result (Unit {0}))
one_update i f = exec (λ now db. (ok tt, update_delivery i f db))

send_accepted_lem :
    (out : Outside) (cfg : Config) (row : DeliveryRow) (r : Response) (w : World)
    → send_accepted out cfg row r w
      ≡ one_update row.delivery_id (sent_accepted out cfg row w.now r) w
unfolding send_accepted sent_accepted exec
send_accepted_lem out cfg row r w =
    elim (Bool-cases (is_empty (extract_async_handles_from_location r.location).0)) [
      | inl e ↦ rw e refl
      | inr e ↦ rw e refl
    ]

send_response_lem :
    (out : Outside) (cfg : Config) (row : DeliveryRow) (r : Response) (w : World)
    → send_response out cfg row r w
      ≡ one_update row.delivery_id (sent_row out cfg row w.now (answered r)) w
unfolding send_response sent_row exec
send_response_lem out cfg row r w =
    elim (Bool-cases (row.server_use_async && r.status_code == 202)) [
      | inl e ↦ rw e (send_accepted_lem out cfg row r w)
      | inr e ↦ elim (Bool-cases (is_success r.status_code)) [
        | inl e₂ ↦ rw (e, e₂) refl
        | inr e₂ ↦ elim (Bool-cases (is_retryable r.status_code)) [
          | inl e₃ ↦ rw (e, e₂, e₃) refl
          | inr e₃ ↦ rw (e, e₂, e₃) refl
        ]
      ]
    ]

pub send_answer_lem :
    (out : Outside) (cfg : Config) (row : DeliveryRow) (a : Answer) (w : World)
    → send_answer out cfg row a w ≡ one_update row.delivery_id (sent_row out cfg row w.now a) w
send_answer_lem out cfg row (no_answer e) w = unfold finalize sent_row exec in refl
send_answer_lem out cfg row (answered r) w = send_response_lem out cfg row r w

sent_row-SendOutcome :
    (out : Outside) (cfg : Config) (row : DeliveryRow) (now : Time) (a : Answer) (d : Delivery)
    → SendOutcome row a d (sent_row out cfg row now a d)
unfolding sent_row
sent_row-SendOutcome out cfg row now (no_answer e) d = ground arith
sent_row-SendOutcome out cfg row now (answered r) d = ground arith

pub one_update_ok :
    (i : ℤ) (f : Delivery → Delivery) (w : World)
    → next_fault w.faults ≡ false
    → one_update i f w
      ≡ (ok tt, record w { db = update_delivery i f w.db; faults = later_faults w.faults })
unfolding exec
one_update_ok i f w h = rw h refl

pub sent_row-id :
    (out : Outside) (cfg : Config) (row : DeliveryRow) (now : Time) (a : Answer) (d : Delivery)
    → (sent_row out cfg row now a d).id ≡ d.id
unfolding sent_row
sent_row-id out cfg row now (no_answer e) d = ground arith
sent_row-id out cfg row now (answered r) d = ground arith

-- If the database answers, a send leaves its delivery: done exactly after a 2xx that is no
-- acceptance, awaiting its job exactly after an acceptance that names one, and after all else, a
-- client's error, 4xx, 429 and 5xx alike, ready again or, at the limit of its attempts, failed. An
-- attempt is counted exactly in these last cases.
pub handle_send-SendOutcome :
    (out : Outside) (cfg : Config) (row : DeliveryRow) (w : World) (d : Delivery)
    → next_fault w.faults ≡ false
    → get_delivery row.delivery_id w.db ≡ some d
    → (d' : Delivery) × (get_delivery row.delivery_id (handle_send out cfg row w).1.db ≡ some d')
      × SendOutcome row (answer_to out cfg row) d d'
unfolding handle_send
handle_send-SendOutcome out cfg row w d h e =
    let a = answer_to out cfg row in
    let f = sent_row out cfg row w.now a in
    (
      f d,
      rw (send_answer_lem out cfg row a w) (
          rw (one_update_ok row.delivery_id f w h) (
            get_delivery-update_delivery row.delivery_id f w.db (sent_row-id out cfg row w.now a)
            ∙ ap (Option.map f) e)),
      sent_row-SendOutcome out cfg row w.now a d,
    )

-- A send changes no other delivery, whether or not the database answers.
pub handle_send-others :
    (out : Outside) (cfg : Config) (row : DeliveryRow) (w : World) (j : ℤ)
    → row.delivery_id ≢ j
    → get_delivery j (handle_send out cfg row w).1.db ≡ get_delivery j w.db
unfolding handle_send exec
handle_send-others out cfg row w j ne =
    let a = answer_to out cfg row in
    let f = sent_row out cfg row w.now a in
    rw (send_answer_lem out cfg row a w) (elim (Bool-cases (next_fault w.faults)) [
      | inl e ↦ rw e refl
      | inr e ↦ rw e (
          get_delivery-update_delivery_ne row.delivery_id j f w.db ne
            (sent_row-id out cfg row w.now a))
    ])

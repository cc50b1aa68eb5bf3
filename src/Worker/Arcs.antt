-- ===== src/Worker/Arcs.antt =====
-- What the worker does to a row, as moves of the life cycle.

use sukumad.Prelude.{
  leb, ◌==◌, if◌then◌else◌, Bool-cases, ℕ, ◌+◌, ◌≡◌, refl, inl, inr, Bool, true, false, not, ◌&&◌,
  Option, none, some, [], arith,
}
use sukumad.Text.{Bytes, str, is_empty}
use sukumad.Types.{Json, Time, processing, Delivery}
use sukumad.Config.{Config}
use sukumad.Queue.Moves.{is_one_of, finalized_row}
use sukumad.Queue.Counts.{is_open}
use sukumad.Worker.Helpers.{
  extract_async_handles_from_location, map_dhis2_job, json_raw_to_map, truncate,
  parse_retry_after_str,
}
use sukumad.Worker.Wire.{DeliveryRow, Response, Answer, no_answer, answered}
use sukumad.Worker.Handlers.{
  Outside, final, success_values, failure_values, is_success, is_retryable, error_payload,
}
use sukumad.Worker.Outcome.{max_attempts_of, sent_accepted, sent_row}
use sukumad.Worker.Polling.{polled, job_row, job_answer_row}
use sukumad.Worker.Life.{
  view, Arc, stays, deliver, start_job, retry, give_up, finish_job, break_job,
}

-- What a change of a row is in the life cycle.
unfoldable pub ByArc : (Delivery → Delivery) → Delivery → Type 0
ByArc f d = Arc (view d) (view (f d))

if-ByArc :
    (b : Bool) (f g : Delivery → Delivery) (d : Delivery)
    → ByArc f d
    → ByArc g d
    → ByArc (if b then f else g) d
if-ByArc true f g d x y = x
if-ByArc false f g d x y = y

failure-ByArc :
    (code : ℕ) (body cause : Bytes) (retry_after : Option Time) (now : Time) (d : Delivery)
    → d.status ≡ processing
    → ByArc (finalized_row now (final false code body cause retry_after)) d
unfolding finalized_row ByArc
failure-ByArc code body cause retry_after now d s =
    elim (Bool-cases (leb (max_attempts_of d) (d.attempts + 1))) [
      | inl x ↦ give_up s (ground (arith, x)) (ground (arith, x))
      | inr x ↦ retry s (ground (arith, x)) (ground (arith, x))
    ]

sent_accepted-ByArc :
    (out : Outside) (cfg : Config) (row : DeliveryRow) (now : Time) (r : Response) (d : Delivery)
    → d.status ≡ processing
    → ByArc (sent_accepted out cfg row now r) d
unfolding sent_accepted ByArc
sent_accepted-ByArc out cfg row now r d s =
    elim (Bool-cases (is_empty (extract_async_handles_from_location r.location).0)) [
      | inl e ↦ rw e (
          failure-ByArc r.status_code (truncate r.body 1024) (str "missing async job id")
            (parse_retry_after_str out.parse_time now r.retry_after) now d s)
      | inr e ↦ rw e (start_job s refl)
    ]

pub sent_row-ByArc :
    (out : Outside) (cfg : Config) (row : DeliveryRow) (now : Time) (a : Answer) (d : Delivery)
    → d.status ≡ processing
    → ByArc (sent_row out cfg row now a) d
unfolding sent_row ByArc
sent_row-ByArc out cfg row now (no_answer e) d s = failure-ByArc 0 [] e none now d s
sent_row-ByArc out cfg row now (answered r) d s =
    elim (Bool-cases (row.server_use_async && r.status_code == 202)) [
      | inl e ↦ rw e (sent_accepted-ByArc out cfg row now r d s)
      | inr e ↦ elim (Bool-cases (is_success r.status_code)) [
        | inl e₂ ↦ rw (e, e₂) (deliver s refl)
        | inr e₂ ↦ elim (Bool-cases (is_retryable r.status_code)) [
          | inl e₃ ↦
              rw (e, e₂, e₃)
                (failure-ByArc r.status_code (truncate r.body 4096) (str "retryable")
                  (parse_retry_after_str out.parse_time now r.retry_after) now d s)
          | inr e₃ ↦
              rw (e, e₂, e₃)
                (failure-ByArc r.status_code (truncate r.body 4096) (str "terminal") none now d s)
        ]
      ]
    ]

polled-ByArc :
    (out : Outside) (now : Time) (s : Bytes) (payload : Option Json) (again : ℕ) (d : Delivery)
    → is_open d.status ≡ false
    → ByArc (polled out now s payload again) d
unfolding ByArc
polled-ByArc out now s payload again d settled = elim (Bool-cases (is_one_of s success_values)) [
  | inl e ↦ rw e (finish_job settled refl)
  | inr e ↦ elim (Bool-cases (is_one_of s failure_values)) [
    | inl e₂ ↦ rw (e, e₂) (break_job settled refl)
    | inr e₂ ↦ rw (e, e₂) (stays refl)
  ]
]

job_row-ByArc :
    (out : Outside) (cfg : Config) (now : Time) (body : Bytes) (j : Bytes × Bytes × Bytes)
    (d : Delivery)
    → is_open d.status ≡ false
    → ByArc (job_row out cfg now body j) d
job_row-ByArc out cfg now body (s, u, f) d settled =
    let payload = json_raw_to_map out.parse body in
    if-ByArc (not (is_empty u)) _ _ d (polled-ByArc out now u payload 0 d settled) (
      if-ByArc (not (is_empty f)) _ _ d (polled-ByArc out now f payload 0 d settled)
        (polled-ByArc out now s payload cfg.poll_again_seconds d settled))

pub job_answer_row-ByArc :
    (out : Outside) (cfg : Config) (now : Time) (a : Answer) (d : Delivery)
    → is_open d.status ≡ false
    → ByArc (job_answer_row out cfg now a) d
job_answer_row-ByArc out cfg now (no_answer e) d settled =
    polled-ByArc out now (str "RUNNING") (some (error_payload e)) cfg.poll_again_seconds d settled
job_answer_row-ByArc out cfg now (answered r) d settled =
    job_row-ByArc out cfg now r.body (map_dhis2_job out.parse r.body) d settled

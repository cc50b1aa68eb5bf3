-- ===== src/Queue/Moves.antt =====
-- start_async_delivery, update_async_status and finalize_delivery.
use sukumad.Prelude.{
  leb, if◌then◌else◌, coalesce, take, find, any, update_where, ℤ, pos, eq_ℤ, ℕ, ◌+◌, ◌*◌, ◌^◌, min,
  max, Bool, Option, none, some, List,
}
use sukumad.Text.{Bytes, str, text_eq, is_empty}
use sukumad.Types.{
  Json, null, text, obj, get_member, Time, ready, awaiting_async, done, failed, Delivery,
}
use sukumad.Store.{Db, Result, ok, Action, exec}

-- One second, in the nanoseconds of a time.
abbrev pub second : ℕ
second = 1_000_000_000

abbrev pub has_id : ℤ → Delivery → Bool
has_id i d = eq_ℤ d.id i

-- UPDATE deliveries SET … WHERE id = …
unfoldable pub update_delivery : ℤ → (Delivery → Delivery) → Db → Db
update_delivery i f db = record db { deliveries = update_where (has_id i) f db.deliveries }

-- The first delivery with the id, which is its primary key.
abbrev pub get_delivery : ℤ → Db → Option Delivery
get_delivery i db = find (has_id i) db.deliveries

abbrev pub started_row : Time → Bytes → Bytes → Bytes → ℕ → Delivery → Delivery
started_row now job url initial delay d = record d {
  async_job_id = some job;
  async_poll_url = if is_empty url then none else some url;
  async_status = some initial;
  status = awaiting_async;
  next_run_at = now + delay * second;
  sent_at = some (coalesce d.sent_at now);
  updated_at = now;
}

unfoldable pub start_async_delivery : ℤ → Bytes → Bytes → Bytes → ℕ → Action (Result (Unit {0}))
unfolding update_delivery
start_async_delivery i job url initial delay =
    exec (λ now db. (ok tt, update_delivery i (started_row now job url initial delay) db))

abbrev pub is_one_of : Bytes → List Bytes → Bool
is_one_of s values = any (λ v. text_eq s v) values

-- `p_response ->> 'message'`; the text of a value that is no string is the printer's.
abbrev pub message_text : (Json → Bytes) → Option Json → Option Bytes
message_text print none = none
message_text print (some null) = none
message_text print (some (text s)) = some s
message_text print (some j) = some (print j)

abbrev pub response_message : (Json → Bytes) → Option Json → Option Bytes
response_message print (some (obj ms)) = message_text print (get_member (str "message") ms)
response_message print _ = none

abbrev pub polled_row :
    (Json → Bytes) → Time → Bytes → Option Json → List Bytes → List Bytes → ℕ → Delivery → Delivery
polled_row print now s response successes failures again d =
    let answered = record d {
      async_status = some s;
      async_response = response;
      updated_at = now;
    } in
    if is_one_of s successes
    then record answered {
      status = done;
      status_code = some (pos 200);
      last_error = none;
      sent_at = some (coalesce d.sent_at now);
    }
    else if is_one_of s failures
    then record answered {
      status = failed;
      status_code = some (pos 500);
      last_error = some (coalesce (response_message print response) (str "async failed"));
    }
    else record answered { async_last_polled = some now; next_run_at = now + again * second }

unfoldable pub update_async_status :
    (Json → Bytes)
    → ℤ
    → Bytes
    → Option Json
    → List Bytes
    → List Bytes
    → ℕ
    → Action (Result (Unit {0}))
unfolding update_delivery
update_async_status print i s response successes failures again = exec (λ now db.
    (ok tt, update_delivery i (polled_row print now s response successes failures again) db))

-- The parameters of finalize_delivery after the id.
pub record Final : Type 0 where
  pub succeeded : Bool
  pub status_code : ℤ
  pub response_body : Bytes
  pub error : Bytes
  pub retry_after : Option Time
  pub default_max_attempts : ℕ
  pub backoff_min_seconds : ℕ
  pub backoff_max_seconds : ℕ

-- LEAST(p_backoff_min_seconds * 2 ^ GREATEST(v_attempts, 1), p_backoff_max_seconds)
unfoldable pub backoff_seconds : ℕ → ℕ → ℕ → ℕ
backoff_seconds lo hi attempts = min (lo * 2 ^ max attempts 1) hi

unfoldable pub next_try : Time → Final → ℕ → Time
unfolding backoff_seconds
next_try now p attempts =
    coalesce p.retry_after
      (now + backoff_seconds p.backoff_min_seconds p.backoff_max_seconds attempts * second)

-- `v_attempts + 1 >= v_max_attempts`
abbrev pub is_exhausted : Final → Delivery → Bool
is_exhausted p d = leb (coalesce d.max_attempts p.default_max_attempts) (d.attempts + 1)

unfoldable pub finalized_row : Time → Final → Delivery → Delivery
unfolding next_try
finalized_row now p d =
    if p.succeeded
    then record d {
      status = done;
      status_code = some p.status_code;
      response_body = some p.response_body;
      last_error = none;
      sent_at = some (coalesce d.sent_at now);
      updated_at = now;
    }
    else record d {
      attempts = d.attempts + 1;
      status = if is_exhausted p d then failed else ready;
      status_code = some p.status_code;
      response_body = some p.response_body;
      last_error = some (take 2000 p.error);
      next_run_at = if is_exhausted p d then now else next_try now p d.attempts;
      retry_after_at = p.retry_after;
      updated_at = now;
    }

unfoldable pub finalize_delivery : ℤ → Final → Action (Result (Unit {0}))
unfolding finalized_row update_delivery
finalize_delivery i p = exec (λ now db. (ok tt, update_delivery i (finalized_row now p) db))

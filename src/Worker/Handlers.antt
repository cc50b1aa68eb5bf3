-- ===== src/Worker/Handlers.antt =====
-- handleSendResty, handlePollResty and the wrappers of the database functions that they call.
use sukumad.Prelude.{
  ltb, leb, ◌==◌, if◌then◌else◌, ℤ, pos, ℕ, Bool, true, false, not, ◌&&◌, ◌||◌, Option, none, some,
  List, [], ◌∷◌,
}
use sukumad.Text.{Bytes, str, is_empty}
use sukumad.Types.{Json, text, obj, last, member, Time}
use sukumad.Store.{Result, Action}
use sukumad.Queue.Moves.{start_async_delivery, update_async_status, Final, finalize_delivery}
use sukumad.Config.{Config}
use sukumad.Worker.Helpers.{
  extract_async_handles_from_location, map_dhis2_job, json_raw_to_map, truncate, Layout,
  parse_retry_after_str,
}
use sukumad.Worker.Wire.{
  DeliveryRow, PollRow, HttpRequest, Response, Answer, no_answer, answered, Client,
  build_resty_request, resty_timeout,
}

-- The libraries that the handlers call: the HTTP client, encoding/json and time.Parse.
pub record Outside : Type 0 where
  pub client : Client
  pub parse : Bytes → Option Json
  pub print : Json → Bytes
  pub parse_time : Layout → Bytes → Option Time

unfoldable pub start_async : ℤ → Bytes → Bytes → Bytes → ℕ → Action (Result (Unit {0}))
unfolding start_async_delivery
start_async i job url initial delay = start_async_delivery i job url initial delay

-- The last three arguments of finalize_delivery are fixed.
abbrev pub final : Bool → ℕ → Bytes → Bytes → Option Time → Final
final ok' code body cause retry_after = record {
  succeeded = ok';
  status_code = pos code;
  response_body = body;
  error = cause;
  retry_after = retry_after;
  default_max_attempts = 8;
  backoff_min_seconds = 2;
  backoff_max_seconds = 120;
}

-- The cause is an error's text, empty for nil.
unfoldable pub finalize : ℤ → Bool → ℕ → Bytes → Bytes → Option Time → Action (Result (Unit {0}))
unfolding finalize_delivery
finalize i ok' code body cause retry_after =
    finalize_delivery i (final ok' code body cause retry_after)

abbrev pub success_values : List Bytes
success_values = str "COMPLETED" ∷ str "SUCCESS" ∷ str "OK" ∷ []

abbrev pub failure_values : List Bytes
failure_values = str "FAILED" ∷ str "ERROR" ∷ []

unfoldable pub update_async :
    (Json → Bytes) → ℤ → Bytes → Option Json → ℕ → Action (Result (Unit {0}))
unfolding update_async_status
update_async print i s payload again =
    update_async_status print i s payload success_values failure_values again

abbrev pub is_success : ℕ → Bool
is_success code = leb 200 code && ltb code 300

abbrev pub is_retryable : ℕ → Bool
is_retryable code = code == 429 || leb 500 code

-- The branch of a 202 from a server that answers later.
unfoldable pub send_accepted :
    Outside → Config → DeliveryRow → Response → Action (Result (Unit {0}))
unfolding start_async finalize
send_accepted out cfg row resp w =
    let (job, url) = extract_async_handles_from_location resp.location in
    (if is_empty job
        then finalize row.delivery_id false resp.status_code (truncate resp.body 1024)
            (str "missing async job id")
            (parse_retry_after_str out.parse_time w.now resp.retry_after)
        else start_async row.delivery_id job url (str "queued") cfg.poll_again_seconds)
      w

-- The switch on the response.
unfoldable pub send_response :
    Outside → Config → DeliveryRow → Response → Action (Result (Unit {0}))
unfolding send_accepted finalize
send_response out cfg row resp w =
    (if row.server_use_async && resp.status_code == 202
        then send_accepted out cfg row resp
        else if is_success resp.status_code
        then finalize row.delivery_id true resp.status_code (truncate resp.body 4096) [] none
        else if is_retryable resp.status_code
        then finalize row.delivery_id false resp.status_code (truncate resp.body 4096)
            (str "retryable") (parse_retry_after_str out.parse_time w.now resp.retry_after)
        else finalize row.delivery_id false resp.status_code (truncate resp.body 4096)
            (str "terminal") none)
      w

abbrev pub send_answer : Outside → Config → DeliveryRow → Answer → Action (Result (Unit {0}))
send_answer out cfg row (no_answer e) = finalize row.delivery_id false 0 [] e none
send_answer out cfg row (answered resp) = send_response out cfg row resp

-- The request of a row.
unfoldable pub send_request : Outside → DeliveryRow → HttpRequest
send_request out row =
    build_resty_request out.parse out.print row.content_type row.body row.headers_json
      row.auth_method row.username row.password row.auth_token

unfoldable pub handle_send : Outside → Config → DeliveryRow → Action (Result (Unit {0}))
unfolding send_response finalize
handle_send out cfg row = send_answer out cfg row (
    out.client (resty_timeout row.timeout_ms cfg.downstream_client_timeout) row.method row.final_url
      (send_request out row))

-- map[string]any{"error": err.Error()}
abbrev pub error_payload : Bytes → Json
error_payload e = obj (member (str "error") (text e) last)

-- The switch on what the job says of itself.
unfoldable pub poll_job :
    Outside → Config → PollRow → Bytes → Bytes × Bytes × Bytes → Action (Result (Unit {0}))
unfolding update_async
poll_job out cfg row body (s, succ, fail) =
    if not (is_empty succ)
    then update_async out.print row.delivery_id succ (json_raw_to_map out.parse body) 0
    else if not (is_empty fail)
    then update_async out.print row.delivery_id fail (json_raw_to_map out.parse body) 0
    else update_async out.print row.delivery_id s (json_raw_to_map out.parse body)
        cfg.poll_again_seconds

abbrev pub poll_answer : Outside → Config → PollRow → Answer → Action (Result (Unit {0}))
poll_answer out cfg row (no_answer e) =
    update_async out.print row.delivery_id (str "RUNNING") (some (error_payload e))
      cfg.poll_again_seconds
poll_answer out cfg row (answered resp) =
    poll_job out cfg row resp.body (map_dhis2_job out.parse resp.body)

unfoldable pub poll_request : Outside → PollRow → HttpRequest
poll_request out row =
    build_resty_request out.parse out.print [] [] [] row.auth_method row.username row.password
      row.auth_token

unfoldable pub handle_poll : Outside → Config → PollRow → Action (Result (Unit {0}))
unfolding poll_job update_async
handle_poll out cfg row = poll_answer out cfg row (
    out.client (resty_timeout row.timeout_ms cfg.downstream_client_timeout) (str "GET") row.poll_url
      (poll_request out row))

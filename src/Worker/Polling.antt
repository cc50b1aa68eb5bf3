-- ===== src/Worker/Polling.antt =====
-- What becomes of a delivery whose job is polled.
use sukumad.Worker.Report.{
  status_word, SaysFinished, SaysFailed, JobCase, finished, broken, running, queued,
  job_of_status-JobCase, word_iff, no_word_iff, job_of_json-none, job_of_json-some,
}
use sukumad.Prelude.{
  if◌then◌else◌, Option-cases, pos, ℕ, ◌+◌, ◌*◌, ◌≡◌, refl, ap, ◌∙◌, ◌↔◌, inl, inr, false, not,
  Option, some, [], ◌∷◌, arith,
}
use sukumad.Text.{Bytes, str, text_eq, is_empty}
use sukumad.Types.{Json, Time, done, failed, Delivery}
use sukumad.Worker.Helpers.{job_of_status, map_dhis2_job, json_raw_to_map}
use sukumad.Store.{World, next_fault, exec}
use sukumad.Config.{Config}
use sukumad.Queue.Moves.{second, get_delivery, polled_row}
use sukumad.Worker.Wire.{PollRow, Answer, no_answer, answered, resty_timeout}
use sukumad.Worker.Handlers.{
  Outside, success_values, failure_values, update_async, error_payload, poll_job, poll_answer,
  poll_request, handle_poll,
}
use sukumad.Worker.Outcome.{one_update, one_update_ok}
use sukumad.Queue.Rows.{get_delivery-update_delivery}
use mathlib.Core.Option
use mathlib.Core.Option.{some-injective}

-- What the client answers to a poll.
abbrev pub poll_answer_to : Outside → Config → PollRow → Answer
poll_answer_to out cfg row =
    out.client (resty_timeout row.timeout_ms cfg.downstream_client_timeout) (str "GET") row.poll_url
      (poll_request out row)

-- The job's report has a status that holds of a predicate.
abbrev pub Reports : (Bytes → Type 0) → Outside → Answer → Type 0
Reports P out (no_answer e) = ⊥
Reports P out (answered r) = (u : Bytes) × (status_word (out.parse r.body) ≡ some u) × P u

-- What the row is after a poll.
pub record PollOutcome (cfg : Config) (finish break : Type 0) (now : Time) (d d' : Delivery)
    : Type 0 where
  pub done_if : finish → (d'.status ≡ done) × (d'.status_code ≡ some (pos 200))
  pub failed_if : break → (d'.status ≡ failed) × (d'.status_code ≡ some (pos 500))
  pub waits_if :
      ¬ finish
      → ¬ break
      → (d'.status ≡ d.status)
        × (d'.next_run_at ≡ now + cfg.poll_again_seconds * second)
        × (d'.async_last_polled ≡ some now)
  pub attempts_kept : d'.attempts ≡ d.attempts

-- The update that the handler makes.
abbrev pub polled : Outside → Time → Bytes → Option Json → ℕ → Delivery → Delivery
polled out now s payload again =
    polled_row out.print now s payload success_values failure_values again

abbrev pub job_row : Outside → Config → Time → Bytes → Bytes × Bytes × Bytes → Delivery → Delivery
job_row out cfg now body (s, succ, fail) =
    if not (is_empty succ)
    then polled out now succ (json_raw_to_map out.parse body) 0
    else if not (is_empty fail)
    then polled out now fail (json_raw_to_map out.parse body) 0
    else polled out now s (json_raw_to_map out.parse body) cfg.poll_again_seconds

abbrev pub job_answer_row : Outside → Config → Time → Answer → Delivery → Delivery
job_answer_row out cfg now (no_answer e) =
    polled out now (str "RUNNING") (some (error_payload e)) cfg.poll_again_seconds
job_answer_row out cfg now (answered r) =
    job_row out cfg now r.body (map_dhis2_job out.parse r.body)

poll_job_lem :
    (out : Outside) (cfg : Config) (row : PollRow) (body : Bytes) (j : Bytes × Bytes × Bytes)
    (w : World)
    → poll_job out cfg row body j w ≡ one_update row.delivery_id (job_row out cfg w.now body j) w
unfolding poll_job exec
poll_job_lem out cfg row body (s, [], []) w = refl
poll_job_lem out cfg row body (s, [], (b ∷ f)) w = refl
poll_job_lem out cfg row body (s, (b ∷ u), f) w = refl

pub poll_answer_lem :
    (out : Outside) (cfg : Config) (row : PollRow) (a : Answer) (w : World)
    → poll_answer out cfg row a w ≡ one_update row.delivery_id (job_answer_row out cfg w.now a) w
poll_answer_lem out cfg row (no_answer e) w = unfold update_async exec in refl
poll_answer_lem out cfg row (answered r) w =
    poll_job_lem out cfg row r.body (map_dhis2_job out.parse r.body) w

words_differ : (u : Bytes) → SaysFinished u → ¬ SaysFailed u
unfolding str
words_differ u h k = ground arith

job_row-PollOutcome :
    (out : Outside) (cfg : Config) (now : Time) (body u : Bytes) (d : Delivery)
    (j : Bytes × Bytes × Bytes)
    → JobCase u j
    → PollOutcome cfg (SaysFinished u) (SaysFailed u) now d (job_row out cfg now body j d)
unfolding str text_eq
job_row-PollOutcome out cfg now body u d _ (finished h) = record {
  done_if = λ _. (refl, refl);
  failed_if = λ k. absurd (words_differ u h k);
  waits_if = λ n _. absurd (n h);
  attempts_kept = refl;
}
job_row-PollOutcome out cfg now body u d _ (broken n h) = record {
  done_if = λ k. absurd (n k);
  failed_if = λ _. (refl, refl);
  waits_if = λ _ m. absurd (m h);
  attempts_kept = refl;
}
job_row-PollOutcome out cfg now body u d _ (running n m) = record {
  done_if = λ k. absurd (n k);
  failed_if = λ k. absurd (m k);
  waits_if = λ _ _. (refl, refl, refl);
  attempts_kept = refl;
}
job_row-PollOutcome out cfg now body u d _ (queued n m) = record {
  done_if = λ k. absurd (n k);
  failed_if = λ k. absurd (m k);
  waits_if = λ _ _. (refl, refl, refl);
  attempts_kept = refl;
}

-- The same, where what finishes and what breaks are named otherwise.
transfer :
    {cfg : Config} {f b f' b' : Type 0} {now : Time} {d d' : Delivery}
    → f' ↔ f
    → b' ↔ b
    → PollOutcome cfg f b now d d'
    → PollOutcome cfg f' b' now d d'
transfer e g o = record {
  done_if = λ h. o.done_if (e.0 h);
  failed_if = λ h. o.failed_if (g.0 h);
  waits_if = λ n m. o.waits_if (λ h. n (e.1 h)) (λ h. m (g.1 h));
  attempts_kept = o.attempts_kept;
}

-- With no status that the code reads the job counts as running.
running-PollOutcome :
    (out : Outside) (cfg : Config) (now : Time) (payload : Option Json) (d : Delivery)
    → PollOutcome cfg ⊥ ⊥ now d (polled out now (str "RUNNING") payload cfg.poll_again_seconds d)
unfolding str text_eq
running-PollOutcome out cfg now payload d = record {
  done_if = λ h. absurd h;
  failed_if = λ h. absurd h;
  waits_if = λ _ _. (refl, refl, refl);
  attempts_kept = refl;
}

job_answer_row-PollOutcome :
    (out : Outside) (cfg : Config) (now : Time) (a : Answer) (d : Delivery)
    → PollOutcome cfg
        (Reports SaysFinished out a)
        (Reports SaysFailed out a)
        now
        d
        (job_answer_row out cfg now a d)
unfolding map_dhis2_job
job_answer_row-PollOutcome out cfg now (no_answer e) d =
    running-PollOutcome out cfg now (some (error_payload e)) d
job_answer_row-PollOutcome out cfg now (answered r) d =
    elim (Option-cases (status_word (out.parse r.body))) [
      | inl e ↦ transfer (no_word_iff SaysFinished _ e) (no_word_iff SaysFailed _ e) (
          rw (job_of_json-none (out.parse r.body) e)
            (running-PollOutcome out cfg now (json_raw_to_map out.parse r.body) d))
      | inr (u, e) ↦ transfer (word_iff SaysFinished _ u e) (word_iff SaysFailed _ u e) (
          rw (job_of_json-some (out.parse r.body) u e) (
            job_row-PollOutcome out cfg now r.body u d (job_of_status u) (job_of_status-JobCase u)))
    ]

job_row-id :
    (out : Outside) (cfg : Config) (now : Time) (body : Bytes) (j : Bytes × Bytes × Bytes)
    (d : Delivery)
    → (job_row out cfg now body j d).id ≡ d.id
job_row-id out cfg now body j d = ground arith

pub job_answer_row-id :
    (out : Outside) (cfg : Config) (now : Time) (a : Answer) (d : Delivery)
    → (job_answer_row out cfg now a d).id ≡ d.id
job_answer_row-id out cfg now (no_answer e) d = ground arith
job_answer_row-id out cfg now (answered r) d =
    job_row-id out cfg now r.body (map_dhis2_job out.parse r.body) d

-- If the database answers, a poll makes its delivery done, with code 200, if the report's status
-- says that the job is finished, and failed, with code 500, if it says that the job failed. After
-- anything else, an error or an unreadable report too, the status stays and the next poll is due
-- after the configured wait. A poll counts no attempt.
pub handle_poll-PollOutcome :
    (out : Outside) (cfg : Config) (row : PollRow) (w : World) (d : Delivery)
    → next_fault w.faults ≡ false
    → get_delivery row.delivery_id w.db ≡ some d
    → (d' : Delivery) × (get_delivery row.delivery_id (handle_poll out cfg row w).1.db ≡ some d')
      × PollOutcome cfg
          (Reports SaysFinished out (poll_answer_to out cfg row))
          (Reports SaysFailed out (poll_answer_to out cfg row))
          w.now
          d
          d'
unfolding handle_poll
handle_poll-PollOutcome out cfg row w d h e =
    let a = poll_answer_to out cfg row in
    let f = job_answer_row out cfg w.now a in
    (
      f d,
      rw (poll_answer_lem out cfg row a w) (
          rw (one_update_ok row.delivery_id f w h) (
            get_delivery-update_delivery row.delivery_id f w.db (job_answer_row-id out cfg w.now a)
            ∙ ap (Option.map f) e)),
      job_answer_row-PollOutcome out cfg w.now a d,
    )

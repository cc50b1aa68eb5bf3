-- ===== src/Worker/Steps.antt =====
-- Every step of the worker keeps the invariant.
use sukumad.Prelude.{
  if◌then◌else◌, Bool-cases, countb, countb-le, countb-update_where, countb-update_where-le, ℤ,
  eq_ℤ, eq_ℤ_iff, ◌≤◌, ◌≡◌, refl, sym, ◌∙◌, ◌≢◌, ◌⊎◌, inl, inr, Bool, true, false, ◌&&◌, List, ◌∷◌,
  arith,
}
use sukumad.Types.{Time, Status, Delivery}
use sukumad.Store.{Db, World, next_fault, exec}
use sukumad.Config.{Config}
use sukumad.Queue.Moves.{has_id, update_delivery}
use sukumad.Queue.Counts.{is_processing, is_open, busy, open_for}
use sukumad.Worker.Wire.{DeliveryRow, PollRow, Answer, no_answer, answered}
use sukumad.Worker.Handlers.{Outside, handle_send, handle_poll}
use sukumad.Worker.System.{
  Held, System, take_send, take_poll, finish_send, finish_poll, Pick, here, there, Step, ticks,
  takes_send, takes_poll, finishes_send, finishes_poll, waits,
}
use sukumad.Worker.Exclusive.{sends, polls, Inv}
use sukumad.Worker.Outcome.{answer_to, sent_row, one_update, send_answer_lem, sent_row-id}
use sukumad.Worker.Polling.{
  poll_answer_to, job_row, job_answer_row, poll_answer_lem, job_answer_row-id,
}
use sukumad.Text.{Bytes}
use sukumad.Worker.Helpers.{map_dhis2_job}
use sukumad.Worker.Limiter.{LimiterSet, Waited, refused, blocked, passed}
use sukumad.Worker.Ticks.{tick-Inv}

-- What one update of delivery `i` changes in the counts of delivery `j`.
pub record Updated (i j : ℤ) (db db' : Db) : Type 0 where
  pub same_rows : countb (has_id j) db'.deliveries ≡ countb (has_id j) db.deliveries
  pub busy_elsewhere : i ≢ j → countb (busy j) db'.deliveries ≡ countb (busy j) db.deliveries
  pub open_elsewhere :
      i ≢ j → countb (open_for j) db'.deliveries ≡ countb (open_for j) db.deliveries

abbrev pub KeepsId : (Delivery → Delivery) → Type 0
KeepsId f = (d : Delivery) → (f d).id ≡ d.id

same_id : (i j : ℤ) (d : Delivery) → has_id i d ≡ true → has_id j d ≡ true → i ≡ j
same_id i j d a b = sym ((eq_ℤ_iff d.id i).0 a) ∙ (eq_ℤ_iff d.id j).0 b

keeps_rows :
    (i j : ℤ) (f : Delivery → Delivery)
    → KeepsId f
    → (d : Delivery) → has_id j (if has_id i d then f d else d) ≡ has_id j d
keeps_rows i j f k d = ground (arith, k d)

keeps_status :
    (q : Status → Bool) (i j : ℤ) (f : Delivery → Delivery)
    → KeepsId f
    → i ≢ j
    → (d : Delivery)
    → (has_id j (if has_id i d then f d else d) && q (if has_id i d then f d else d).status)
      ≡ (has_id j d && q d.status)
keeps_status q i j f k ne d = elim (Bool-cases (has_id i d)) [
  | inl e ↦ elim (Bool-cases (has_id j d)) [
    | inl e' ↦ absurd (ne (same_id i j d e e'))
    | inr e' ↦ ground (arith, k d)
  ]
  | inr e ↦ ground arith
]

pub one_update-Updated :
    (i j : ℤ) (f : Delivery → Delivery) (w : World)
    → KeepsId f
    → Updated i j w.db (one_update i f w).1.db
unfolding exec update_delivery
one_update-Updated i j f w k = elim (Bool-cases (next_fault w.faults)) [
  | inl e ↦
      rw e (record { same_rows = refl; busy_elsewhere = λ _. refl; open_elsewhere = λ _. refl })
  | inr e ↦ rw e (record {
    same_rows =
        countb-update_where (has_id j) (has_id j) (has_id i) f w.db.deliveries (keeps_rows i j f k);
    busy_elsewhere = λ ne.
        countb-update_where (busy j) (busy j) (has_id i) f w.db.deliveries
          (keeps_status is_processing i j f k ne);
    open_elsewhere = λ ne.
        countb-update_where (open_for j) (open_for j) (has_id i) f w.db.deliveries
          (keeps_status is_open i j f k ne);
  })
]

pub Pick-count :
    {A : Type 0} (p : A → Bool) {a : A} {rest as' : List A}
    → Pick a rest as'
    → countb p as' ≡ countb p (a ∷ rest)
Pick-count p here = refl
Pick-count p (there k) = ground (arith, Pick-count p k)

pub busy-le-open : (j : ℤ) (ds : List Delivery) → countb (busy j) ds ≤ countb (open_for j) ds
busy-le-open j ds = countb-le (busy j) (open_for j) ds (λ d h. ground arith)

pub busy-le-rows : (j : ℤ) (ds : List Delivery) → countb (busy j) ds ≤ countb (has_id j) ds
busy-le-rows j ds = countb-le (busy j) (has_id j) ds (λ d h. ground arith)

pub eq_ℤ-cases : (i j : ℤ) → ((i ≡ j) × (eq_ℤ i j ≡ true)) ⊎ ((i ≢ j) × (eq_ℤ i j ≡ false))
eq_ℤ-cases i j = elim (Bool-cases (eq_ℤ i j)) [
  | inl e ↦ inl ((eq_ℤ_iff i j).0 e, e)
  | inr e ↦ inr (λ h. absurd (cc ((eq_ℤ_iff i j).1 h)), e)
]

finish_send-Inv :
    (out : Outside) (cfg : Config) (h : Held DeliveryRow) (others : List (Held DeliveryRow))
    (s : System)
    → Pick h others s.sending
    → Inv s
    → Inv (finish_send out cfg h others s)
unfolding finish_send handle_send
finish_send-Inv out cfg (row, held) others s k v =
    let i = row.delivery_id in
    let a = answer_to out cfg row in
    let f = sent_row out cfg row s.world.now a in
    let ds = s.world.db.deliveries in
    rw (send_answer_lem out cfg row a s.world) (
      let u = λ (j : ℤ). one_update-Updated i j f s.world (sent_row-id out cfg row s.world.now a) in
      let n = λ (j : ℤ). Pick-count (λ h. sends j h.0) k in
      record {
        keyed = λ j. omega (arith, (u j).same_rows, v.keyed j);
        marked = λ j. elim (eq_ℤ-cases i j) [
          | inl (_, e) ↦ ground (arith, e, n j, v.marked j, v.keyed j, busy-le-rows j ds)
          | inr (ne, e) ↦ ground (arith, e, n j, v.marked j, (u j).busy_elsewhere ne)
        ];
        polled = λ j h. elim (eq_ℤ-cases i j) [
          | inl (_, e) ↦
              absurd (ground (arith, e, n j, v.marked j, v.polled j h, busy-le-open j ds))
          | inr (ne, e) ↦ (u j).open_elsewhere ne ∙ v.polled j h
        ];
      })

-- A poll opens no delivery again.
job_row-open :
    (out : Outside) (cfg : Config) (now : Time) (body : Bytes) (j : Bytes × Bytes × Bytes)
    (d : Delivery)
    → is_open (job_row out cfg now body j d).status ≡ true
    → is_open d.status ≡ true
job_row-open out cfg now body (s, succ, fail) d h = ground arith

job_answer_row-open :
    (out : Outside) (cfg : Config) (now : Time) (a : Answer) (d : Delivery)
    → is_open (job_answer_row out cfg now a d).status ≡ true
    → is_open d.status ≡ true
job_answer_row-open out cfg now (no_answer e) d h = ground arith
job_answer_row-open out cfg now (answered r) d h =
    job_row-open out cfg now r.body (map_dhis2_job out.parse r.body) d h

one_update-open :
    (i j : ℤ) (f : Delivery → Delivery) (w : World)
    → KeepsId f
    → ((d : Delivery) → is_open (f d).status ≡ true → is_open d.status ≡ true)
    → countb (open_for j) (one_update i f w).1.db.deliveries ≤ countb (open_for j) w.db.deliveries
unfolding exec update_delivery
one_update-open i j f w k o = elim (Bool-cases (next_fault w.faults)) [
  | inl e ↦ rw e (omega arith)
  | inr e ↦ rw e (
      countb-update_where-le (open_for j) (open_for j) (has_id i) f w.db.deliveries
        (λ d h. ground (arith, k d, o d)))
]

finish_poll-Inv :
    (out : Outside) (cfg : Config) (h : Held PollRow) (others : List (Held PollRow)) (s : System)
    → Pick h others s.polling
    → Inv s
    → Inv (finish_poll out cfg h others s)
unfolding finish_poll handle_poll
finish_poll-Inv out cfg (row, held) others s k v =
    let i = row.delivery_id in
    let a = poll_answer_to out cfg row in
    let f = job_answer_row out cfg s.world.now a in
    let ds = s.world.db.deliveries in
    rw (poll_answer_lem out cfg row a s.world) (
      let ids = job_answer_row-id out cfg s.world.now a in
      let u = λ (j : ℤ). one_update-Updated i j f s.world ids in
      let o =
        λ (j : ℤ). one_update-open i j f s.world ids (job_answer_row-open out cfg s.world.now a) in
      let n = λ (j : ℤ). Pick-count (λ h. polls j h.0) k in
      record {
        keyed = λ j. omega (arith, (u j).same_rows, v.keyed j);
        marked = λ j. elim (eq_ℤ-cases i j) [
          | inl (_, e) ↦
              let z = v.polled j (ground (arith, e, n j)) in
              omega (arith, z, v.marked j, busy-le-open j ds)
          | inr (ne, e) ↦ omega (arith, v.marked j, (u j).busy_elsewhere ne)
        ];
        polled = λ j h. let z = v.polled j (ground (arith, h, n j)) in omega (arith, o j, z);
      })

take_send-Inv :
    (r : Waited × LimiterSet) (row : DeliveryRow) (rest : List DeliveryRow) (s : System)
    → Pick row rest s.send_ch
    → Inv s
    → Inv (take_send r row rest s)
unfolding take_send
take_send-Inv (passed held, ls) row rest s e v = record {
  keyed = v.keyed;
  marked = λ j. ground (arith, v.marked j, Pick-count (sends j) e);
  polled = v.polled;
}
take_send-Inv (blocked, ls) row rest s e v = record {
  keyed = v.keyed;
  marked = v.marked;
  polled = v.polled;
}
take_send-Inv (refused, ls) row rest s e v = record {
  keyed = v.keyed;
  marked = λ j. ground (arith, v.marked j, Pick-count (sends j) e);
  polled = v.polled;
}

take_poll-Inv :
    (r : Waited × LimiterSet) (row : PollRow) (rest : List PollRow) (s : System)
    → Pick row rest s.poll_ch
    → Inv s
    → Inv (take_poll r row rest s)
unfolding take_poll
take_poll-Inv (passed held, ls) row rest s e v = record {
  keyed = v.keyed;
  marked = v.marked;
  polled = λ j h. v.polled j (ground (arith, h, Pick-count (polls j) e));
}
take_poll-Inv (blocked, ls) row rest s e v = record {
  keyed = v.keyed;
  marked = v.marked;
  polled = v.polled;
}
take_poll-Inv (refused, ls) row rest s e v = record {
  keyed = v.keyed;
  marked = v.marked;
  polled = λ j h. v.polled j (ground (arith, h, Pick-count (polls j) e));
}

-- Every step keeps the invariant.
pub Step-Inv : (cfg : Config) {s t : System} → Step cfg s t → Inv s → Inv t
Step-Inv cfg (ticks out p s) v = tick-Inv out cfg p s v
Step-Inv cfg (takes_send luck s row rest e) v = take_send-Inv _ row rest s e v
Step-Inv cfg (takes_poll luck s row rest e) v = take_poll-Inv _ row rest s e v
Step-Inv cfg (finishes_send out s h others k) v = finish_send-Inv out cfg h others s k v
Step-Inv cfg (finishes_poll out s h others k) v = finish_poll-Inv out cfg h others s k v
Step-Inv cfg (waits s t faults) v = record { keyed = v.keyed; marked = v.marked; polled = v.polled }

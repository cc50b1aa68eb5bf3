-- ===== src/Worker/Unblocked.antt =====
-- No deadlock on the semaphores: who waits for a place waits for a worker that can finish.
use mathlib.Core.Path.{subst}
use mathlib.Core.Option.{some-injective}
use sukumad.Prelude.{
  ltb, ◌==◌, Bool-cases, Option-cases, All, ℤ, pos, negsuc, ℕ, ◌+◌, ◌-◌, ◌≤◌, ◌<◌, ◌≡◌, refl, inl,
  inr, Bool, true, false, Option, none, some, List, [], ◌∷◌, arith,
}
use sukumad.Text.{Bytes, text_eq}
use sukumad.Text.Maps.{lookup, insert}
use sukumad.Types.{Float}
use sukumad.Worker.Limiter.{
  Bucket, Semaphore, LimiterSet, ensure, cap_of, Luck, Waited, refused, blocked, passed, take_place,
  pass_key, ensure_semaphore, wait, release,
}
use sukumad.Worker.Places.{used_of, used}
use sukumad.Config.{Config}
use sukumad.Worker.System.{
  System, rate_of, burst_of, send_wait, poll_wait, take_send, take_poll, tick, finish_send,
  finish_poll, Step, ticks, takes_send, takes_poll, finishes_send, finishes_poll, waits, Reach,
  start, next,
}
use sukumad.Worker.Wire.{DeliveryRow, PollRow}

abbrev Roomy : Bytes × Semaphore → Type 0
Roomy (_, m) = 0 < m.capacity

-- Every semaphore that was made has a place.
abbrev pub IsRoomy : LimiterSet → Type 0
IsRoomy ls = All Roomy ls.conc

All-insert :
    (k : Bytes) (m : Semaphore) (ms : List (Bytes × Semaphore))
    → 0 < m.capacity
    → All Roomy ms
    → All Roomy (insert k m ms)
All-insert k m [] h v = (h, tt)
All-insert k m ((j, n) ∷ ms) h (x, v) = elim (Bool-cases (text_eq j k)) [
  | inl e ↦ rw e (h, v)
  | inr e ↦ rw e (x, All-insert k m ms h v)
]

lookup-All :
    (k : Bytes) (m : Semaphore) (ms : List (Bytes × Semaphore))
    → lookup k ms ≡ some m
    → All Roomy ms
    → 0 < m.capacity
lookup-All k m [] e v = absurd (cc)
lookup-All k m ((j, n) ∷ ms) e (x, v) = elim (Bool-cases (text_eq j k)) [
  | inl h ↦ ground (arith, h, e, x)
  | inr h ↦ lookup-All k m ms (ground (arith, h, e)) v
]

-- What one call of `wait` leaves of the semaphores, and why it would block.
pub record Waits (key : Bytes) (ls : LimiterSet) (r : Waited × LimiterSet) : Type 0 where
  pub roomy : IsRoomy r.1
  pub full : r.0 ≡ blocked → 0 < used key ls

take_place-Waits :
    (key : Bytes) (m : Semaphore) (cancelled : Bool) (ls old : LimiterSet)
    → 0 < m.capacity
    → (0 < m.used → m.used ≤ used key old)
    → IsRoomy ls
    → Waits key old (take_place key m cancelled ls)
take_place-Waits key m true ls old c u v = record { roomy = v; full = λ e. absurd (cc) }
take_place-Waits key m false ls old c u v = elim (Bool-cases (ltb m.used m.capacity)) [
  | inl e ↦ rw e (record {
    roomy = All-insert key (record m { used = m.used + 1 }) ls.conc c v;
    full = λ e'. absurd (cc);
  })
  | inr e ↦ rw e (record { roomy = v; full = λ _. ground (arith, e, c, u) })
]

pass_key-Waits :
    (luck : Luck) (key : Bytes) (lim : Bucket) (o : Option Semaphore) (ls old : LimiterSet)
    → ((m : Semaphore) → o ≡ some m → (0 < m.capacity) × (0 < m.used → m.used ≤ used key old))
    → IsRoomy ls
    → Waits key old (pass_key luck key lim o ls)
unfolding pass_key
pass_key-Waits luck key lim o ls old h v = elim (Bool-cases (luck.key_ok lim)) [
  | inr e ↦ rw e (record { roomy = v; full = λ e'. absurd (cc) })
  | inl e ↦ rw e (at o h)
]
  where
    at :
        (o : Option Semaphore)
        → ((m : Semaphore) → o ≡ some m → (0 < m.capacity) × (0 < m.used → m.used ≤ used key old))
        → let r : Waited × LimiterSet = elim o [
          | none ↦ (passed false, ls)
          | some m ↦ take_place key m luck.cancelled ls
        ] in
          Waits key old r
    at none h = record { roomy = v; full = λ e. absurd (cc) }
    at (some m) h = take_place-Waits key m luck.cancelled ls old ((h m refl).0) ((h m refl).1) v

cap_of_positive : (max_conc : Option ℤ) (n : ℕ) → cap_of max_conc ≡ some n → 0 < n
cap_of_positive none n e = absurd (cc)
cap_of_positive (some (negsuc k)) n e = absurd (cc)
cap_of_positive (some (pos k)) n e = elim (Bool-cases (k == 0)) [
  | inl z ↦ absurd (ground (arith, z, e))
  | inr z ↦ ground (arith, z, e)
]

-- The semaphore that a call finds or makes: one that is new holds nothing.
ensure_semaphore-Roomy :
    (key : Bytes) (o : Option ℕ) (ls : LimiterSet)
    → ((n : ℕ) → o ≡ some n → 0 < n)
    → IsRoomy ls
    → IsRoomy (ensure_semaphore key o ls).1
      × ((m : Semaphore)
          → (ensure_semaphore key o ls).0 ≡ some m
          → (0 < m.capacity) × (0 < m.used → m.used ≤ used key ls))
unfolding ensure_semaphore
ensure_semaphore-Roomy key none ls h v = (v, λ m e. absurd (cc))
ensure_semaphore-Roomy key (some n) ls h v = go (lookup key ls.conc) refl
  where
    go :
        (o : Option Semaphore)
        → lookup key ls.conc ≡ o
        → let empty : Semaphore = record { capacity = n; used = 0 } in
          let r : Semaphore × List (Bytes × Semaphore) = elim o [
            | some w ↦ (w, ls.conc)
            | none ↦ (empty, insert key empty ls.conc)
          ] in
          All Roomy r.1
          × ((m : Semaphore)
              → some r.0 ≡ some m
              → (0 < m.capacity) × (0 < m.used → m.used ≤ used_of o))
    go (some m') e' = (
      v,
      λ m e.
          subst (λ (x : Semaphore). (0 < x.capacity) × (0 < x.used → x.used ≤ m'.used))
            (some-injective m' m e) (lookup-All key m' ls.conc e' v, λ _. omega arith),
    )
    go none e' = (
      All-insert key (record { capacity = n; used = 0 }) ls.conc (h n refl) v,
      λ m e.
          subst (λ (x : Semaphore). (0 < x.capacity) × (0 < x.used → x.used ≤ 0))
            (some-injective (record { capacity = n; used = 0 }) m e) (h n refl, λ z. omega arith),
    )

wait-Waits :
    (luck : Luck) (key : Bytes) (rps : Float) (burst : ℤ) (max_conc : Option ℤ) (ls : LimiterSet)
    → IsRoomy ls
    → Waits key ls (wait luck key rps burst max_conc ls)
unfolding wait
wait-Waits luck key rps burst max_conc ls v =
    let p = ensure key (record { rate = rps; burst = burst }) ls.per in
    let ls₁ = record ls { per = p.1 } in
    let q = ensure_semaphore key (cap_of max_conc) ls₁ in
    let (roomy, found) =
      ensure_semaphore-Roomy key (cap_of max_conc) ls₁ (cap_of_positive max_conc) v in
    elim (Bool-cases luck.global_ok) [
      | inr e ↦ rw e (record { roomy = v; full = λ e'. absurd (cc) })
      | inl e ↦ rw e (pass_key-Waits luck key p.0 q.0 q.1 ls found roomy)
    ]

release-IsRoomy :
    (key : Bytes) (held : Bool) (ls : LimiterSet) → IsRoomy ls → IsRoomy (release key held ls)
unfolding release
release-IsRoomy key false ls v = v
release-IsRoomy key true ls v = elim (Option-cases (lookup key ls.conc)) [
  | inl e ↦ rw (e, release) v
  | inr (m, e) ↦
      rw (e, release)
        (All-insert key (record m { used = m.used - 1 }) ls.conc (lookup-All key m ls.conc e v) v)
]

take_send-IsRoomy :
    (r : Waited × LimiterSet) (row : DeliveryRow) (rest : List DeliveryRow) (s : System)
    → IsRoomy r.1
    → IsRoomy (take_send r row rest s).limiters
unfolding take_send
take_send-IsRoomy (passed held, ls) row rest s v = v
take_send-IsRoomy (blocked, ls) row rest s v = v
take_send-IsRoomy (refused, ls) row rest s v = v

take_poll-IsRoomy :
    (r : Waited × LimiterSet) (row : PollRow) (rest : List PollRow) (s : System)
    → IsRoomy r.1
    → IsRoomy (take_poll r row rest s).limiters
unfolding take_poll
take_poll-IsRoomy (passed held, ls) row rest s v = v
take_poll-IsRoomy (blocked, ls) row rest s v = v
take_poll-IsRoomy (refused, ls) row rest s v = v

pub send_wait-Waits :
    (luck : Luck) (row : DeliveryRow) (ls : LimiterSet)
    → IsRoomy ls
    → Waits row.rate_key ls (send_wait luck row ls)
unfolding send_wait
send_wait-Waits luck row ls =
    wait-Waits luck row.rate_key (rate_of row.rps) (burst_of row.rps row.burst) row.max_conc ls

pub poll_wait-Waits :
    (luck : Luck) (row : PollRow) (ls : LimiterSet)
    → IsRoomy ls
    → Waits row.rate_key ls (poll_wait luck row ls)
unfolding poll_wait
poll_wait-Waits luck row ls =
    wait-Waits luck row.rate_key (rate_of row.rps) (burst_of row.rps row.burst) row.max_conc ls

Step-IsRoomy :
    (cfg : Config) {s t : System} → Step cfg s t → IsRoomy s.limiters → IsRoomy t.limiters
unfolding tick finish_send finish_poll
Step-IsRoomy cfg (ticks out p s) v = v
Step-IsRoomy cfg (takes_send luck s row rest e) v =
    take_send-IsRoomy (send_wait luck row s.limiters) row rest s
      (send_wait-Waits luck row s.limiters v).roomy
Step-IsRoomy cfg (takes_poll luck s row rest e) v =
    take_poll-IsRoomy (poll_wait luck row s.limiters) row rest s
      (poll_wait-Waits luck row s.limiters v).roomy
Step-IsRoomy cfg (finishes_send out s (row, held) others k) v =
    release-IsRoomy row.rate_key held s.limiters v
Step-IsRoomy cfg (finishes_poll out s (row, held) others k) v =
    release-IsRoomy row.rate_key held s.limiters v
Step-IsRoomy cfg (waits s t faults) v = v

pub Reach-IsRoomy :
    (cfg : Config) {s t : System} → Reach cfg s t → IsRoomy s.limiters → IsRoomy t.limiters
Reach-IsRoomy cfg start v = v
Reach-IsRoomy cfg (next r st) v = Step-IsRoomy cfg st (Reach-IsRoomy cfg r v)

-- ===== src/Worker/Limiter.antt =====
-- The type LimiterSet. The token buckets are those of golang.org/x/time/rate: here a bucket is
-- its two settings, and whether its `Wait` returns nil is an argument.
use sukumad.Prelude.{
  ltb, ◌==◌, if◌then◌else◌, ℤ, pos, ℕ, ◌+◌, ◌-◌, Bool, true, false, Option, none, some, List, [],
}
use sukumad.Text.{Bytes}
use sukumad.Text.Maps.{lookup, insert}
use sukumad.Types.{Float}

pub record Bucket : Type 0 where
  pub rate : Float
  pub burst : ℤ

-- A channel that serves as a semaphore: its capacity, and how many values are in it.
pub record Semaphore : Type 0 where
  pub capacity : ℕ
  pub used : ℕ

pub record LimiterSet : Type 0 where
  pub global : Bucket
  pub per : List (Bytes × Bucket)
  pub conc : List (Bytes × Semaphore)

unfoldable pub new_limiter_set : Float → ℤ → LimiterSet
new_limiter_set rps burst = record {
  global = record { rate = rps; burst = burst };
  per = [];
  conc = [];
}

-- The value of the key, which is put there if it is missing.
abbrev pub ensure {ℓ} : {V : Type ℓ} → Bytes → V → List (Bytes × V) → V × List (Bytes × V)
ensure k v m = elim (lookup k m) [ some w ↦ (w, m) | none ↦ (v, insert k v m) ]

-- `maxConc != nil && *maxConc > 0`
abbrev pub cap_of : Option ℤ → Option ℕ
cap_of (some (pos n)) = if n == 0 then none else some n
cap_of _ = none

-- What the environment does during one call: whether each bucket lets it pass, and which branch
-- a `select` takes: it can take `ctx.Done()` only if the context is done.
pub record Luck : Type 0 where
  pub global_ok : Bool
  pub key_ok : Bucket → Bool
  pub cancelled : Bool

-- `blocked` waits for a place in the semaphore. A pass says whether `release` frees one.
pub data Waited : Type 0 where
  refused blocked : Waited
  passed : Bool → Waited

abbrev pub take_place : Bytes → Semaphore → Bool → LimiterSet → Waited × LimiterSet
take_place key sem cancelled ls =
    if cancelled
    then (refused, ls)
    else if ltb sem.used sem.capacity
    then (passed true, record ls { conc = insert key (record sem { used = sem.used + 1 }) ls.conc })
    else (blocked, ls)

-- The part after `mu.Unlock()`.
unfoldable pub pass_key :
    Luck → Bytes → Bucket → Option Semaphore → LimiterSet → Waited × LimiterSet
pass_key luck key lim sem ls =
    if luck.key_ok lim
    then elim sem [ none ↦ (passed false, ls) | some m ↦ take_place key m luck.cancelled ls ]
    else (refused, ls)

-- The semaphore of the key, where the call asks for one.
unfoldable pub ensure_semaphore : Bytes → Option ℕ → LimiterSet → Option Semaphore × LimiterSet
ensure_semaphore key none ls = (none, ls)
ensure_semaphore key (some n) ls =
    let (sem, conc') = ensure key (record { capacity = n; used = 0 }) ls.conc in
    (some sem, record ls { conc = conc' })

unfoldable pub wait : Luck → Bytes → Float → ℤ → Option ℤ → LimiterSet → Waited × LimiterSet
unfolding pass_key ensure_semaphore
wait luck key rps burst max_conc ls =
    let (lim, per') = ensure key (record { rate = rps; burst = burst }) ls.per in
    let (sem, ls') = ensure_semaphore key (cap_of max_conc) (record ls { per = per' }) in
    if luck.global_ok then pass_key luck key lim sem ls' else (refused, ls)

-- The function that `wait` returns: it takes a value out of the key's channel.
unfoldable pub release : Bytes → Bool → LimiterSet → LimiterSet
release key false ls = ls
release key true ls = elim (lookup key ls.conc) [
  | none ↦ ls
  | some sem ↦ record ls { conc = insert key (record sem { used = sem.used - 1 }) ls.conc }
]

-- ===== src/Auth/Attempts.antt =====
-- allowAttempt of internal/handlers/auth_handler.go: the limiter on logins, a map from a key to
-- the times of its recent attempts. The mutex makes each call one step.
use sukumad.Prelude.{
  leb, if◌then◌else◌, Bool-cases, coalesce, length, filterb, countb, countb-le-length,
  countb-append, ℕ, ◌+◌, ◌-◌, ◌≤◌, ◌<◌, max, ◌≡◌, refl, ap, inl, inr, Bool, true, false, ◌&&◌, List,
  [], ◌∷◌, ◌++◌, arith,
}
use sukumad.Text.{Bytes, text_eq}
use sukumad.Text.Laws.{text_eq_iff}
use sukumad.Text.Maps.{lookup, insert, lookup-insert}
use sukumad.Types.{Time}

abbrev pub Attempts : Type 0
Attempts = List (Bytes × List Time)

-- `now.Sub(t) <= window`, also where the clock went back.
abbrev pub is_recent : ℕ → Time → Time → Bool
is_recent window now t = leb now (t + window)

-- `h.attempts[key]`, nil for a key that is not there.
abbrev pub attempts_of : Bytes → Attempts → List Time
attempts_of key m = coalesce (lookup key m) []

unfoldable pub allow_attempt : Bytes → ℕ → ℕ → Time → Attempts → Bool × Attempts
allow_attempt key max window now m =
    let qs = filterb (is_recent window now) (attempts_of key m) in
    if leb max (length qs) then (false, insert key qs m) else (true, insert key (qs ++ now ∷ []) m)

-- A run of calls with the same limits, each a key and a time, and the calls that are allowed.
unfoldable pub allowed : ℕ → ℕ → List (Bytes × Time) → Attempts → List (Bytes × Time)
unfolding allow_attempt
allowed max window [] m = []
allowed max window ((key, now) ∷ calls) m =
    let (ok, m') = allow_attempt key max window now m in
    let rest = allowed max window calls m' in if ok then (key, now) ∷ rest else rest

-- The calls come in the order of their times, none before `from`.
pub data InOrder : Time → List (Bytes × Time) → Type 0 where
  no_calls : {from : Time} → InOrder from []
  later :
      {from now : Time} {key : Bytes} {calls : List (Bytes × Time)}
      → from ≤ now
      → InOrder now calls
      → InOrder from ((key, now) ∷ calls)

-- A call by the key at a time from t to t + window.
abbrev pub within : Bytes → ℕ → Time → Bytes × Time → Bool
within key window t (k, now) = text_eq k key && (leb t now && leb now (t + window))

abbrev since : Time → Time → Bool
since t x = leb t x

late :
    (max window : ℕ) (from : Time) (calls : List (Bytes × Time)) (m : Attempts) (key : Bytes)
    (t : Time)
    → InOrder from calls
    → t + window < from
    → countb (within key window t) (allowed max window calls m) ≡ 0
unfolding allowed
late max window from [] m key t o h = refl
late max window from ((k, now) ∷ calls) m key t (later g o) h =
    let (ok, m') = allow_attempt k max window now m in
    elim (Bool-cases ok) [
      | inl e ↦ ground (arith, e, late max window now calls m' key t o)
      | inr e ↦ ground (arith, e, late max window now calls m' key t o)
    ]

-- What is dropped as old lies before a window that is still open.
since-recent :
    (window : ℕ) (now t : Time) (qs : List Time)
    → now ≤ t + window
    → countb (since t) (filterb (is_recent window now) qs) ≡ countb (since t) qs
since-recent window now t [] h = refl
since-recent window now t (q ∷ qs) h = ground (arith, since-recent window now t qs h)

attempts_of-insert :
    (k key : Bytes) (qs : List Time) (m : Attempts)
    → attempts_of key (insert k qs m) ≡ (if text_eq k key then qs else attempts_of key m)
attempts_of-insert k key qs m = ground (arith, lookup-insert k key qs m)

-- The attempts of a key that count for an open window, after one call.
allow_attempt_lem :
    (max window : ℕ) (k key : Bytes) (now t : Time) (m : Attempts)
    → now ≤ t + window
    → let (ok, m') = allow_attempt k max window now m in
      let new = ok && within key window t (k, now) in
      (countb (since t) (attempts_of key m')
        ≡ countb (since t) (attempts_of key m) + (if new then 1 else 0))
      × (new ≡ true → countb (since t) (attempts_of key m) < max)
unfolding allow_attempt
allow_attempt_lem max window k key now t m h =
    let old = attempts_of k m in
    let qs = filterb (is_recent window now) old in
    let same : text_eq k key ≡ true → attempts_of k m ≡ attempts_of key m =
      λ e. ap (λ j. attempts_of j m) ((text_eq_iff k key).0 e) in
    elim (Bool-cases (leb max (length qs))) [
      | inl full ↦
          ground (arith, full, same, since-recent window now t old h, attempts_of-insert k key qs m)
      | inr room ↦ ground (
        arith,
        room,
        same,
        since-recent window now t old h,
        countb-le-length (since t) qs,
        countb-append (since t) qs (now ∷ []),
        attempts_of-insert k key (qs ++ now ∷ []) m,
      )
    ]

allowed_count :
    (max window : ℕ) (from : Time) (calls : List (Bytes × Time)) (m : Attempts) (key : Bytes)
    (t : Time)
    → InOrder from calls
    → countb (within key window t) (allowed max window calls m)
      ≤ max - countb (since t) (attempts_of key m)
unfolding allowed
allowed_count max window from [] m key t o = omega arith
allowed_count max window from ((k, now) ∷ calls) m key t (later h o) =
    let (ok, m') = allow_attempt k max window now m in
    elim (Bool-cases (leb now (t + window))) [
      | inl running ↦ elim (Bool-cases ok) [
        | inl e ↦ ground (
          arith,
          e,
          allow_attempt_lem max window k key now t m,
          allowed_count max window now calls m' key t o,
        )
        | inr e ↦ ground (
          arith,
          e,
          allow_attempt_lem max window k key now t m,
          allowed_count max window now calls m' key t o,
        )
      ]
      | inr over ↦ ground (
        arith,
        late max window from ((k, now) ∷ calls) m key t (later h o),
        late max window now calls m' key t o,
      )
    ]

-- However the calls of a key fall, no stretch of time as long as the window sees more than `max`
-- of them allowed, whatever is stored before and whatever the other keys do; the calls take the
-- mutex in the order of their times.
pub allow_attempt-bounded :
    (max window : ℕ) (from : Time) (calls : List (Bytes × Time)) (m : Attempts) (key : Bytes)
    (t : Time)
    → InOrder from calls
    → countb (within key window t) (allowed max window calls m) ≤ max
allow_attempt-bounded max window from calls m key t o =
    omega (arith, allowed_count max window from calls m key t o)

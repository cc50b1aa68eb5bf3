-- ===== src/Worker/Life.antt =====
-- The life of a delivery as the worker's users see it: an abstract state machine that knows nothing
-- of channels, limiters, clocks or tables.
use sukumad.Prelude.{ℕ, ◌+◌, ◌≤◌, ◌<◌, ◌≡◌, refl, ◌∙◌, true, false, arith}
use sukumad.Types.{Status, ready, processing, awaiting_async, done, failed, Delivery}
use sukumad.Queue.Counts.{is_open}
use sukumad.Worker.Outcome.{max_attempts_of}

pub record Life : Type 0 where
  pub status : Status
  pub attempts : ℕ
  pub limit : ℕ

abbrev pub view : Delivery → Life
view d = record { status = d.status; attempts = d.attempts; limit = max_attempts_of d }

-- One move. A delivery that was sent is not open any more, and nothing opens it again.
pub data Arc (a b : Life) : Type 0 where
  stays : b ≡ a → Arc a b
  claim : a.status ≡ ready → b ≡ record a { status = processing } → Arc a b
  deliver : a.status ≡ processing → b ≡ record a { status = done } → Arc a b
  start_job : a.status ≡ processing → b ≡ record a { status = awaiting_async } → Arc a b
  retry :
      a.status ≡ processing
      → a.attempts + 1 < a.limit
      → b ≡ record a { status = ready; attempts = a.attempts + 1 }
      → Arc a b
  give_up :
      a.status ≡ processing
      → a.limit ≤ a.attempts + 1
      → b ≡ record a { status = failed; attempts = a.attempts + 1 }
      → Arc a b
  finish_job : is_open a.status ≡ false → b ≡ record a { status = done } → Arc a b
  break_job : is_open a.status ≡ false → b ≡ record a { status = failed } → Arc a b

pub data Lives (a : Life) : Life → Type 0 where
  born : Lives a a
  onward : {b c : Life} → Lives a b → Arc b c → Lives a c

-- An open delivery has attempts left, and no delivery has made more than its limit.
pub record InLimits (limit : ℕ) (b : Life) : Type 0 where
  pub same_limit : b.limit ≡ limit
  pub within : b.attempts ≤ limit
  pub left : is_open b.status ≡ true → b.attempts < limit

Arc-InLimits : {limit : ℕ} (a b : Life) → Arc a b → InLimits limit a → InLimits limit b
Arc-InLimits a b (stays e) v = ground (arith, e)
Arc-InLimits a b (claim s e) v = ground (arith, s, e)
Arc-InLimits a b (deliver s e) v = ground (arith, s, e)
Arc-InLimits a b (start_job s e) v = ground (arith, s, e)
Arc-InLimits a b (retry s l e) v = ground (arith, s, e)
Arc-InLimits a b (give_up s l e) v = ground (arith, s, e)
Arc-InLimits a b (finish_job s e) v = ground (arith, s, e)
Arc-InLimits a b (break_job s e) v = ground (arith, s, e)

pub Lives-InLimits : {limit : ℕ} {a b : Life} → Lives a b → InLimits limit a → InLimits limit b
Lives-InLimits born v = v
Lives-InLimits (onward r st) v = Arc-InLimits _ _ st (Lives-InLimits r v)

-- A delivery that is settled stays so, with its attempts.
Arc-settled :
    (a b : Life)
    → Arc a b
    → is_open a.status ≡ false
    → (is_open b.status ≡ false) × (b.attempts ≡ a.attempts)
Arc-settled a b (stays e) v = ground (arith, e)
Arc-settled a b (claim s e) v = ground (arith, s, e)
Arc-settled a b (deliver s e) v = ground (arith, s, e)
Arc-settled a b (start_job s e) v = ground (arith, s, e)
Arc-settled a b (retry s l e) v = ground (arith, s, e)
Arc-settled a b (give_up s l e) v = ground (arith, s, e)
Arc-settled a b (finish_job s e) v = ground (arith, s, e)
Arc-settled a b (break_job s e) v = ground (arith, s, e)

pub Lives-settled :
    {a b : Life}
    → Lives a b
    → is_open a.status ≡ false
    → (is_open b.status ≡ false) × (b.attempts ≡ a.attempts)
Lives-settled born v = (v, refl)
Lives-settled (onward r st) v =
    let (settled, same) = Lives-settled r v in
    let (settled', same') = Arc-settled _ _ st settled in (settled', same' ∙ same)

-- ===== src/Worker/Fraction.antt =====
-- The burst that a worker takes where a server has none: the whole part of its rate.
use mathlib.Core.Path.{subst}
use sukumad.Prelude.{
  Bool-cases, pos, signed32, int32, ℕ, ◌<◌, ◌≡◌, sym, inl, inr, false, none, some, arith,
}
use sukumad.Text.Maps.{lookup}
use sukumad.Worker.Helpers.{deref_float, deref_int32}
use sukumad.Worker.Wire.{DeliveryRow}
use sukumad.Worker.Limiter.{Bucket, LimiterSet, Luck, refused, pass_key, wait}
use sukumad.Worker.System.{rate_of, burst_of, send_wait}

burst_of_fraction : (n : ℕ) → 0 < n → n < 1_000_000 → burst_of (some (pos n)) none ≡ pos 0
unfolding deref_float deref_int32 int32 signed32
burst_of_fraction n z k = ground arith

-- A row with a positive rate under one per second and no burst gets a bucket of burst 0, if its key has none
-- yet; and since such a bucket lets nothing pass, the limiters refuse the row.
pub send_wait-fraction :
    (luck : Luck) (row : DeliveryRow) (n : ℕ) (ls : LimiterSet)
    → 0 < n
    → n < 1_000_000
    → row.rps ≡ some (pos n)
    → row.burst ≡ none
    → lookup row.rate_key ls.per ≡ none
    → ((b : Bucket) → b.burst ≡ pos 0 → luck.key_ok b ≡ false)
    → (send_wait luck row ls).0 ≡ refused
unfolding send_wait wait pass_key
send_wait-fraction luck row n ls z l r b k h =
    let bucket : Bucket = record { rate = rate_of row.rps; burst = burst_of row.rps row.burst } in
    let zero_burst : bucket.burst ≡ pos 0 =
      subst (λ o. burst_of o row.burst ≡ pos 0) (sym r)
        (subst (λ o. burst_of (some (pos n)) o ≡ pos 0) (sym b) (burst_of_fraction n z l)) in
    elim (Bool-cases luck.global_ok) [
      | inl g ↦ ground (arith, g, k, h bucket zero_burst)
      | inr g ↦ ground (arith, g)
    ]

-- ===== src/Accounts/Once.antt =====
-- A reset token is used once, and only in its time.
use sukumad.Prelude.{
  Bool-cases, Option-cases, find, update_where, find-test, ℤ, ◌≤◌, ◌<◌, ◌≡◌, refl, inl, inr, none,
  some, List, [], ◌∷◌, arith,
}
use sukumad.Text.{Bytes}
use sukumad.Types.{Time}
use sukumad.Store.{ResetToken, ok, World, next_fault, exec}
use sukumad.Accounts.Tokens.{is_usable, use_reset}

-- The tokens of a hash are spent at a time: no token of it can be used then or later.
abbrev pub IsSpent : Bytes → List ResetToken → Time → Type 0
IsSpent hash ts now = (later : Time) → now ≤ later → find (is_usable later hash) ts ≡ none

unfoldable pub use_row : Time → ResetToken → ResetToken
use_row now t = record t { used_at = some now }

pub used-IsSpent :
    (hash : Bytes) (now : Time) (ts : List ResetToken)
    → IsSpent hash (update_where (is_usable now hash) (use_row now) ts) now
unfolding is_usable use_row
used-IsSpent hash now [] later h = refl
used-IsSpent hash now (t ∷ ts) later h = elim (Bool-cases (is_usable now hash t)) [
  | inl e ↦ ground (arith, e, used-IsSpent hash now ts later h)
  | inr e ↦ ground (arith, e, used-IsSpent hash now ts later h)
]

-- A token that is used was there, unused and not expired; the answer is its user; and afterwards
-- its hash opens nothing, whatever the clock says then.
pub use_reset_once :
    (hash : Bytes) (w : World) (uid : ℤ)
    → (use_reset hash w).0 ≡ ok uid
    → ((t : ResetToken) × (find (is_usable w.now hash) w.db.reset_tokens ≡ some t)
        × (t.user_id ≡ uid)
        × (t.used_at ≡ none)
        × (w.now < t.expires_at))
      × IsSpent hash (use_reset hash w).1.db.reset_tokens w.now
unfolding use_reset exec is_usable use_row
use_reset_once hash w uid e =
    let spent = used-IsSpent hash w.now w.db.reset_tokens in
    elim (Bool-cases (next_fault w.faults)) [
      | inl f ↦ absurd (ground (arith, f, e))
      | inr f ↦ elim (Option-cases (find (is_usable w.now hash) w.db.reset_tokens)) [
        | inl n ↦ absurd (ground (arith, f, n, e))
        | inr (t, n) ↦
            let passes = find-test (is_usable w.now hash) w.db.reset_tokens n in
            (
              (
                t,
                n,
                ground (arith, f, n, e),
                ground (arith, passes, Option-cases t.used_at),
                ground (arith, passes),
              ),
              λ (later : Time) h. rw f (spent later h),
            )
      ]
    ]

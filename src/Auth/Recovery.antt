-- ===== src/Auth/Recovery.antt =====
-- What a password reset that is confirmed has done.
use mathlib.Core.Option
use mathlib.Core.Path.{subst}
use sukumad.Prelude.{
  Bool-cases, Option-cases, find, All, update_where, ℤ, ◌≡◌, refl, sym, ap, ◌∙◌, inl, inr, true,
  Option, none, some, List, [], ◌∷◌, arith,
}
use sukumad.Text.{Bytes, str}
use sukumad.Types.{Time, PasswordResetConfirm}
use sukumad.Store.{UserRow, ResetToken, Result, ok, err, World, exec, one_row}
use sukumad.Web.{okay, Reply, reply, failure}
use sukumad.Accounts.Users.{has_user_id}
use sukumad.Accounts.Logins.{with_password, set_password}
use sukumad.Accounts.Tokens.{is_usable, use_reset}
use sukumad.Accounts.Once.{IsSpent, use_row, used-IsSpent}
use sukumad.Auth.Keys.{Crypto, hash_reset_token}
use sukumad.Auth.Reset.{change_password, confirm_password_reset}

-- A user of that number has the hash, and is not locked.
abbrev pub IsReset : ℤ → Bytes → UserRow → Type 0
IsReset uid hash r =
    has_user_id uid r ≡ true
    → (r.password_hash ≡ hash) × (r.user.locked_until ≡ none) × (r.user.failed_attempts ≡ some 0)

with_password-IsReset :
    (now : Time) (uid : ℤ) (hash : Bytes) (rs : List UserRow)
    → All (IsReset uid hash) (update_where (has_user_id uid) (with_password now hash) rs)
unfolding with_password
with_password-IsReset now uid hash [] = tt
with_password-IsReset now uid hash (r ∷ rs) = elim (Bool-cases (has_user_id uid r)) [
  | inl e ↦ (rw e (λ h. (refl, refl, refl)), with_password-IsReset now uid hash rs)
  | inr e ↦ (rw e (λ h. absurd (cc (e, h))), with_password-IsReset now uid hash rs)
]

use_reset-fine :
    (key : Bytes) (w : World)
    → w.faults ≡ []
    → use_reset key w ≡ (
      one_row (
          Option.map
            (λ (t : ResetToken). t.user_id)
            (find (is_usable w.now key) w.db.reset_tokens)),
      record w {
        db = record w.db {
          reset_tokens = update_where (is_usable w.now key) (use_row w.now) w.db.reset_tokens;
        };
        faults = [];
      },
    )
unfolding use_reset use_row exec
use_reset-fine key w f = rw f refl

set_password-fine :
    (hash_password : Bytes → Option Bytes) (uid : ℤ) (plain hash : Bytes) (w : World)
    → hash_password plain ≡ some hash
    → w.faults ≡ []
    → set_password hash_password uid plain w ≡ (
      ok tt,
      record w {
        db = record w.db {
          users = update_where (has_user_id uid) (with_password w.now hash) w.db.users;
        };
        faults = [];
      },
    )
unfolding set_password exec
set_password-fine hash_password uid plain hash w k f = rw (k, set_password) (rw f refl)

set_password-fails :
    (crypto : Crypto) (req : PasswordResetConfirm) (uid : ℤ) (w : World)
    → crypto.hash_password req.new_password ≡ none
    → (change_password crypto req (ok uid) w).0.code ≡ 500
unfolding change_password set_password
set_password-fails crypto req uid w k = rw (k, set_password, change_password) refl

set_password-passes :
    (crypto : Crypto) (req : PasswordResetConfirm) (uid : ℤ) (w w' : World)
    → set_password crypto.hash_password uid req.new_password w ≡ (ok tt, w')
    → change_password crypto req (ok uid) w ≡ (reply 200 okay, w')
unfolding change_password
set_password-passes crypto req uid w w' e =
    ap (λ (x : Result (Unit {0}) × World). set_then x.0 x.1) e
  where
    set_then : Result (Unit {0}) → World → Reply × World
    set_then (err _) w = (failure 500 (str "update failed"), w)
    set_then (ok _) w = (reply 200 okay, w)

-- A confirmation that answers 200, while the connection holds, was given a token that was there,
-- unused and in its time; its user, if there still is one, has the hash of the new password and is
-- not locked; and the token opens nothing more.
pub confirm_password_reset-IsReset :
    (crypto : Crypto) (req : PasswordResetConfirm) (w : World)
    → w.faults ≡ []
    → (confirm_password_reset crypto (some req) w).0.code ≡ 200
    → let w' = (confirm_password_reset crypto (some req) w).1 in
      let key = hash_reset_token crypto req.token in
      (t : ResetToken) × (find (is_usable w.now key) w.db.reset_tokens ≡ some t)
      × ((hash : Bytes) × (crypto.hash_password req.new_password ≡ some hash)
          × All (IsReset t.user_id hash) w'.db.users)
      × IsSpent key w'.db.reset_tokens w.now
unfolding confirm_password_reset change_password
confirm_password_reset-IsReset crypto req w f h =
    let key = hash_reset_token crypto req.token in
    let m = confirm_password_reset crypto (some req) in
    let after = λ (x : Result ℤ × World). change_password crypto req x.0 x.1 in
    let db₁ = record w.db {
      reset_tokens = update_where (is_usable w.now key) (use_row w.now) w.db.reset_tokens;
    } in
    let w₁ : World = record w { db = db₁; faults = [] } in
    let used : use_reset key w ≡ (
      one_row (
          Option.map (λ (t : ResetToken). t.user_id)
            (find (is_usable w.now key) w.db.reset_tokens)),
      w₁,
    ) =
      use_reset-fine key w f in
    elim (Option-cases (find (is_usable w.now key) w.db.reset_tokens)) [
      | inl n ↦
          let runs : (m w).0.code ≡ 400 =
            ap (λ x. (after x).0.code)
              (used ∙ ap (λ o. (one_row (Option.map (λ (t : ResetToken). t.user_id) o), w₁)) n) in
          absurd (ground (arith, runs, h))
      | inr (t, n) ↦
          let spent : use_reset key w ≡ (ok t.user_id, w₁) =
            used ∙ ap (λ o. (one_row (Option.map (λ (t : ResetToken). t.user_id) o), w₁)) n in
          elim (Option-cases (crypto.hash_password req.new_password)) [
            | inl k ↦
                let runs : (m w).0.code ≡ 500 =
                  ap (λ x. (after x).0.code) spent ∙ set_password-fails crypto req t.user_id w₁ k in
                absurd (ground (arith, runs, h))
            | inr (hash, k) ↦
                let users =
                  update_where (has_user_id t.user_id) (with_password w.now hash) w.db.users in
                let w₂ : World = record w { db = record db₁ { users = users }; faults = [] } in
                let set : set_password crypto.hash_password t.user_id req.new_password w₁
                    ≡ (ok tt, w₂) =
                  set_password-fine crypto.hash_password t.user_id req.new_password hash w₁ k
                    refl in
                let runs : m w ≡ (reply 200 okay, w₂) =
                  ap after spent ∙ set_password-passes crypto req t.user_id w₁ w₂ set in
                (
                  t,
                  n,
                  (
                    hash,
                    k,
                    subst (λ x. All (IsReset t.user_id hash) x.1.db.users) (sym runs)
                        (with_password-IsReset w.now t.user_id hash w.db.users),
                  ),
                  subst (λ x. IsSpent key x.1.db.reset_tokens w.now) (sym runs)
                      (used-IsSpent key w.now w.db.reset_tokens),
                )
          ]
    ]

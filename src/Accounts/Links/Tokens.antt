-- ===== src/Accounts/Links/Tokens.antt =====
-- New tokens, and those that are marked as revoked or used.

use sukumad.Prelude.{
  if◌then◌else◌, Bool-cases, any, All-append, update_where, All-update_where, countb-update_where,
  ℤ, ◌≡◌, inl, inr, Bool, false, not, ◌||◌, none, some, [], ◌∷◌, ◌++◌, arith,
}
use sukumad.Text.{Bytes}
use sukumad.Types.{Time}
use sukumad.Store.{RefreshToken, ResetToken, Db, constraint, Result, ok, err}
use sukumad.Accounts.Users.{has_user_id}
use sukumad.Accounts.Links.{UserThere, IsLinked, tokens-IsLinked}
use sukumad.Accounts.Tokens.{has_jti, has_hash, revoke_token}
use sukumad.Accounts.Links.Writes.{unique_more}

module _ (db : Db) (v : IsLinked db) where
  create_refresh-IsLinked :
      (user : ℤ) (jti : Bytes) (exp : Time)
      → any (has_jti jti) db.refresh_tokens ≡ false
      → UserThere db.users user
      → (let new : RefreshToken = record {
        user_id = user;
        jti = jti;
        expires_at = exp;
        revoked = false;
      } in
          IsLinked (record db { refresh_tokens = db.refresh_tokens ++ new ∷ [] }))
  create_refresh-IsLinked user jti exp new there =
      let row : RefreshToken = record {
        user_id = user;
        jti = jti;
        expires_at = exp;
        revoked = false;
      } in
      tokens-IsLinked db v (db.refresh_tokens ++ row ∷ []) db.reset_tokens
        (All-append (λ (t : RefreshToken). UserThere db.users t.user_id) db.refresh_tokens
          (row ∷ []) v.refreshes (there, tt))
        v.resets
        (λ name.
          unique_more (λ (t : RefreshToken). t.jti) db.refresh_tokens row name new (v.jtis name))
        v.hashes

  create_reset-IsLinked :
      (user : ℤ) (hash : Bytes) (exp : Time)
      → any (has_hash hash) db.reset_tokens ≡ false
      → UserThere db.users user
      → (let new : ResetToken = record {
        user_id = user;
        token_hash = hash;
        expires_at = exp;
        used_at = none;
      } in
          IsLinked (record db { reset_tokens = db.reset_tokens ++ new ∷ [] }))
  create_reset-IsLinked user hash exp new there =
      let row : ResetToken = record {
        user_id = user;
        token_hash = hash;
        expires_at = exp;
        used_at = none;
      } in
      tokens-IsLinked db v db.refresh_tokens (db.reset_tokens ++ row ∷ []) v.refreshes
        (All-append (λ (t : ResetToken). UserThere db.users t.user_id) db.reset_tokens (row ∷ [])
          v.resets (there, tt))
        v.jtis
        (λ name.
          unique_more (λ (t : ResetToken). t.token_hash) db.reset_tokens row name new
            (v.hashes name))

  pub refresh_row-IsLinked :
      (user : ℤ) (jti : Bytes) (exp : Time)
      → (let taken = any (has_jti jti) db.refresh_tokens || not (any (has_user_id user) db.users) in
          let row : RefreshToken = record {
            user_id = user;
            jti = jti;
            expires_at = exp;
            revoked = false;
          } in
          let stored : Db = record db { refresh_tokens = db.refresh_tokens ++ row ∷ [] } in
          let r : Result (Unit {0}) × Db =
            if taken then (err constraint, db) else (ok tt, stored) in
          IsLinked r.1)
  refresh_row-IsLinked user jti exp =
      elim (Bool-cases
        (any (has_jti jti) db.refresh_tokens || not (any (has_user_id user) db.users))) [
          | inl e ↦ rw e v
          | inr e ↦
              rw e (create_refresh-IsLinked user jti exp (ground (arith, e)) (ground (arith, e)))
        ]

  pub reset_row-IsLinked :
      (user : ℤ) (hash : Bytes) (exp : Time)
      → (let taken = any (has_hash hash) db.reset_tokens || not (any (has_user_id user) db.users) in
          let row : ResetToken = record {
            user_id = user;
            token_hash = hash;
            expires_at = exp;
            used_at = none;
          } in
          let stored : Db = record db { reset_tokens = db.reset_tokens ++ row ∷ [] } in
          let r : Result (Unit {0}) × Db =
            if taken then (err constraint, db) else (ok tt, stored) in
          IsLinked r.1)
  reset_row-IsLinked user hash exp =
      elim (Bool-cases
        (any (has_hash hash) db.reset_tokens || not (any (has_user_id user) db.users))) [
          | inl e ↦ rw e v
          | inr e ↦
              rw e (create_reset-IsLinked user hash exp (ground (arith, e)) (ground (arith, e)))
        ]

  -- Tokens that are marked.
  pub mark_refreshes-IsLinked :
      (p : RefreshToken → Bool)
      → IsLinked (record db { refresh_tokens = update_where p revoke_token db.refresh_tokens })
  mark_refreshes-IsLinked p =
      tokens-IsLinked db v (update_where p revoke_token db.refresh_tokens) db.reset_tokens
        (All-update_where (λ (t : RefreshToken). UserThere db.users t.user_id) p revoke_token
          db.refresh_tokens (λ t _ h. h) v.refreshes)
        v.resets
        (λ name. ground (
          arith,
          v.jtis name,
          countb-update_where (has_jti name) (has_jti name) p revoke_token db.refresh_tokens
              (λ t. ground arith),
        ))
        v.hashes

  pub mark_resets-IsLinked :
      (p : ResetToken → Bool) (now : Time)
      → IsLinked (record db {
        reset_tokens = update_where p (λ t. record t { used_at = some now }) db.reset_tokens;
      })
  mark_resets-IsLinked p now =
      let used = λ (t : ResetToken). record t { used_at = some now } in
      tokens-IsLinked db v db.refresh_tokens (update_where p used db.reset_tokens) v.refreshes
        (All-update_where (λ (t : ResetToken). UserThere db.users t.user_id) p used db.reset_tokens
          (λ t _ h. h) v.resets)
        v.jtis
        (λ name. ground (
          arith,
          v.hashes name,
          countb-update_where (has_hash name) (has_hash name) p used db.reset_tokens
              (λ t. ground arith),
        ))

-- ===== src/Accounts/Tokens.antt =====
-- internal/repo/refresh_repo.go and rest_repo.go: the tokens that the server remembers. The user
-- agent and the address that a row also keeps are not modelled: nothing reads them.
use mathlib.Core.Option
use sukumad.Prelude.{
  ltb, if◌then◌else◌, is_some, find, any, update_where, ℤ, eq_ℤ, Bool, true, false, not, ◌&&◌, ◌||◌,
  none, some, [], ◌∷◌, ◌++◌,
}
use sukumad.Text.{Bytes, text_eq}
use sukumad.Types.{Time}
use sukumad.Store.{
  RefreshToken, ResetToken, constraint, Result, ok, err, Action, exec, query, one_row,
}
use sukumad.Accounts.Users.{has_user_id}
use sukumad.Accounts.Logins.{exec_update}

abbrev pub has_jti : Bytes → RefreshToken → Bool
has_jti jti t = text_eq t.jti jti

abbrev pub has_hash : Bytes → ResetToken → Bool
has_hash hash t = text_eq t.token_hash hash

unfoldable pub create_refresh : ℤ → Bytes → Time → Action (Result (Unit {0}))
create_refresh user jti expires_at = exec (λ now db.
    if any (has_jti jti) db.refresh_tokens || not (any (has_user_id user) db.users)
    then (err constraint, db)
    else (
      ok tt,
      record db {
        refresh_tokens =
            db.refresh_tokens
            ++ record { user_id = user; jti = jti; expires_at = expires_at; revoked = false } ∷ [];
      },
    ))

abbrev pub revoke_token : RefreshToken → RefreshToken
revoke_token t = record t { revoked = true }

unfoldable pub revoke : Bytes → Action (Result (Unit {0}))
revoke jti = exec_update (λ now db. record db {
  refresh_tokens = update_where (has_jti jti) revoke_token db.refresh_tokens;
})

abbrev pub is_live : Time → RefreshToken → Bool
is_live now t = not t.revoked && ltb now t.expires_at

unfoldable pub is_active : Bytes → Action (Result Bool)
is_active jti =
    query (λ now db. one_row (Option.map (is_live now) (find (has_jti jti) db.refresh_tokens)))

unfoldable pub revoke_all_for_user : ℤ → Action (Result (Unit {0}))
revoke_all_for_user user = exec_update (λ now db. record db {
  refresh_tokens =
      update_where (λ (t : RefreshToken). eq_ℤ t.user_id user) revoke_token db.refresh_tokens;
})

unfoldable pub create_reset : ℤ → Bytes → Time → Action (Result (Unit {0}))
create_reset user hash expires_at = exec (λ now db.
    if any (has_hash hash) db.reset_tokens || not (any (has_user_id user) db.users)
    then (err constraint, db)
    else (
      ok tt,
      record db {
        reset_tokens =
            db.reset_tokens
            ++ record { user_id = user; token_hash = hash; expires_at = expires_at; used_at = none }
              ∷ [];
      },
    ))

unfoldable pub is_usable : Time → Bytes → ResetToken → Bool
is_usable now hash t = has_hash hash t && not (is_some t.used_at) && ltb now t.expires_at

-- UPDATE … RETURNING user_id: the hash is unique, so at most one row changes.
unfoldable pub use_reset : Bytes → Action (Result ℤ)
unfolding is_usable
use_reset hash = exec (λ now db. (
  one_row (Option.map (λ (t : ResetToken). t.user_id) (find (is_usable now hash) db.reset_tokens)),
  record db {
    reset_tokens =
        update_where (is_usable now hash) (λ t. record t { used_at = some now }) db.reset_tokens;
  },
))

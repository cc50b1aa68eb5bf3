-- ===== src/Auth/RotationTests.antt =====
-- The theorems of refreshing, applied to a session.
use mathlib.Core.Option
use sukumad.Prelude.{find, pos, eq_ℤ, ◌+◌, ◌≡◌, refl, ◌≢◌, ◌⊎◌, true, false, some, [], ◌∷◌}
use sukumad.Text.{Bytes, str, text_eq, to_lower, trim_space, has_prefix}
use sukumad.Types.{Time}
use sukumad.Store.{World, next_fault, later_faults, query}
use sukumad.Config.{default_config}
use sukumad.Accounts.Tokens.{has_jti, revoke, is_live, is_active}
use sukumad.Auth.Keys.{RefreshClaims, parse_refresh, bearer_token}
use sukumad.Auth.Login.{refresh_tokens}
use sukumad.Auth.Rotation.{IsDead, refresh_tokens-rotates}
use sukumad.Samples.{toy_crypto, toy_packages, from_1, old_token, with_session}
use sukumad.Accounts.Logins.{get_with_hash_by_username}
use sukumad.Auth.Replay.{Presents, refresh_tokens-no_replay}
use sukumad.Accounts.Calls.{
  deletes_user, unlocks, revokes_all, call, none_yet, calls_next, time_goes,
}

refresh_tokens-rotates_example :
    (token : Bytes) × (bearer_token (str "Bearer t") ≡ some token)
    × ((claims : RefreshClaims) × (parse_refresh toy_crypto 1000 default_config.jwt_secret token
          ≡ some claims)
        × (Option.map (is_live 1000) (find (has_jti claims.jti) with_session.db.refresh_tokens)
            ≡ some true)
        × ((next_fault (later_faults with_session.faults) ≡ true)
            ⊎ IsDead claims.jti
                (refresh_tokens toy_packages default_config (str "j") from_1 with_session).1.db))
unfolding refresh_tokens bearer_token has_prefix str to_lower parse_refresh is_active query text_eq
    trim_space get_with_hash_by_username revoke
refresh_tokens-rotates_example =
    refresh_tokens-rotates toy_packages default_config (str "j") from_1 with_session refl

abbrev t_claims : RefreshClaims
t_claims = record { user_id = pos 1; username = str "ann"; jti = str "t" }

-- Its user is unlocked and logged out, and after a while under faults another user goes.
abbrev later_calls : World → World
later_calls w =
    let v = call (revokes_all (pos 1)) (call (unlocks (pos 1)) w) in
    call (deletes_user (pos 2)) (record v { now = v.now + 7; faults = false ∷ [] })

presented : (now : Time) → Presents toy_packages default_config now from_1 t_claims
unfolding bearer_token has_prefix str to_lower trim_space parse_refresh
presented now = (str "t", refl, refl)

refresh_tokens-no_replay_example :
    let w = (refresh_tokens toy_packages default_config (str "j") from_1 with_session).1 in
    (refresh_tokens toy_packages default_config (str "k") from_1 (later_calls w)).0.code ≢ 200
unfolding refresh_tokens bearer_token has_prefix str to_lower parse_refresh is_active query text_eq
    trim_space get_with_hash_by_username revoke eq_ℤ
refresh_tokens-no_replay_example =
    let w = (refresh_tokens toy_packages default_config (str "j") from_1 with_session).1 in
    refresh_tokens-no_replay toy_packages default_config (str "j") (str "k") from_1 from_1
      with_session (later_calls w) t_claims t_claims old_token (presented 1000) refl refl refl
      (calls_next (deletes_user (pos 2)) refl (
        time_goes 7 (false ∷ [])
          (calls_next (revokes_all (pos 1)) tt (calls_next (unlocks (pos 1)) tt none_yet))))
      (presented (later_calls w).now) refl

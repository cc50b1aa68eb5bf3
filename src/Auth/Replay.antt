-- ===== src/Auth/Replay.antt =====
-- A refresh token that was exchanged is of no use any more, whatever is done to the accounts then.
use mathlib.Core.Path.{subst}
use mathlib.Core.Option.{some-injective}
use sukumad.Prelude.{
  Bool-cases, find, any, update_where, ℤ, eq_ℤ_iff, ◌≡◌, refl, sym, ap, ◌∙◌, ◌≢◌, inl, inr, true,
  false, some, List, [], ◌∷◌, arith,
}
use sukumad.Text.{Bytes}
use sukumad.Types.{Time}
use sukumad.Store.{RefreshToken, Db, World, next_fault, later_faults, exec}
use sukumad.Accounts.Tokens.{has_jti, revoke_token, revoke, is_live}
use sukumad.Accounts.Calls.{Calls}
use sukumad.Auth.Rotation.{live, refresh_tokens-keeps}
use sukumad.Auth.Login.{Packages, refresh_tokens}
use sukumad.Auth.Keys.{RefreshClaims, parse_refresh, bearer_token}
use sukumad.Config.{Config}
use sukumad.Web.{Caller}
use sukumad.Auth.Barred.{barred, IsBarred, Spares, create_refresh-IsBarred, Calls-IsBarred}

-- The statement that revokes the id of a row.
revoked-IsBarred :
    (jti : Bytes) (t : RefreshToken) (ts : List RefreshToken)
    → find (has_jti jti) ts ≡ some t
    → (any (barred t.user_id jti) (update_where (has_jti jti) revoke_token ts) ≡ true)
      × (any (live jti) (update_where (has_jti jti) revoke_token ts) ≡ false)
revoked-IsBarred jti t ts e = (there ts e, none_left ts)
  where
    there :
        (ts : List RefreshToken)
        → find (has_jti jti) ts ≡ some t
        → any (barred t.user_id jti) (update_where (has_jti jti) revoke_token ts) ≡ true
    there [] e = absurd (cc)
    there (x ∷ xs) e = elim (Bool-cases (has_jti jti x)) [
      | inl h ↦
          let same : x.user_id ≡ t.user_id =
            ap (λ (r : RefreshToken). r.user_id) (some-injective x t (ground (arith, h, e))) in
          ground (arith, h, same, eq_ℤ_iff x.user_id t.user_id)
      | inr h ↦ ground (arith, h, e, there xs)
    ]

    none_left :
        (ts : List RefreshToken)
        → any (live jti) (update_where (has_jti jti) revoke_token ts) ≡ false
    none_left [] = refl
    none_left (x ∷ xs) = ground (arith, none_left xs)

found_is_live :
    (jti : Bytes) (now : Time) (t : RefreshToken) (ts : List RefreshToken)
    → find (has_jti jti) ts ≡ some t
    → is_live now t ≡ true
    → any (live jti) ts ≡ true
found_is_live jti now t [] e l = absurd (cc)
found_is_live jti now t (x ∷ xs) e l = elim (Bool-cases (has_jti jti x)) [
  | inl h ↦
      let same : x ≡ t = some-injective x t (ground (arith, h, e)) in
      let shut : x.revoked ≡ false =
        ap (λ (r : RefreshToken). r.revoked) same ∙ ground (arith, l) in
      ground (arith, h, shut)
  | inr h ↦ ground (arith, h, e, found_is_live jti now t xs)
]

-- The claims of the refresh token that the caller's header bears at that time.
abbrev pub Presents : Packages → Config → Time → Caller → RefreshClaims → Type 0
Presents pk cfg now caller claims =
    (token : Bytes) × (bearer_token caller.authorization ≡ some token)
    × (parse_refresh pk.crypto now cfg.jwt_secret token ≡ some claims)

same_claims :
    (pk : Packages) (cfg : Config) (now : Time) (caller : Caller) (c d : RefreshClaims)
    → Presents pk cfg now caller c
    → Presents pk cfg now caller d
    → c ≡ d
same_claims pk cfg now caller c d (t, e, n) (t', e', n') =
    some-injective c d (sym n ∙ rw (some-injective t t' (sym e ∙ e')) n')

-- A refresh that answers 200, and whose statement of revocation did not fail, is the last one with
-- that token: after it, whatever statements are run on the users, roles, permissions, grants and
-- tokens, in any order, at any times and with any faults, as long as the token's own user, with whom
-- its row would go, is not deleted, no caller with a token of the same id is answered 200.
pub refresh_tokens-no_replay :
    (pk : Packages) (cfg : Config) (random random' : Bytes) (caller caller' : Caller) (w v : World)
    (claims claims' : RefreshClaims) (t : RefreshToken)
    → Presents pk cfg w.now caller claims
    → find (has_jti claims.jti) w.db.refresh_tokens ≡ some t
    → (refresh_tokens pk cfg random caller w).0.code ≡ 200
    → next_fault (later_faults w.faults) ≡ false
    → Calls (Spares t.user_id) (refresh_tokens pk cfg random caller w).1 v
    → Presents pk cfg v.now caller' claims'
    → claims'.jti ≡ claims.jti
    → (refresh_tokens pk cfg random' caller' v).0.code ≢ 200
unfolding revoke exec
refresh_tokens-no_replay pk cfg random random' caller caller' w v claims claims' t p found h f r p'
      same h' =
    let barred_by = λ (jti : Bytes) (db : Db). IsBarred t.user_id jti db in
    let keeps = λ (old : Bytes) (uid : ℤ) (jti : Bytes) (exp : Time) (u : World).
      create_refresh-IsBarred t.user_id old uid jti exp u in
    let (token, e, (c, n, (t1, f1, l1, k))) =
      refresh_tokens-keeps barred_by keeps pk cfg random caller w h in
    let (token', e', (c', n', (t2, f2, l2, _))) =
      refresh_tokens-keeps barred_by keeps pk cfg random' caller' v h' in
    let first : c ≡ claims = same_claims pk cfg w.now caller c claims (token, e, n) p in
    let second : c' ≡ claims' = same_claims pk cfg v.now caller' c' claims' (token', e', n') p' in
    let jti : c'.jti ≡ claims.jti = ap (λ (x : RefreshClaims). x.jti) second ∙ same in
    let after = k (
      rw f (
        revoked-IsBarred c.jti t w.db.refresh_tokens
          (rw (ap (λ (x : RefreshClaims). x.jti) first) found))) in
    let last = Calls-IsBarred t.user_id claims.jti r (
      subst
        (λ (x : RefreshClaims).
          IsBarred t.user_id x.jti (refresh_tokens pk cfg random caller w).1.db)
        first after) in
    let alive = found_is_live c'.jti v.now t2 v.db.refresh_tokens f2 l2 in
    cc (ap (λ j. any (live j) v.db.refresh_tokens) jti, alive, last.1)

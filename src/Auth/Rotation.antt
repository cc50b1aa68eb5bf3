-- ===== src/Auth/Rotation.antt =====
-- Refreshing: the old token is revoked, and logging out revokes them all.
use mathlib.Core.Option
use mathlib.Core.Path.{subst}
use sukumad.Prelude.{
  Bool-cases, Option-cases, find, any, countb, update_where, countb-append, any-append, ℤ, ◌+◌, ◌≡◌,
  refl, sym, ap, ◌∙◌, ◌⊎◌, inl, inr, Bool, true, false, not, ◌&&◌, ◌||◌, Option, none, some, List,
  [], ◌∷◌, arith,
}
use sukumad.Text.{Bytes, text_eq}
use sukumad.Types.{Time}
use sukumad.Store.{
  UserRow, RefreshToken, Db, Result, ok, err, World, Action, ◌>>=◌, next_fault, later_faults, exec,
  query, one_row,
}
use sukumad.Accounts.Tokens.{has_jti, create_refresh, revoke_token, revoke, is_live, is_active}
use sukumad.Accounts.Users.{has_user_id, has_username}
use sukumad.Text.Laws.{text_eq_iff}
use sukumad.Web.{Reply, Caller}
use sukumad.Auth.Login.{
  Packages, week, codes_of, issue, hand_out, renew, rotate, rotate_live, refresh_tokens,
}
use sukumad.Config.{Config}
use sukumad.Accounts.Logins.{get_with_hash_by_username}
use sukumad.Accounts.Grants.{effective, list_effective_permissions}
use sukumad.Auth.Keys.{RefreshClaims, parse_refresh, bearer_token}

-- The id has a row.
abbrev pub IsKnown : Bytes → Db → Type 0
IsKnown jti db = any (has_jti jti) db.refresh_tokens ≡ true

-- No row of the id is live, and it has one, so it is never given out again.
abbrev pub live : Bytes → RefreshToken → Bool
live jti t = has_jti jti t && not t.revoked

abbrev pub IsDead : Bytes → Db → Type 0
IsDead jti db = IsKnown jti db × (countb (live jti) db.refresh_tokens ≡ 0)

create_refresh-IsDead :
    (uid : ℤ) (jti old : Bytes) (exp : Time) (w : World)
    → IsDead old w.db
    → IsDead old (create_refresh uid jti exp w).1.db
unfolding create_refresh exec
create_refresh-IsDead uid jti old exp w (k, d) =
    let ts = w.db.refresh_tokens in
    let new : RefreshToken = record {
      user_id = uid;
      jti = jti;
      expires_at = exp;
      revoked = false;
    } in
    let same : text_eq jti old ≡ true → any (has_jti jti) ts ≡ true =
      λ e. subst (λ j. any (has_jti j) ts ≡ true) (sym ((text_eq_iff jti old).0 e)) k in
    let grown = countb-append (live old) ts (new ∷ []) in
    let known = any-append (has_jti old) ts (new ∷ []) in
    elim (Bool-cases (next_fault w.faults)) [
      | inl f ↦ rw f (k, d)
      | inr f ↦ elim (Bool-cases (any (has_jti jti) ts || not (any (has_user_id uid) w.db.users))) [
        | inl e ↦ rw f (rw e (k, d))
        | inr e ↦ rw f (rw e ((ground (arith, known, k), ground (arith, grown, d, same, e))))
      ]
    ]

revoked-IsDead :
    (jti : Bytes) (ts : List RefreshToken)
    → (countb (live jti) (update_where (has_jti jti) revoke_token ts) ≡ 0)
      × (any (has_jti jti) (update_where (has_jti jti) revoke_token ts) ≡ any (has_jti jti) ts)
revoked-IsDead jti [] = (refl, refl)
revoked-IsDead jti (t ∷ ts) = ground (arith, revoked-IsDead jti ts)

-- A query leaves the tables alone.
query-db {ℓ} : {A : Type ℓ} (stmt : Time → Db → Result A) (w : World) → (query stmt w).1.db ≡ w.db
unfolding query exec
query-db stmt w = elim (Bool-cases (next_fault w.faults)) [ inl f ↦ rw f refl | inr f ↦ rw f refl ]

find-any :
    (p : RefreshToken → Bool) {t : RefreshToken} (ts : List RefreshToken)
    → find p ts ≡ some t
    → any p ts ≡ true
find-any p [] e = absurd (cc)
find-any p {t} (x ∷ xs) e = ground (arith, find-any p {t = t} xs)

-- What a refresh keeps after it has revoked the old token, if new tokens keep it.
module _ (P : Bytes → Db → Type 0)
    (keeps : (old : Bytes) (uid : ℤ) (jti : Bytes) (exp : Time) (w : World)
      → P old w.db
      → P old (create_refresh uid jti exp w).1.db)
    (pk : Packages) (cfg : Config) (random : Bytes) where
  hand_out-keeps :
      (old : Bytes) (uid : ℤ) (now : Time) (o : Option (Bytes × Bytes × Bytes)) (w : World)
      → P old w.db
      → P old (hand_out uid now o w).1.db
  unfolding hand_out
  hand_out-keeps old uid now none w d = d
  hand_out-keeps old uid now (some (access, refresh, jti)) w d = keeps old uid jti (now + week) w d

  renew-keeps :
      (old : Bytes) (found : Result UserRow) (w : World)
      → P old w.db
      → P old (renew pk cfg random found w).1.db
  unfolding renew list_effective_permissions
  renew-keeps old (err e) w d = d
  renew-keeps old (ok row) w d =
      let q = query (λ now db. ok (effective row.user.id db)) w in
      hand_out-keeps old row.user.id q.1.now (issue pk cfg q.1.now random row.user (codes_of q.0))
        q.1 (subst (P old) (sym (query-db (λ now db. ok (effective row.user.id db)) w)) d)

  rotate-keeps :
      (claims : RefreshClaims) (w : World)
      → P claims.jti (revoke claims.jti w).1.db
      → P claims.jti (rotate pk cfg random claims w).1.db
  unfolding rotate get_with_hash_by_username
  rotate-keeps claims w d =
      let r = revoke claims.jti w in
      let stmt = λ (now : Time) (db : Db). one_row (find (has_username claims.username) db.users) in
      let q = query stmt r.1 in
      renew-keeps claims.jti q.0 q.1 (subst (P claims.jti) (sym (query-db stmt r.1)) d)

  live_step : RefreshClaims → Action Reply
  live_step claims = is_active claims.jti >>= rotate_live pk cfg random claims

  live_step_lem :
      (claims : RefreshClaims) (w : World)
      → (live_step claims w).0.code ≡ 200
      → (t : RefreshToken) × (find (has_jti claims.jti) w.db.refresh_tokens ≡ some t)
        × (is_live w.now t ≡ true)
        × (P claims.jti (revoke claims.jti (record w { faults = later_faults w.faults })).1.db
            → P claims.jti (live_step claims w).1.db)
  unfolding live_step is_active query exec rotate_live
  live_step_lem claims w h =
      let w' = record w { faults = later_faults w.faults } in
      elim (Bool-cases (next_fault w.faults)) [
        | inl f ↦ absurd (ground (arith, f, h))
        | inr f ↦ elim (Option-cases (find (has_jti claims.jti) w.db.refresh_tokens)) [
          | inl n ↦ absurd (ground (arith, f, n, h))
          | inr (t, n) ↦ elim (Bool-cases (is_live w.now t)) [
            | inr e ↦ absurd (ground (arith, f, n, e, h))
            | inl e ↦ (t, n, e, λ d. rw f (rw n (rw e (rotate-keeps claims w' d))))
          ]
        ]
      ]

  -- A refresh that answers 200 got a token that parses, and whose row is live.
  pub refresh_tokens-keeps :
      (caller : Caller) (w : World)
      → (refresh_tokens pk cfg random caller w).0.code ≡ 200
      → (token : Bytes) × (bearer_token caller.authorization ≡ some token)
        × ((claims : RefreshClaims) × (parse_refresh pk.crypto w.now cfg.jwt_secret token
              ≡ some claims)
            × ((t : RefreshToken) × (find (has_jti claims.jti) w.db.refresh_tokens ≡ some t)
                × (is_live w.now t ≡ true)
                × (P claims.jti
                      (revoke claims.jti (record w { faults = later_faults w.faults })).1.db
                    → P claims.jti (refresh_tokens pk cfg random caller w).1.db)))
  unfolding refresh_tokens live_step
  refresh_tokens-keeps caller w h = elim (Option-cases (bearer_token caller.authorization)) [
    | inl e ↦ absurd (ground (arith, e, h))
    | inr (token, e) ↦ elim (Option-cases (parse_refresh pk.crypto w.now cfg.jwt_secret token)) [
      | inl n ↦ absurd (ground (arith, e, n, h))
      | inr (claims, n) ↦
          let same : refresh_tokens pk cfg random caller w ≡ live_step claims w =
            rw (e, refresh_tokens) (rw n refl) in
          let (t, f, l, k) = live_step_lem claims w (ap (λ x. x.0.code) (sym same) ∙ h) in
          (token, e, (claims, n, (t, f, l, λ d. subst (λ x. P claims.jti x.1.db) (sym same) (k d))))
    ]
  ]

-- A refresh that answers 200 was given a bearer token that parses, whose id had a row that was
-- live at that time; and the statement that revokes it failed, or the id is dead from then on, so
-- that the same token is refused.
pub refresh_tokens-rotates :
    (pk : Packages) (cfg : Config) (random : Bytes) (caller : Caller) (w : World)
    → (refresh_tokens pk cfg random caller w).0.code ≡ 200
    → (token : Bytes) × (bearer_token caller.authorization ≡ some token)
      × ((claims : RefreshClaims) × (parse_refresh pk.crypto w.now cfg.jwt_secret token
            ≡ some claims)
          × (Option.map (is_live w.now) (find (has_jti claims.jti) w.db.refresh_tokens) ≡ some true)
          × ((next_fault (later_faults w.faults) ≡ true)
              ⊎ IsDead claims.jti (refresh_tokens pk cfg random caller w).1.db))
unfolding revoke exec
refresh_tokens-rotates pk cfg random caller w h =
    let (token, e, (claims, n, (t, found, l, k))) =
      refresh_tokens-keeps IsDead (λ old uid jti exp v. create_refresh-IsDead uid jti old exp v) pk
        cfg random caller w h in
    let (dead, known) = revoked-IsDead claims.jti w.db.refresh_tokens in
    (
      token,
      e,
      (
        claims,
        n,
        ground (arith, found, l),
        elim (Bool-cases (next_fault (later_faults w.faults))) [
          | inl f ↦ inl f
          | inr f ↦
              inr (k (rw f (known ∙ find-any (has_jti claims.jti) w.db.refresh_tokens found, dead)))
        ],
      ),
    )

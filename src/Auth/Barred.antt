-- ===== src/Auth/Barred.antt =====
-- The id of a revoked token, through all statements on the accounts.
use mathlib.Core.Path.{subst}
use sukumad.Prelude.{
  Bool-cases, any, update_where, any-append_left, any-append, any-delete_where_keep,
  any-delete_where_none, any-weaken, ℤ, eq_ℤ, eq_ℤ_iff, ◌≡◌, sym, inl, inr, Bool, true, false, not,
  ◌&&◌, ◌||◌, List, [], ◌∷◌, ◌++◌, arith,
}
use sukumad.Text.{Bytes, text_eq}
use sukumad.Types.{Time}
use sukumad.Store.{RefreshToken, Db, Result, World, exec}
use sukumad.Accounts.Tokens.{has_jti, create_refresh, revoke_token}
use sukumad.Accounts.Users.{has_user_id, without_user}
use sukumad.Accounts.Calls.{
  Call, creates_user, updates_user, deletes_user, succeeds, fails, fails_with_lockout, clears,
  unlocks, sets_password, grants_user, revokes_user, grants_role, revokes_role, sets_role,
  creates_role, updates_role, deletes_role, creates_permission, updates_permission,
  deletes_permission, creates_refresh, revokes, revokes_all, creates_reset, uses_reset, call, Calls,
  none_yet, calls_next, time_goes,
}
use sukumad.Auth.Rotation.{live}
use sukumad.Store.Laws.{exec-keeps, branch-keeps}
use sukumad.Text.Laws.{text_eq_iff}
use sukumad.Accounts.Keeping.{
  create_user-keeps, update_user-keeps, set_password-keeps, write_user-keeps, insert_user-keeps,
  write_role-keeps, write_permission-keeps,
}

-- The id has a row, the user's and revoked, and none that is not revoked.
abbrev pub barred : ℤ → Bytes → RefreshToken → Bool
barred owner jti t = has_jti jti t && t.revoked && eq_ℤ t.user_id owner

abbrev pub IsBarred : ℤ → Bytes → Db → Type 0
IsBarred owner jti db =
    (any (barred owner jti) db.refresh_tokens ≡ true) × (any (live jti) db.refresh_tokens ≡ false)

-- Another user may be deleted, but not this one.
abbrev pub Spares : ℤ → Call → Type 0
Spares owner (deletes_user i) = eq_ℤ i owner ≡ false
Spares owner _ = Unit

revoke_where-IsBarred :
    (owner : ℤ) (jti : Bytes) (p : RefreshToken → Bool) (ts : List RefreshToken)
    → (any (barred owner jti) ts ≡ true
        → any (barred owner jti) (update_where p revoke_token ts) ≡ true)
      × (any (live jti) ts ≡ false → any (live jti) (update_where p revoke_token ts) ≡ false)
revoke_where-IsBarred owner jti p [] = ((λ h. h), (λ h. h))
revoke_where-IsBarred owner jti p (t ∷ ts) = ground (arith, revoke_where-IsBarred owner jti p ts)

pub create_refresh-IsBarred :
    (owner : ℤ) (old : Bytes) (uid : ℤ) (jti : Bytes) (exp : Time) (w : World)
    → IsBarred owner old w.db
    → IsBarred owner old (create_refresh uid jti exp w).1.db
unfolding create_refresh
create_refresh-IsBarred owner old uid jti exp w (k, d) =
    let ts = w.db.refresh_tokens in
    let new : RefreshToken = record {
      user_id = uid;
      jti = jti;
      expires_at = exp;
      revoked = false;
    } in
    let taken : any (has_jti old) ts ≡ true =
      any-weaken (barred owner old) (has_jti old) ts (λ t e. ground (arith, e)) k in
    let same : text_eq jti old ≡ true → any (has_jti jti) ts ≡ true =
      λ e. subst (λ j. any (has_jti j) ts ≡ true) (sym ((text_eq_iff jti old).0 e)) taken in
    let clash = any (has_jti jti) ts || not (any (has_user_id uid) w.db.users) in
    let grown : clash ≡ false
        → IsBarred owner old (record w.db { refresh_tokens = ts ++ new ∷ [] }) =
      λ e. (
        any-append_left (barred owner old) ts (new ∷ []) k,
        ground (arith, any-append (live old) ts (new ∷ []), d, same, e),
      ) in
    exec-keeps (IsBarred owner old) _ w
      (elim (Bool-cases clash) [ inl e ↦ rw e (k, d) | inr e ↦ rw e (grown e) ]) (k, d)

delete_user-IsBarred :
    (owner : ℤ) (jti : Bytes) (i : ℤ) (db : Db)
    → eq_ℤ i owner ≡ false
    → IsBarred owner jti db
    → IsBarred owner jti (without_user i db)
unfolding without_user
delete_user-IsBarred owner jti i db n (k, d) =
    let goes = λ (t : RefreshToken). eq_ℤ t.user_id i in
    (
      any-delete_where_keep (barred owner jti) goes db.refresh_tokens (λ t e. other _ t.user_id e)
          k,
      any-delete_where_none (live jti) goes db.refresh_tokens d,
    )
  where
    other : (b : Bool) (u : ℤ) → (b && eq_ℤ u owner) ≡ true → eq_ℤ u i ≡ false
    other b u e = ground (arith, e, n, eq_ℤ_iff u owner, eq_ℤ_iff u i, eq_ℤ_iff i owner)

revoke-IsBarred :
    (owner : ℤ) (jti : Bytes) (p : RefreshToken → Bool) (db : Db)
    → IsBarred owner jti db
    → IsBarred owner jti
        (record db { refresh_tokens = update_where p revoke_token db.refresh_tokens })
revoke-IsBarred owner jti p db (k, d) =
    let r = revoke_where-IsBarred owner jti p db.refresh_tokens in (r.0 k, r.1 d)

module _ (owner : ℤ) (jti : Bytes) where
  exec-IsBarred {ℓ} :
      {A : Type ℓ} (stmt : Time → Db → Result A × Db) (w : World)
      → IsBarred owner jti (stmt w.now w.db).1
      → IsBarred owner jti w.db
      → IsBarred owner jti (exec stmt w).1.db
  exec-IsBarred = exec-keeps (IsBarred owner jti)

  call-IsBarred :
      (c : Call) (w : World)
      → Spares owner c
      → IsBarred owner jti w.db
      → IsBarred owner jti (call c w).db
  unfolding call
  call-IsBarred (creates_user hash u) w m v =
      create_user-keeps (IsBarred owner jti) w v hash u
        (λ h. insert_user-keeps (IsBarred owner jti) h u w.now w.db (λ e. v) v)
  call-IsBarred (updates_user hash u) w m v =
      update_user-keeps (IsBarred owner jti) w v hash u
        (λ h. write_user-keeps (IsBarred owner jti) h u w.now w.db (λ r n e. v) v)
  call-IsBarred (deletes_user i) w m v =
      exec-IsBarred _ w (delete_user-IsBarred owner jti i w.db m v) v
  call-IsBarred (succeeds i) w m v = exec-IsBarred _ w v v
  call-IsBarred (fails name) w m v = exec-IsBarred _ w v v
  call-IsBarred (fails_with_lockout name t a b c) w m v = exec-IsBarred _ w v v
  call-IsBarred (clears i) w m v = exec-IsBarred _ w v v
  call-IsBarred (unlocks i) w m v = exec-IsBarred _ w v v
  call-IsBarred (sets_password hash i plain) w m v =
      set_password-keeps (IsBarred owner jti) w v hash i plain (λ h. v)
  call-IsBarred (grants_user i p) w m v =
      exec-IsBarred _ w (branch-keeps (IsBarred owner jti) _ _ _ v v) v
  call-IsBarred (revokes_user i p) w m v = exec-IsBarred _ w v v
  call-IsBarred (grants_role i p) w m v =
      exec-IsBarred _ w (branch-keeps (IsBarred owner jti) _ _ _ v v) v
  call-IsBarred (revokes_role i p) w m v = exec-IsBarred _ w v v
  call-IsBarred (sets_role i r) w m v =
      exec-IsBarred _ w (branch-keeps (IsBarred owner jti) _ _ _ v v) v
  call-IsBarred (creates_role r) w m v =
      exec-IsBarred _ w (branch-keeps (IsBarred owner jti) _ _ _ v v) v
  call-IsBarred (updates_role r) w m v =
      exec-IsBarred _ w (write_role-keeps (IsBarred owner jti) r w.now w.db v v) v
  call-IsBarred (deletes_role i) w m v = exec-IsBarred _ w v v
  call-IsBarred (creates_permission p) w m v =
      exec-IsBarred _ w (branch-keeps (IsBarred owner jti) _ _ _ v v) v
  call-IsBarred (updates_permission p) w m v =
      exec-IsBarred _ w (write_permission-keeps (IsBarred owner jti) p w.now w.db v v) v
  call-IsBarred (deletes_permission i) w m v = exec-IsBarred _ w v v
  call-IsBarred (creates_refresh i j t) w m v = create_refresh-IsBarred owner jti i j t w v
  call-IsBarred (revokes j) w m v =
      exec-IsBarred _ w (revoke-IsBarred owner jti (has_jti j) w.db v) v
  call-IsBarred (revokes_all i) w m v = exec-IsBarred _ w (revoke-IsBarred owner jti _ w.db v) v
  call-IsBarred (creates_reset i hash t) w m v =
      exec-IsBarred _ w (branch-keeps (IsBarred owner jti) _ _ _ v v) v
  call-IsBarred (uses_reset hash) w m v = exec-IsBarred _ w v v

pub Calls-IsBarred :
    (owner : ℤ) (jti : Bytes) {w v : World}
    → Calls (Spares owner) w v
    → IsBarred owner jti w.db
    → IsBarred owner jti v.db
Calls-IsBarred owner jti none_yet h = h
Calls-IsBarred owner jti (calls_next {v = u} c m r) h =
    call-IsBarred owner jti c u m (Calls-IsBarred owner jti r h)
Calls-IsBarred owner jti (time_goes t faults r) h = Calls-IsBarred owner jti r h

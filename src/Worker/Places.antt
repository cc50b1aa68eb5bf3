-- ===== src/Worker/Places.antt =====
-- The semaphores of a LimiterSet: what `wait` takes and `release` gives back.
use sukumad.Prelude.{
  ltb, Bool-cases, Option-cases, ℤ, ℕ, ◌+◌, ◌-◌, ◌≤◌, ◌<◌, ◌≡◌, refl, ◌∙◌, ◌≢◌, inl, inr, Bool,
  true, false, ◌&&◌, Option, none, some, List, arith,
}
use sukumad.Text.{Bytes, text_eq}
use sukumad.Text.Maps.{lookup, lookup-insert}
use sukumad.Text.Laws.{text_eq_iff, text_eq_refl}
use sukumad.Worker.Limiter.{
  Bucket, Semaphore, LimiterSet, ensure, cap_of, Luck, Waited, passed, take_place, pass_key,
  ensure_semaphore, wait, release,
}
use sukumad.Types.{Float}
use mathlib.Core.Path.{subst}

-- The values in a key's channel, and how many fit.
abbrev pub used_of : Option Semaphore → ℕ
used_of none = 0
used_of (some m) = m.used

abbrev pub capacity_of : Option Semaphore → ℕ
capacity_of none = 0
capacity_of (some m) = m.capacity

abbrev pub used : Bytes → LimiterSet → ℕ
used j ls = used_of (lookup j ls.conc)

abbrev pub capacity : Bytes → LimiterSet → ℕ
capacity j ls = capacity_of (lookup j ls.conc)

-- What one call of `wait` puts into the channel of a key.
abbrev pub gained : Waited → Bool
gained (passed held) = held
gained _ = false

abbrev pub one_if : Bool → ℕ
one_if true = 1
one_if false = 0

-- How the semaphore of one key changes.
pub record Changed (taken given : ℕ) (c c' : List (Bytes × Semaphore)) (j : Bytes) : Type 0 where
  pub counted : used_of (lookup j c') + given ≡ used_of (lookup j c) + taken
  pub bounded :
      used_of (lookup j c) ≤ capacity_of (lookup j c)
      → used_of (lookup j c') ≤ capacity_of (lookup j c')
  pub kept : lookup j c ≢ none → capacity_of (lookup j c') ≡ capacity_of (lookup j c)

take_place-Changed :
    (key : Bytes) (m : Semaphore) (cancelled : Bool) (ls : LimiterSet) (j : Bytes)
    → lookup key ls.conc ≡ some m
    → let (r, ls') = take_place key m cancelled ls in
      Changed (one_if (gained r && text_eq key j)) 0 ls.conc ls'.conc j
take_place-Changed key m true ls j e = record {
  counted = omega arith;
  bounded = λ h. h;
  kept = λ _. refl;
}
take_place-Changed key m false ls j e = elim (Bool-cases (ltb m.used m.capacity)) [
  | inl room ↦
      let place = record m { used = m.used + 1 } in
      let new = lookup-insert key j place ls.conc in
      elim (Bool-cases (text_eq key j)) [
        | inl same ↦
            let old : lookup j ls.conc ≡ some m =
              subst (λ k. lookup k ls.conc ≡ some m) ((text_eq_iff key j).0 same) e in
            rw room (record {
              counted = ground (arith, new, old);
              bounded = ground (arith, new, old);
              kept = ground (arith, new, old);
            })
        | inr other ↦ rw room (record {
          counted = ground (arith, new);
          bounded = ground (arith, new);
          kept = ground (arith, new);
        })
      ]
  | inr full ↦ rw full (record { counted = omega arith; bounded = λ h. h; kept = λ _. refl })
]

ensure_semaphore-Changed :
    (key : Bytes) (o : Option ℕ) (ls : LimiterSet) (j : Bytes)
    → Changed 0 0 ls.conc (ensure_semaphore key o ls).1.conc j
unfolding ensure_semaphore
ensure_semaphore-Changed key none ls j = record {
  counted = refl;
  bounded = λ h. h;
  kept = λ _. refl;
}
ensure_semaphore-Changed key (some n) ls j =
    let empty : Semaphore = record { capacity = n; used = 0 } in
    let new = lookup-insert key j empty ls.conc in
    elim (Option-cases (lookup key ls.conc)) [
      | inr (m, e) ↦ record {
        counted = ground (arith, e);
        bounded = ground (arith, e);
        kept = ground (arith, e);
      }
      | inl e ↦
          let at_key : text_eq key j ≡ true → lookup j ls.conc ≡ none =
            λ same. subst (λ k. lookup k ls.conc ≡ none) ((text_eq_iff key j).0 same) e in
          elim (Bool-cases (text_eq key j)) [
            | inl same ↦ record {
              counted = ground (arith, e, new, at_key same);
              bounded = ground (arith, e, new, at_key same);
              kept = λ h. absurd (h (at_key same));
            }
            | inr other ↦ record {
              counted = ground (arith, e, new);
              bounded = ground (arith, e, new);
              kept = ground (arith, e, new);
            }
          ]
    ]

ensure_semaphore-some :
    (key : Bytes) (o : Option ℕ) (ls : LimiterSet) (m : Semaphore)
    → (ensure_semaphore key o ls).0 ≡ some m
    → lookup key (ensure_semaphore key o ls).1.conc ≡ some m
unfolding ensure_semaphore
ensure_semaphore-some key none ls m e = absurd (cc)
ensure_semaphore-some key (some n) ls m e =
    let empty : Semaphore = record { capacity = n; used = 0 } in
    elim (Option-cases (lookup key ls.conc)) [
      | inr (m', e') ↦ ground (arith, e', e)
      | inl e' ↦ ground (arith, e', e, lookup-insert key key empty ls.conc, text_eq_refl key)
    ]

pass_key-Changed :
    (luck : Luck) (key : Bytes) (lim : Bucket) (o : Option Semaphore) (ls : LimiterSet) (j : Bytes)
    → ((m : Semaphore) → o ≡ some m → lookup key ls.conc ≡ some m)
    → let (r, ls') = pass_key luck key lim o ls in
      Changed (one_if (gained r && text_eq key j)) 0 ls.conc ls'.conc j
unfolding pass_key
pass_key-Changed luck key lim o ls j h = elim (Bool-cases (luck.key_ok lim)) [
  | inr e ↦ rw e (record { counted = omega arith; bounded = λ h. h; kept = λ _. refl })
  | inl e ↦ rw e (at o h)
]
  where
    at :
        (o : Option Semaphore)
        → ((m : Semaphore) → o ≡ some m → lookup key ls.conc ≡ some m)
        → let r : Waited × LimiterSet = elim o [
          | none ↦ (passed false, ls)
          | some m ↦ take_place key m luck.cancelled ls
        ] in
          Changed (one_if (gained r.0 && text_eq key j)) 0 ls.conc r.1.conc j
    at none h = record { counted = omega arith; bounded = λ h. h; kept = λ _. refl }
    at (some m) h = take_place-Changed key m luck.cancelled ls j (h m refl)

Changed-trans :
    {a b : ℕ} {c c' c'' : List (Bytes × Semaphore)} {j : Bytes}
    → Changed 0 0 c c' j
    → Changed a b c' c'' j
    → (lookup j c ≢ none → lookup j c' ≢ none)
    → Changed a b c c'' j
Changed-trans u v k = record {
  counted = omega (arith, u.counted, v.counted);
  bounded = λ h. v.bounded (u.bounded h);
  kept = λ h. v.kept (k h) ∙ u.kept h;
}

ensure_semaphore-kept :
    (key : Bytes) (o : Option ℕ) (ls : LimiterSet) (j : Bytes)
    → lookup j ls.conc ≢ none
    → lookup j (ensure_semaphore key o ls).1.conc ≢ none
unfolding ensure_semaphore
ensure_semaphore-kept key none ls j h = h
ensure_semaphore-kept key (some n) ls j h =
    let empty : Semaphore = record { capacity = n; used = 0 } in
    ground (arith, lookup-insert key j empty ls.conc)

-- A call of `wait` takes a place of its own key exactly if it says so, never one that is not
-- there, and changes no capacity that was set before.
pub wait-Changed :
    (luck : Luck) (key : Bytes) (rps : Float) (burst : ℤ) (max_conc : Option ℤ) (ls : LimiterSet)
    (j : Bytes)
    → let (r, ls') = wait luck key rps burst max_conc ls in
      Changed (one_if (gained r && text_eq key j)) 0 ls.conc ls'.conc j
unfolding wait
wait-Changed luck key rps burst max_conc ls j = elim (Bool-cases luck.global_ok) [
  | inr e ↦ rw e (record { counted = omega arith; bounded = λ h. h; kept = λ _. refl })
  | inl e ↦
      let p = ensure key (record { rate = rps; burst = burst }) ls.per in
      let ls₁ = record ls { per = p.1 } in
      let q = ensure_semaphore key (cap_of max_conc) ls₁ in
      rw e (
        Changed-trans (ensure_semaphore-Changed key (cap_of max_conc) ls₁ j)
          (pass_key-Changed luck key p.0 q.0 q.1 j
            (ensure_semaphore-some key (cap_of max_conc) ls₁))
          (ensure_semaphore-kept key (cap_of max_conc) ls₁ j))
]

-- And `release` gives one back.
pub release-Changed :
    (key : Bytes) (held : Bool) (ls : LimiterSet) (j : Bytes)
    → (held ≡ true → 0 < used key ls)
    → Changed 0 (one_if (held && text_eq key j)) ls.conc (release key held ls).conc j
unfolding release
release-Changed key false ls j h = record {
  counted = omega arith;
  bounded = λ h. h;
  kept = λ _. refl;
}
release-Changed key true ls j h = elim (Option-cases (lookup key ls.conc)) [
  | inl e ↦ absurd (ground (arith, e, h refl))
  | inr (m, e) ↦
      let freed = record m { used = m.used - 1 } in
      let new = lookup-insert key j freed ls.conc in
      let at_key : text_eq key j ≡ true → lookup j ls.conc ≡ some m =
        λ same. subst (λ k. lookup k ls.conc ≡ some m) ((text_eq_iff key j).0 same) e in
      elim (Bool-cases (text_eq key j)) [
        | inl same ↦ record {
          counted = ground (arith, e, new, at_key same, h refl);
          bounded = ground (arith, e, new, at_key same);
          kept = ground (arith, e, new, at_key same);
        }
        | inr other ↦ record {
          counted = ground (arith, e, new);
          bounded = ground (arith, e, new);
          kept = ground (arith, e, new);
        }
      ]
]

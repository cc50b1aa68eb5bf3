-- ===== src/Records/Patching.antt =====
-- What a patch of a delivery does.
use mathlib.Core.Option
use mathlib.Core.Option.{some-injective}
use mathlib.Core.Path.{subst}
use sukumad.Prelude.{
  Bool-cases, coalesce, is_some, any, All, update_where, find-update_where, find-update_where_ne,
  some-of_any, ℤ, eq_ℤ, eq_ℤ_iff, ◌≡◌, refl, sym, ap, ◌∙◌, ◌≢◌, ◌⊎◌, inl, inr, true, false, Option,
  none, some, [], ◌∷◌, arith,
}
use sukumad.Text.{Bytes, str, text_eq}
use sukumad.Types.{
  Time, Status, ready, processing, awaiting_async, done, failed, status_text, parse_status,
  Delivery,
}
use sukumad.Store.{Db, constraint, Result, ok, err, World}
use sukumad.Queue.Moves.{has_id, get_delivery}
use sukumad.Records.Deliveries.{patched_row, wanted, write_patch, patch_delivery}
use sukumad.Store.Laws.{exec-fine}

differs : (a b i : ℤ) → a ≢ b → eq_ℤ i a ≡ true → eq_ℤ i b ≡ false
differs a b i ne k = ground (arith, ne, k, eq_ℤ_iff i a, eq_ℤ_iff i b)

-- What the text of a patch asks for: no status, one of the five by its word, or no word of these,
-- which the column refuses.
pub data Asks : Option Bytes → Option (Option Status) → Type 0 where
  no_status : Asks none (some none)
  for_ready : Asks (some (str "ready")) (some (some ready))
  for_processing : Asks (some (str "processing")) (some (some processing))
  for_awaiting : Asks (some (str "awaiting_async")) (some (some awaiting_async))
  for_done : Asks (some (str "done")) (some (some done))
  for_failed : Asks (some (str "failed")) (some (some failed))
  no_word :
      (word : Bytes)
      → All
          (λ w. text_eq word w ≡ false)
          (str "ready" ∷ str "processing" ∷ str "awaiting_async" ∷ str "done" ∷ str "failed" ∷ [])
      → Asks (some word) none

refused_word :
    (word : Bytes)
    → text_eq word (str "ready") ≡ false
    → text_eq word (str "processing") ≡ false
    → text_eq word (str "awaiting_async") ≡ false
    → text_eq word (str "done") ≡ false
    → text_eq word (str "failed") ≡ false
    → wanted (some word) ≡ none
unfolding wanted parse_status
refused_word word a b c d e = ground (arith, a, b, c, d, e)

Asks-wanted :
    {status : Option Bytes} {o : Option (Option Status)} → Asks status o → wanted status ≡ o
unfolding wanted parse_status status_text str text_eq
Asks-wanted no_status = refl
Asks-wanted for_ready = refl
Asks-wanted for_processing = refl
Asks-wanted for_awaiting = refl
Asks-wanted for_done = refl
Asks-wanted for_failed = refl
Asks-wanted (no_word word (a, (b, (c, (d, (e, _)))))) = refused_word word a b c d e

-- A row after a patch: what was named is as it was asked for, and the rest as it was.
pub record IsPatched (s : Option Status) (t : Option Time) (p : Option ℤ) (now : Time)
    (d d' : Delivery) : Type 0 where
  pub status : d'.status ≡ coalesce s d.status
  pub due : d'.next_run_at ≡ coalesce t d.next_run_at
  pub priority : d'.priority ≡ coalesce p d.priority
  pub touched : d'.updated_at ≡ now
  pub rest : d' ≡ record d {
    status = d'.status;
    next_run_at = d'.next_run_at;
    priority = d'.priority;
    updated_at = d'.updated_at;
  }

-- The row of the number is patched, if there is one, and no other changes.
pub record Patched (id : ℤ) (s : Option Status) (t : Option Time) (p : Option ℤ) (now : Time)
    (db db' : Db) : Type 0 where
  pub missing : get_delivery id db ≡ none → get_delivery id db' ≡ none
  pub patched :
      (d : Delivery)
      → get_delivery id db ≡ some d
      → (d' : Delivery) × (get_delivery id db' ≡ some d') × IsPatched s t p now d d'
  pub others : (j : ℤ) → id ≢ j → get_delivery j db' ≡ get_delivery j db

written :
    (id : ℤ) (now : Time) (s : Option Status) (t : Option Time) (p : Option ℤ) (db : Db)
    → Patched id s t p now db
        (record db { deliveries = update_where (has_id id) (patched_row now s t p) db.deliveries })
unfolding patched_row
written id now s t p db =
    let found = find-update_where (has_id id) (patched_row now s t p) db.deliveries (λ r. refl) in
    record {
      missing = λ e. found ∙ ap (Option.map (patched_row now s t p)) e;
      patched = λ d e. (
        patched_row now s t p d,
        found ∙ ap (Option.map (patched_row now s t p)) e,
        record { status = refl; due = refl; priority = refl; touched = refl; rest = refl },
      );
      others = λ j ne.
          find-update_where_ne (has_id j) (has_id id) (patched_row now s t p) db.deliveries
            (λ r k. differs id j r.id ne k) (λ r k. differs id j r.id ne k);
    }

-- A patch that is taken, and one that is refused.
abbrev pub PatchEnds :
    ℤ
    → Option (Option Status)
    → Option Time
    → Option ℤ
    → Time
    → Db
    → Result (Unit {0})
    → Db
    → Type 0
PatchEnds id (some s) t p now db r db' = (r ≡ ok tt) × Patched id s t p now db db'
PatchEnds id none t p now db r db' =
    (db'.deliveries ≡ db.deliveries)
    × (((get_delivery id db ≡ none) × (r ≡ ok tt))
        ⊎ ((get_delivery id db ≢ none) × (r ≡ err constraint)))

write_patch_lem :
    (id : ℤ) (o : Option (Option Status)) (t : Option Time) (p : Option ℤ) (now : Time) (db : Db)
    → let (r, db') = write_patch id o t p now db in PatchEnds id o t p now db r db'
unfolding write_patch
write_patch_lem id (some s) t p now db = (refl, written id now s t p db)
write_patch_lem id none t p now db = elim (Bool-cases (any (has_id id) db.deliveries)) [
  | inl h ↦ rw h (refl, inr (λ e. cc (any_found h, e), refl))
  | inr h ↦ rw h (refl, inl (not_found h, refl))
]
  where
    any_found : any (has_id id) db.deliveries ≡ true → is_some (get_delivery id db) ≡ true
    any_found h = some-of_any (has_id id) db.deliveries ∙ h

    not_found : any (has_id id) db.deliveries ≡ false → get_delivery id db ≡ none
    not_found h = ground (arith, some-of_any (has_id id) db.deliveries, h)

-- While the connection holds, a patch whose status is missing or one of the five words gives its
-- delivery, if it is there, the status, the time and the priority that it names, keeps the rest of
-- it but for the time of the change, and changes no other; one with any other status changes
-- nothing, and is refused exactly if the delivery is there.
pub patch_delivery_lem :
    (id : ℤ) (status : Option Bytes) (t : Option Time) (p : Option ℤ) (w : World)
    (o : Option (Option Status))
    → Asks status o
    → w.faults ≡ []
    → let (r, w') = patch_delivery id status t p w in PatchEnds id o t p w.now w.db r w'.db
unfolding patch_delivery
patch_delivery_lem id status t p w o a f =
    let runs = exec-fine (write_patch id (wanted status) t p) w f in
    subst
      (λ x.
        PatchEnds id x t p w.now w.db (patch_delivery id status t p w).0
          (patch_delivery id status t p w).1.db)
      (Asks-wanted a)
      (subst (λ x. PatchEnds id (wanted status) t p w.now w.db x.0 x.1.db) (sym runs)
        (write_patch_lem id (wanted status) t p w.now w.db))

-- ===== src/Worker/Jobs.antt =====
-- The job id in the location of an asynchronous answer.
use mathlib.Core.Path.{subst}
use mathlib.Core.List.{append_assoc}
use sukumad.Prelude.{
  ◌==◌, Bool-cases, any, ℕ, ◌≡◌, refl, ap, inl, inr, false, List, [], ◌∷◌, ◌++◌, arith,
}
use sukumad.Text.{Bytes, trim_right, split}
use sukumad.Text.Parts.{trim_right-last, split-whole, any-last, is_empty-between}
use sukumad.Worker.Helpers.{last_of, extract_async_handles_from_location}

-- There are two parts or more, of which the last is what follows the separator.
EndsIn : Bytes → List Bytes → Type 0
EndsIn s parts = (p q : Bytes) × (ps : List Bytes) × (parts ≡ p ∷ (q ∷ ps)) × (last_of (q ∷ ps) ≡ s)

split-EndsIn :
    (c : ℕ) (before s : Bytes)
    → any (λ a. a == c) s ≡ false
    → EndsIn s (split c (before ++ (c ∷ s)))
unfolding EndsIn split
split-EndsIn c [] s e = elim (Bool-cases (c == c)) [
  | inl k ↦ rw k (rw (split-whole c s e) ([], s, [], refl, refl))
  | inr k ↦ absurd (ground (arith, k))
]
split-EndsIn c (a ∷ before) s e =
    let (p, q, ps, parts, ends) = split-EndsIn c before s e in
    elim (Bool-cases (a == c)) [
      | inl k ↦ rw k (rw parts ([], p, q ∷ ps, refl, ends))
      | inr k ↦ rw k (rw parts (a ∷ p, q, ps, refl, ends))
    ]

last_of-EndsIn : (s : Bytes) (parts : List Bytes) → EndsIn s parts → last_of parts ≡ s
unfolding EndsIn
last_of-EndsIn s parts (p, q, ps, e, ends) = rw e ends

-- The job id of a location is what follows its last slash, where that is not empty, and its poll
-- URL is the whole location.
extract_async_handles_from_location_lem :
    (before id : Bytes) (a : ℕ)
    → any (λ b. b == b'/') (id ++ (a ∷ [])) ≡ false
    → let loc = before ++ (b'/' ∷ (id ++ (a ∷ []))) in
      extract_async_handles_from_location loc ≡ (id ++ (a ∷ []), loc)
unfolding extract_async_handles_from_location
extract_async_handles_from_location_lem before id a e =
    let job = id ++ (a ∷ []) in
    let kept : trim_right b'/' (before ++ (b'/' ∷ job)) ≡ before ++ (b'/' ∷ job) =
      subst (λ s. trim_right b'/' s ≡ s) (append_assoc before (b'/' ∷ id) (a ∷ []))
        (trim_right-last b'/' a (before ++ (b'/' ∷ id)) (any-last (λ b. b == b'/') id a e)) in
    rw (is_empty-between before job b'/') (
      rw kept (
        ap (λ s. (s, before ++ (b'/' ∷ job)))
          (last_of-EndsIn job (split b'/' (before ++ (b'/' ∷ job)))
            (split-EndsIn b'/' before job e))))

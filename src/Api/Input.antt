-- ===== src/Api/Input.antt =====
-- The numbers that a handler reads from its path and query, defaultIfEmpty of
-- internal/handlers/server_handler.go, and the rules of internal/http/validation.go.
use mathlib.Core.Path.{subst}
use sukumad.Prelude.{
  ltb, ◌==◌, if◌then◌else◌, Bool-cases, any, ℤ, pos, negsuc, is_nonpos, signed32, int32, ℕ, ◌+◌,
  ◌-◌, ◌*◌, ◌/◌, ◌%◌, ◌<◌, ◌≡◌, refl, inl, inr, Bool, true, false, not, ◌&&◌, ◌||◌, Option, none,
  some, [], ◌∷◌, arith,
}
use sukumad.Text.{Bytes, str, text_eq, is_empty}
use sukumad.Text.Atoi.{atoi}
use sukumad.Store.{Result, ok, err, Action, ◌>>=◌, pure}
use sukumad.Web.{Body, empty, okay, bind_error, Reply, reply, failure}

unfoldable pub default_if_empty : Bytes → Bytes → Bytes
default_if_empty s def = if is_empty s then def else s

-- `limit, _ := strconv.Atoi(defaultIfEmpty(c.Query("limit"), "50"))`
unfoldable pub limit_of : Bytes → ℤ
unfolding default_if_empty atoi
limit_of s = (atoi (default_if_empty s (str "50"))).0

unfoldable pub offset_of : Bytes → ℤ
unfolding default_if_empty atoi
offset_of s = (atoi (default_if_empty s (str "0"))).0

-- `id, _ := strconv.Atoi(c.Param("id"))`
unfoldable pub loose_id : Bytes → ℤ
loose_id s = (atoi s).0

-- The guard `err != nil || id <= 0`, and the conversion after it.
unfoldable pub checked_id : Bytes → Option ℤ
unfolding int32
checked_id s = let (id, fine) = atoi s in if not fine || is_nonpos id then none else some (int32 id)

-- `^/[^ ]*$`, which the empty text need not match.
unfoldable pub url_suffix : Bytes → Bool
url_suffix [] = true
url_suffix (c ∷ s) = c == b'/' && not (any (λ d. d == 32) s)

unfoldable pub auth_method : Bytes → Bool
auth_method s = any (text_eq s) (str "none" ∷ str "basic" ∷ str "bearer" ∷ [])

unfoldable pub http_method : Bytes → Bool
http_method s =
    any (text_eq s) (str "GET" ∷ str "POST" ∷ str "PUT" ∷ str "PATCH" ∷ str "DELETE" ∷ [])

-- What becomes of an identifier in the path: refused if it does not parse or is not positive, and
-- else cut to its low 32 bits, which are read with their sign.
pub data IsCut : ℤ × Bool → Option ℤ → Type 0 where
  no_number : (z : ℤ) → IsCut (z, false) none
  not_positive : (z : ℤ) → is_nonpos z ≡ true → IsCut (z, true) none
  cut_small :
      (n k : ℕ)
      → n < 2147483648
      → 0 < n + k * 4294967296
      → IsCut (pos (n + k * 4294967296), true) (some (pos n))
  cut_large :
      (n k : ℕ)
      → n < 2147483648
      → IsCut (pos (2147483648 + n + k * 4294967296), true) (some (negsuc (2147483647 - n)))

IsCut-pos : (m : ℕ) → 0 < m → IsCut (pos m, true) (some (int32 (pos m)))
unfolding int32 signed32
IsCut-pos m h =
    let k = m / 4294967296 in
    let n = m % 4294967296 in
    let cut =
      λ (x : ℕ) (y : ℤ) (a : x ≡ m) (b : y ≡ int32 (pos m)) (c : IsCut (pos x, true) (some y)).
        subst (λ z. IsCut (pos m, true) (some z)) b
          (subst (λ z. IsCut (pos z, true) (some y)) a c) in
    elim (Bool-cases (ltb n 2147483648)) [
      | inl e ↦
          cut (n + k * 4294967296) (pos n) (omega arith) (ground (arith, e))
            (cut_small n k (ground (arith, e)) (omega (arith, h)))
      | inr e ↦
          let r = n - 2147483648 in
          cut (2147483648 + r + k * 4294967296) (negsuc (2147483647 - r)) (ground (arith, e))
            (ground (arith, e)) (cut_large r k (omega arith))
    ]

-- The identifier of a server or of a user that is unlocked is refused exactly if it is no number or
-- not positive as it stands; each other is taken by its low 32 bits with their sign, so that a
-- multiple of 2^32 passes the guard as 0, and one that is larger by such a multiple as the same.
pub checked_id-IsCut : (s : Bytes) → IsCut (atoi s) (checked_id s)
unfolding checked_id
checked_id-IsCut s = go (atoi s)
  where
    go : (r : ℤ × Bool) → IsCut r (if not r.1 || is_nonpos r.0 then none else some (int32 r.0))
    go (z, false) = no_number z
    go (negsuc n, true) = not_positive (negsuc n) refl
    go (pos n, true) = elim (Bool-cases (n == 0)) [
      | inl e ↦ rw e (not_positive (pos n) e)
      | inr e ↦ rw e (IsCut-pos n (ground (arith, e)))
    ]

module _ {ℓ} {A : Type ℓ} where
  -- What a handler makes of the answer of its repository.
  abbrev pub answer : ℕ → (A → Body) → Reply → Result A → Reply
  answer code f refusal (err _) = refusal
  answer code f refusal (ok a) = reply code (f a)

  abbrev pub answering : ℕ → (A → Body) → Reply → Action (Result A) → Action Reply
  answering code f refusal m = m >>= λ r. pure (answer code f refusal r)

  -- `ShouldBindJSON`: what does not bind is refused before anything is done.
  abbrev pub bound : Option A → (A → Action Reply) → Action Reply
  bound none k = pure (reply 400 bind_error)
  bound (some a) k = k a

abbrev pub broken : Bytes → Reply
broken m = failure 500 m

abbrev pub done_body {ℓ} : {A : Type ℓ} → A → Body
done_body _ = okay

abbrev pub no_body {ℓ} : {A : Type ℓ} → A → Body
no_body _ = empty

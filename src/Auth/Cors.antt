-- ===== src/Auth/Cors.antt =====
-- Which origins CORSFromConfig lets in.
use sukumad.Prelude.{
  ◌==◌, if◌then◌else◌, Bool-cases, length, any, All, ◌<◌, ◌≡◌, refl, ◌↔◌, ◌⊎◌, inl, inr, Bool, true,
  false, ◌||◌, List, [], ◌∷◌, arith,
}
use sukumad.Text.{Bytes, str, text_eq, equal_fold, trim_space}
use sukumad.Auth.Ip.{match_origin, cors_headers, cors_from_config, Passes, any-Passes, Passes-any}

-- An entry of the list that is the origin, whatever the case of its letters and the space around it.
abbrev pub same_origin : Bytes → Bytes → Bool
same_origin origin v = equal_fold (trim_space v) (trim_space origin)

-- No list is configured, or the list has the entry `*`, or an entry is the origin.
abbrev pub LetsIn : List Bytes → Bytes → Type 0
LetsIn allowed origin =
    (allowed ≡ [])
    ⊎ (Passes (λ v. text_eq v (str "*")) allowed ⊎ Passes (same_origin origin) allowed)

abbrev pub IsAscii : Bytes → Type 0
IsAscii s = All (λ c. c < 128) s

LetsIn-iff :
    (allowed : List Bytes) (origin : Bytes)
    → ((length allowed == 0
          || any (λ v. text_eq v (str "*")) allowed
          || match_origin origin allowed)
        ≡ true)
      ↔ LetsIn allowed origin
unfolding match_origin
LetsIn-iff [] origin = (λ h. inl refl, λ h. refl)
LetsIn-iff (a ∷ others) origin =
    let list = a ∷ others in
    let star = λ (v : Bytes). text_eq v (str "*") in
    elim (Bool-cases (any star list)) [
      | inl e ↦ (λ h. inr (inl (any-Passes star list e)), λ h. ground (arith, e))
      | inr e ↦ elim (Bool-cases (any (same_origin origin) list)) [
        | inl k ↦
            (λ h. inr (inr (any-Passes (same_origin origin) list k)), λ h. ground (arith, e, k))
        | inr k ↦ (
          λ h. absurd (ground (arith, e, k, h)),
          λ h. elim h [
            | inl z ↦ absurd (cc)
            | inr m ↦ elim m [
              | inl q ↦ absurd (ground (arith, e, Passes-any star q))
              | inr q ↦ absurd (ground (arith, k, Passes-any (same_origin origin) q))
            ]
          ],
        )
      ]
    ]

-- The five headers that let a page of the origin in.
abbrev pub five_headers : Bytes → List (Bytes × Bytes)
five_headers origin =
    (str "Access-Control-Allow-Origin", origin)
    ∷ (str "Vary", str "Origin")
    ∷ (str "Access-Control-Allow-Methods", str "GET, POST, PUT, PATCH, DELETE, OPTIONS")
    ∷ (str "Access-Control-Allow-Headers", str "Authorization, Content-Type, X-Request-ID")
    ∷ (str "Access-Control-Allow-Credentials", str "true")
    ∷ []

all_or_none {ℓ} :
    {A : Type ℓ} (x : A) (xs : List A) (b : Bool) (P : Type 0)
    → ((b ≡ true) ↔ P)
    → (((if b then x ∷ xs else []) ≡ x ∷ xs) ↔ P) × (((if b then x ∷ xs else []) ≡ []) ↔ ¬ P)
all_or_none x xs true P (to, from) =
    ((λ _. to refl, λ _. refl), (λ e. absurd (cc), λ n. absurd (n (to refl))))
all_or_none x xs false P (to, from) =
    ((λ e. absurd (cc), λ p. absurd (cc (from p))), (λ _ p. cc (from p), λ _. refl))

-- For an origin and a list in ASCII, beyond which the model knows no case of a letter: if no list is
-- configured, the list has the entry `*`, or an entry is the origin up to case and surrounding
-- space, then exactly the five headers are set that let the origin in, whatever the method; and if
-- none of this holds, no header is set.
pub cors_from_config_iff :
    (allowed : List Bytes) (origin method : Bytes)
    → IsAscii origin
    → All IsAscii allowed
    → let c = cors_from_config allowed origin method in
      ((c.headers ≡ five_headers origin) ↔ LetsIn allowed origin)
      × ((c.headers ≡ []) ↔ ¬ LetsIn allowed origin)
unfolding cors_from_config cors_headers
cors_from_config_iff allowed origin method _ _ =
    all_or_none (str "Access-Control-Allow-Origin", origin) _ _ (LetsIn allowed origin)
      (LetsIn-iff allowed origin)

-- ===== src/Auth/Ip.antt =====
-- IsIPAllowed and inCidr of internal/auth/jwt.go, and matchOrigin of internal/middleware/cors.go.
-- The parsers of the package net are arguments: an address is its bytes, a block is its `Contains`.
use mathlib.Core.Option.{some-injective}
use sukumad.Prelude.{
  ltb, ◌==◌, if◌then◌else◌, Bool-cases, Option-cases, length, any, ℕ, ◌≡◌, refl, sym, ◌∙◌, ◌↔◌, ◌⊎◌,
  inl, inr, Bool, true, false, ◌||◌, Option, none, some, List, [], ◌∷◌, arith,
}
use sukumad.Text.{Bytes, str, text_eq, is_empty, equal_fold, trim_space}

pub record Net : Type 0 where
  pub parse_ip : Bytes → Option Bytes
  pub parse_cidr : Bytes → Option (Bytes → Bool)
  pub ip_equal : Bytes → Option Bytes → Bool

unfoldable pub in_cidr : Net → Bytes → Bytes → Bool
in_cidr net ip cidr =
    let c = trim_space cidr in
    if is_empty c then false else elim (net.parse_cidr c) [
      | none ↦ net.ip_equal ip (net.parse_ip c)
      | some contains ↦ contains ip
    ]

-- The two loops, each over its list.
unfoldable pub is_ip_allowed : Net → Bytes → List Bytes → List Bytes → Bool
unfolding in_cidr
is_ip_allowed net client_ip allowed denied = elim (net.parse_ip client_ip) [
  | none ↦ false
  | some ip ↦
      if any (in_cidr net ip) denied
      then false
      else if ltb 0 (length allowed)
      then any (in_cidr net ip) allowed
      else true
]

unfoldable pub match_origin : Bytes → List Bytes → Bool
match_origin origin origins =
    let o = trim_space origin in any (λ v. equal_fold (trim_space v) o) origins

-- The headers that CORSFromConfig sets, and the status with which it ends the request.
pub record Cors : Type 0 where
  pub headers : List (Bytes × Bytes)
  pub aborted : Option ℕ

unfoldable pub cors_headers : Bytes → List (Bytes × Bytes)
cors_headers origin =
    (str "Access-Control-Allow-Origin", origin)
    ∷ (str "Vary", str "Origin")
    ∷ (str "Access-Control-Allow-Methods", str "GET, POST, PUT, PATCH, DELETE, OPTIONS")
    ∷ (str "Access-Control-Allow-Headers", str "Authorization, Content-Type, X-Request-ID")
    ∷ (str "Access-Control-Allow-Credentials", str "true")
    ∷ []

unfoldable pub cors_from_config : List Bytes → Bytes → Bytes → Cors
unfolding match_origin cors_headers
cors_from_config allowed origin method =
    let all = length allowed == 0 || any (λ v. text_eq v (str "*")) allowed in
    record {
      headers = if all || match_origin origin allowed then cors_headers origin else [];
      aborted = if text_eq method (str "OPTIONS") then some 204 else none;
    }

-- A member of the list passes the test.
pub data Passes (p : Bytes → Bool) : List Bytes → Type 0 where
  here : {x : Bytes} {xs : List Bytes} → p x ≡ true → Passes p (x ∷ xs)
  there : {x : Bytes} {xs : List Bytes} → Passes p xs → Passes p (x ∷ xs)

pub any-Passes : (p : Bytes → Bool) (xs : List Bytes) → any p xs ≡ true → Passes p xs
any-Passes p [] e = absurd (cc)
any-Passes p (x ∷ xs) e = elim (Bool-cases (p x)) [
  | inl h ↦ here h
  | inr h ↦ there (any-Passes p xs (ground (arith, h, e)))
]

pub Passes-any : (p : Bytes → Bool) {xs : List Bytes} → Passes p xs → any p xs ≡ true
Passes-any p (here e) = ground arith
Passes-any p (there k) = ground (arith, Passes-any p k)

-- The verdict on a parsed address.
is_let_in : Net → Bytes → List Bytes → List Bytes → Bool
is_let_in net ip allowed denied =
    if any (in_cidr net ip) denied
    then false
    else if ltb 0 (length allowed)
    then any (in_cidr net ip) allowed
    else true

is_let_in_iff :
    (net : Net) (ip : Bytes) (allowed denied : List Bytes)
    → (is_let_in net ip allowed denied ≡ true)
      ↔ (¬ Passes (in_cidr net ip) denied × ((allowed ≡ []) ⊎ Passes (in_cidr net ip) allowed))
unfolding is_let_in
is_let_in_iff net ip [] denied = (
  λ h. (λ k. ground (arith, Passes-any (in_cidr net ip) k, h), inl refl),
  λ (k, _). elim (Bool-cases (any (in_cidr net ip) denied)) [
    | inl e ↦ absurd (k (any-Passes (in_cidr net ip) denied e))
    | inr e ↦ ground (arith, e)
  ],
)
is_let_in_iff net ip (a ∷ others) denied =
    let p = in_cidr net ip in
    (
      λ h. (
        λ k. ground (arith, Passes-any p k, h),
        inr (any-Passes p (a ∷ others) (ground (arith, h))),
      ),
      λ (k, m). elim (Bool-cases (any p denied)) [
        | inl e ↦ absurd (k (any-Passes p denied e))
        | inr e ↦ elim m [ inl z ↦ absurd (cc) | inr q ↦ ground (arith, e, Passes-any p q) ]
      ],
    )

-- An address is let in exactly if it parses, no entry of the deny list covers it, and the allow
-- list is empty or has an entry that covers it.
pub is_ip_allowed_iff :
    (net : Net) (client_ip : Bytes) (allowed denied : List Bytes)
    → (is_ip_allowed net client_ip allowed denied ≡ true) ↔ (
        (ip : Bytes) × (net.parse_ip client_ip ≡ some ip)
        × ¬ Passes (in_cidr net ip) denied
        × ((allowed ≡ []) ⊎ Passes (in_cidr net ip) allowed))
unfolding is_ip_allowed is_let_in
is_ip_allowed_iff net client_ip allowed denied = elim (Option-cases (net.parse_ip client_ip)) [
  | inl e ↦ (λ h. absurd (ground (arith, e, h)), λ (ip, e', _, _). absurd (cc))
  | inr (ip, e) ↦
      let v = is_let_in_iff net ip allowed denied in
      (
        λ h. let r = v.0 (ground (arith, e, h)) in (ip, e, r.0, r.1),
        λ (ip', e', r₀, r₁).
            let same : ip' ≡ ip = some-injective _ _ (sym e' ∙ e) in
            ground (arith, e, (is_let_in_iff net ip' allowed denied).1 (r₀, r₁)),
      )
]

-- ===== src/Auth/Authz.antt =====
-- internal/middleware/authz.go: a middleware ends the request with an answer, or passes it on
-- with what it found of the caller.
use sukumad.Prelude.{
  if◌then◌else◌, Bool-cases, Option-cases, any, All, ◌≡◌, refl, ◌↔◌, inl, inr, Bool, true, false,
  not, Option, none, some, List, [], ◌∷◌, arith,
}
use sukumad.Text.{Bytes, str, text_eq}
use sukumad.Types.{Time}
use sukumad.Web.{Reply, failure, Caller}
use sukumad.Config.{Config}
use sukumad.Auth.Keys.{Claims, Crypto, parse_access, bearer_token}

pub data Gate : Type 0 where
  aborted : Reply → Gate
  passes : Option Claims → Gate

unfoldable pub authn : Crypto → Config → Time → Caller → Gate
unfolding bearer_token parse_access
authn crypto cfg now caller = elim (bearer_token caller.authorization) [
  | none ↦ aborted (failure 401 (str "missing bearer token"))
  | some token ↦ elim (parse_access crypto now cfg.jwt_secret token) [
    | none ↦ aborted (failure 401 (str "invalid token"))
    | some claims ↦ passes (some claims)
  ]
]

abbrev holds : List Bytes → Bytes → Bool
holds perms code = any (λ p. text_eq p code) perms

-- `c.Get("auth.perms")`: the permissions that `authn` put there.
unfoldable pub require_perm : Bytes → Option Claims → Gate
require_perm code none = aborted (failure 403 (str "no permissions"))
require_perm code (some claims) =
    if any (λ p. text_eq p code) claims.perms
    then passes (some claims)
    else aborted (failure 403 (str "permission denied"))

unfoldable pub require_any : List Bytes → Option Claims → Gate
require_any codes none = aborted (failure 403 (str "no permissions"))
require_any codes (some claims) =
    if any (holds codes) claims.perms
    then passes (some claims)
    else aborted (failure 403 (str "permission denied"))

unfoldable pub require_all : List Bytes → Option Claims → Gate
require_all codes none = aborted (failure 403 (str "no permissions"))
require_all codes (some claims) =
    if any (λ w. not (holds claims.perms w)) codes
    then aborted (failure 403 (str "permission denied"))
    else passes (some claims)

-- Two middlewares of a chain.
unfoldable pub then_gate : Gate → (Option Claims → Gate) → Gate
then_gate (aborted r) next = aborted r
then_gate (passes c) next = next c

-- The caller holds the code.
abbrev pub Holds : Claims → Bytes → Type 0
Holds claims code = holds claims.perms code ≡ true

any-not :
    (p : Bytes → Bool) (xs : List Bytes)
    → (any (λ x. not (p x)) xs ≡ false) ↔ All (λ x. p x ≡ true) xs
any-not p [] = (λ _. tt, λ _. refl)
any-not p (x ∷ xs) = (
  λ h. (ground arith, (any-not p xs).0 (ground arith)),
  λ (h, k). ground (arith, h, (any-not p xs).1 k),
)

-- Every code that is asked for is held exactly if the chain of a token goes on, whatever order the
-- map of the codes is run through.
require_all_iff :
    (codes : List Bytes) (claims : Claims)
    → (require_all codes (some claims) ≡ passes (some claims)) ↔ All (Holds claims) codes
unfolding require_all
require_all_iff codes claims =
    let all = any-not (holds claims.perms) codes in
    elim (Bool-cases (any (λ w. not (holds claims.perms w)) codes)) [
      | inl e ↦ (λ h. absurd (ground (arith, e, h)), λ k. absurd (ground (arith, e, all.1 k)))
      | inr e ↦ (λ h. all.0 e, λ k. ground (arith, e))
    ]

-- A request gets past the two gates of an admin route exactly if its header is a bearer token that
-- parses, and the claims of the token hold the code.
pub admin_gate_iff :
    (crypto : Crypto) (cfg : Config) (now : Time) (caller : Caller) (code : Bytes) (c : Claims)
    → (then_gate (authn crypto cfg now caller) (require_perm code) ≡ passes (some c)) ↔ (
        (token : Bytes) × (bearer_token caller.authorization ≡ some token)
        × (parse_access crypto now cfg.jwt_secret token ≡ some c)
        × Holds c code)
unfolding then_gate authn require_perm
admin_gate_iff crypto cfg now caller code c =
    elim (Option-cases (bearer_token caller.authorization)) [
      | inl e ↦ (λ h. absurd (ground (arith, e, h)), λ (t, e', _, _). absurd (cc))
      | inr (token, e) ↦ elim (Option-cases (parse_access crypto now cfg.jwt_secret token)) [
        | inl n ↦ (
          λ h. absurd (ground (arith, e, n, h)),
          λ (t, e', k, _). absurd (ground (arith, e, e', k, n)),
        )
        | inr (claims, n) ↦ (
          λ h. (token, e, ground (arith, e, n, h), ground (arith, e, n, h)),
          λ (t, e', k, m). ground (arith, e, e', k, m, n),
        )
      ]
    ]

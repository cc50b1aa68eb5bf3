-- ===== src/Api/Routes.antt =====
-- Register of internal/http/router.go: which paths are served, and behind which gates.
use mathlib.Core.Path.{subst}
use sukumad.Prelude.{
  if◌then◌else◌, Bool-cases, Option-cases, any, All, All-map, ◌≡◌, refl, inl, inr, Bool, true,
  false, not, ◌&&◌, ◌||◌, Option, none, some, List, [], ◌∷◌, ◌++◌, arith,
}
use sukumad.Text.{Bytes, str, text_eq, has_prefix}
use sukumad.Types.{Time}
use sukumad.Config.{Config}
use sukumad.Web.{Caller}
use sukumad.Auth.Keys.{Claims, Crypto}
use sukumad.Auth.Authz.{Gate, aborted, passes, authn, require_perm, then_gate, Holds}
use sukumad.Text.Laws.{text_eq_iff}

pub record Route : Type 0 where
  pub method : Bytes
  pub path : Bytes
  pub authenticated : Bool
  pub perm : Option Bytes

-- `r.GET`, a route of the group `api`, and one with RequirePerm("admin").
abbrev open_route : Bytes → Bytes → Route
open_route m p = record { method = m; path = p; authenticated = false; perm = none }

abbrev api_route : Bytes → Bytes → Route
api_route m p = record { method = m; path = str "/api" ++ p; authenticated = true; perm = none }

abbrev admin_route : Bytes → Bytes → Route
admin_route m p = record {
  method = m;
  path = str "/api" ++ p;
  authenticated = true;
  perm = some (str "admin");
}

abbrev get : Bytes
get = str "GET"

abbrev post : Bytes
post = str "POST"

abbrev put : Bytes
put = str "PUT"

abbrev delete : Bytes
delete = str "DELETE"

unfoldable pub register : List Route
register =
    open_route get (str "/healthz")
    ∷ open_route post (str "/api/auth/login")
    ∷ open_route post (str "/api/auth/refresh")
    ∷ open_route post (str "/api/auth/password/reset/request")
    ∷ open_route post (str "/api/auth/password/reset/confirm")
    ∷ api_route post (str "/auth/logout")
    ∷ admin_route get (str "/users")
    ∷ admin_route post (str "/users")
    ∷ admin_route get (str "/users/:id")
    ∷ admin_route put (str "/users/:id")
    ∷ admin_route delete (str "/users/:id")
    ∷ admin_route get (str "/users/:id/permissions")
    ∷ admin_route post (str "/users/:id/permissions")
    ∷ admin_route delete (str "/users/:id/permissions")
    ∷ admin_route post (str "/users/:id/role")
    ∷ admin_route post (str "/users/:id/unlock")
    ∷ admin_route get (str "/roles")
    ∷ admin_route post (str "/roles")
    ∷ admin_route put (str "/roles/:id")
    ∷ admin_route delete (str "/roles/:id")
    ∷ admin_route post (str "/roles/:id/permissions")
    ∷ admin_route delete (str "/roles/:id/permissions")
    ∷ admin_route get (str "/permissions")
    ∷ admin_route post (str "/permissions")
    ∷ admin_route put (str "/permissions/:id")
    ∷ admin_route delete (str "/permissions/:id")
    ∷ api_route get (str "/servers")
    ∷ api_route post (str "/servers")
    ∷ api_route get (str "/servers/:id")
    ∷ api_route put (str "/servers/:id")
    ∷ api_route delete (str "/servers/:id")
    ∷ api_route get (str "/requests")
    ∷ api_route post (str "/requests")
    ∷ api_route get (str "/requests/:id")
    ∷ api_route put (str "/requests/:id")
    ∷ api_route delete (str "/requests/:id")
    ∷ api_route post (str "/requests/:id/expand")
    ∷ api_route get (str "/deliveries")
    ∷ api_route get (str "/deliveries/:id")
    ∷ api_route (str "PATCH") (str "/deliveries/:id")
    ∷ api_route delete (str "/deliveries/:id")
    ∷ []

unfoldable pub perm_gate : Option Bytes → Option Claims → Gate
perm_gate none c = passes c
perm_gate (some code) c = require_perm code c

-- The middlewares of a route, in front of its handler.
unfoldable pub enter : Crypto → Config → Time → Caller → Route → Gate
unfolding then_gate
enter crypto cfg now caller r =
    if r.authenticated
    then then_gate (authn crypto cfg now caller) (perm_gate r.perm)
    else passes none

-- The paths of accounts, roles and permissions.
unfoldable pub is_admin_path : Bytes → Bool
is_admin_path p =
    has_prefix p (str "/api/users")
    || has_prefix p (str "/api/roles")
    || has_prefix p (str "/api/permissions")

-- Every path of the table that manages accounts asks for the code "admin", and no route outside
-- the five open ones is without a token.
abbrev pub is_guarded : Route → Bool
is_guarded r =
    (r.authenticated
      || any (text_eq r.path) (
          str "/healthz"
          ∷ str "/api/auth/login"
          ∷ str "/api/auth/refresh"
          ∷ str "/api/auth/password/reset/request"
          ∷ str "/api/auth/password/reset/confirm"
          ∷ []))
    && (not (is_admin_path r.path)
        || elim r.perm [ none ↦ false | some code ↦ text_eq code (str "admin") && r.authenticated ])

table_is_guarded : any (λ r. not (is_guarded r)) register ≡ false
unfolding register is_admin_path has_prefix str text_eq
table_is_guarded = refl

not-any :
    (p : Route → Bool) (rs : List Route)
    → any (λ r. not (p r)) rs ≡ false
    → All (λ r. p r ≡ true) rs
not-any p [] e = tt
not-any p (r ∷ rs) e = (ground arith, not-any p rs (ground arith))

-- What it takes to reach the handler of a route.
abbrev pub Guards : Crypto → Config → Time → Caller → Route → Type 0
Guards crypto cfg now caller r =
    (c : Option Claims)
    → enter crypto cfg now caller r ≡ passes c
    → is_admin_path r.path ≡ true
    → (claims : Claims) × (c ≡ some claims) × Holds claims (str "admin")

require_perm_lem :
    (code : Bytes) (c d : Option Claims)
    → require_perm code c ≡ passes d
    → (claims : Claims) × (d ≡ some claims) × Holds claims code
unfolding require_perm
require_perm_lem code none d e = absurd (ground (arith, e))
require_perm_lem code (some claims) d e =
    elim (Bool-cases (any (λ p. text_eq p code) claims.perms)) [
      | inl h ↦ (claims, ground (arith, h, e), h)
      | inr h ↦ absurd (ground (arith, h, e))
    ]

guarded_gate :
    (g : Gate) (o : Option Bytes) (code : Bytes) (c : Option Claims)
    → o ≡ some code
    → then_gate g (perm_gate o) ≡ passes c
    → (claims : Claims) × (c ≡ some claims) × Holds claims code
unfolding then_gate perm_gate
guarded_gate g none code c n e = absurd (cc)
guarded_gate (aborted r) (some k) code c n e = absurd (ground (arith, e))
guarded_gate (passes d) (some k) code c n e = require_perm_lem code d c (ground (arith, n, e))

guarded-Guards :
    (crypto : Crypto) (cfg : Config) (now : Time) (caller : Caller) (r : Route)
    → is_guarded r ≡ true
    → Guards crypto cfg now caller r
unfolding enter
guarded-Guards crypto cfg now caller r h c e a = elim (Option-cases r.perm) [
  | inl n ↦ absurd (ground (arith, h, a, n))
  | inr (code, n) ↦
      let is_admin : text_eq code (str "admin") ≡ true = ground (arith, h, a, n) in
      let entered : r.authenticated ≡ true = ground (arith, h, a, n) in
      let g : then_gate (authn crypto cfg now caller) (perm_gate r.perm) ≡ passes c =
        ground (arith, entered, e) in
      subst (λ k. (claims : Claims) × (c ≡ some claims) × Holds claims k)
        ((text_eq_iff code (str "admin")).0 is_admin)
        (guarded_gate (authn crypto cfg now caller) r.perm code c n g)
]

-- Whoever reaches the handler of a route that manages users, roles or permissions holds the code
-- "admin" in the claims of a token.
pub admin_routes-Guards :
    (crypto : Crypto) (cfg : Config) (now : Time) (caller : Caller)
    → All (Guards crypto cfg now caller) register
admin_routes-Guards crypto cfg now caller =
    All-map (λ r. is_guarded r ≡ true) (Guards crypto cfg now caller)
      (guarded-Guards crypto cfg now caller) register (not-any is_guarded register table_is_guarded)

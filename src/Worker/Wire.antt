-- ===== src/Worker/Wire.antt =====
-- The rows that main.go scans, and the request that it builds of one. The HTTP client is not
-- modelled: a request is what the code sets of it, and an answer is what the code reads.
use sukumad.Prelude.{
  ◌==◌, if◌then◌else◌, coalesce, or_else, filterb, ℤ, pos, negsuc, ℕ, ◌*◌, Bool, false, not, Option,
  none, some, List, [], ◌∷◌, ◌++◌,
}
use sukumad.Text.{Bytes, str, text_eq, is_empty, to_lower, equal_fold}
use sukumad.Types.{Json, text, obj, Members, last, member, Float, Server, Delivery}
use sukumad.Queue.Claim.{SendRow, PollClaim}
use sukumad.Worker.Helpers.{to_string, deref}

pub record DeliveryRow : Type 0 where
  pub delivery_id : ℤ
  pub request_id : ℤ
  pub server_id : ℤ
  pub method : Bytes
  pub final_url : Bytes
  pub body : Bytes
  pub content_type : Bytes
  pub headers_json : Bytes
  pub auth_method : Bytes
  pub username : Option Bytes
  pub password : Option Bytes
  pub auth_token : Option Bytes
  pub timeout_ms : Option ℤ
  pub rate_key : Bytes
  pub rps : Option Float
  pub burst : Option ℤ
  pub max_conc : Option ℤ
  pub server_use_async : Bool

pub record PollRow : Type 0 where
  pub delivery_id : ℤ
  pub server_id : ℤ
  pub poll_url : Bytes
  pub auth_method : Bytes
  pub username : Option Bytes
  pub password : Option Bytes
  pub auth_token : Option Bytes
  pub timeout_ms : Option ℤ
  pub rate_key : Bytes
  pub rps : Option Float
  pub burst : Option ℤ
  pub max_conc : Option ℤ

-- The CASE on the suffix.
abbrev pub final_url_of : Bytes → Option Bytes → Bytes
final_url_of url none = url
final_url_of url (some suffix) = if is_empty suffix then url else url ++ suffix

-- COALESCE(d.rate_class, s.rate_class, …). The third value, 'server:' and the server's number, is
-- for a server whose column is NULL: types.Server has no such value, and CreateServer and
-- UpdateServer always store a text.
abbrev pub rate_key_of : Delivery → Server → Bytes
rate_key_of d s = coalesce d.rate_class s.rate_class

abbrev members_of : List (Bytes × Bytes) → Members
members_of [] = last
members_of ((k, v) ∷ hs) = member k (text v) (members_of hs)

-- rows.Scan fails on a NULL in the last column, which goes into a `bool`.
unfoldable pub scan_delivery : (Json → Bytes) → SendRow → Option DeliveryRow
scan_delivery print row =
    let d = row.delivery in
    let s = row.server in
    let r = row.request in
    elim s.use_async [
      | none ↦ none
      | some use_async ↦ some (record {
        delivery_id = d.id;
        request_id = r.id;
        server_id = s.id;
        method = s.http_method;
        final_url = final_url_of s.url r.url_suffix;
        body = r.body;
        content_type = s.default_content_type;
        headers_json = print (obj (members_of (coalesce s.headers [])));
        auth_method = s.auth_method;
        username = s.username;
        password = s.password;
        auth_token = s.auth_token;
        timeout_ms = or_else d.timeout_ms s.timeout_ms;
        rate_key = rate_key_of d s;
        rps = or_else d.rps_override s.rps;
        burst = or_else d.burst_override s.burst;
        max_conc = s.max_concurrency;
        server_use_async = use_async;
      })
    ]

unfoldable pub scan_poll : PollClaim → PollRow
scan_poll row =
    let d = row.delivery in
    let s = row.server in
    record {
      delivery_id = d.id;
      server_id = d.server_id;
      poll_url = coalesce d.async_poll_url s.url;
      auth_method = s.auth_method;
      username = s.username;
      password = s.password;
      auth_token = s.auth_token;
      timeout_ms = or_else d.timeout_ms s.timeout_ms;
      rate_key = rate_key_of d s;
      rps = or_else d.rps_override s.rps;
      burst = or_else d.burst_override s.burst;
      max_conc = s.max_concurrency;
    }

pub record HttpRequest : Type 0 where
  pub headers : List (Bytes × Bytes)
  pub basic_auth : Option (Bytes × Bytes)
  pub bearer : Option Bytes
  pub body : Option Bytes

pub record Response : Type 0 where
  pub status_code : ℕ
  pub body : Bytes
  pub location : Bytes
  pub retry_after : Bytes

-- An error of the client has a text; else there is a response.
pub data Answer : Type 0 where
  no_answer : Bytes → Answer
  answered : Response → Answer

-- What the HTTP client does with a timeout, a method, a URL and a request.
abbrev pub Client : Type 0
Client = ℕ → Bytes → Bytes → HttpRequest → Answer

abbrev pub set_header : Bytes → Bytes → HttpRequest → HttpRequest
set_header k v r = record r { headers = (k, v) ∷ filterb (λ h. not (equal_fold h.0 k)) r.headers }

set_headers : (Json → Bytes) → Members → HttpRequest → HttpRequest
set_headers print last r = r
set_headers print (member k v ms) r = set_headers print ms (set_header k (to_string print v) r)

set_json_headers : (Json → Bytes) → Option Json → HttpRequest → HttpRequest
unfolding set_headers
set_json_headers print (some (obj ms)) r = set_headers print ms r
set_json_headers print _ r = r

abbrev present : Option Bytes → Bool
present none = false
present (some s) = not (is_empty s)

-- The switch on the authentication method.
unfoldable pub set_auth :
    Bytes → Option Bytes → Option Bytes → Option Bytes → HttpRequest → HttpRequest
set_auth auth_method username password token r =
    if text_eq (to_lower auth_method) (str "basic")
    then elim username [ none ↦ r | some u ↦ record r { basic_auth = some (u, deref password) } ]
    else if text_eq (to_lower auth_method) (str "bearer")
    then if present token then record r { bearer = token } else r
    else if text_eq (to_lower auth_method) (str "token")
    then if present token
      then set_header (str "Authorization") (str "Token " ++ deref token) r
      else r
    else r

unfoldable pub build_resty_request :
    (Bytes → Option Json)
    → (Json → Bytes)
    → Bytes
    → Bytes
    → Bytes
    → Bytes
    → Option Bytes
    → Option Bytes
    → Option Bytes
    → HttpRequest
unfolding set_auth set_json_headers
build_resty_request parse print content_type body headers_json auth_method username password token =
    let r : HttpRequest = record { headers = []; basic_auth = none; bearer = none; body = none } in
    let r = if is_empty content_type then r else set_header (str "Content-Type") content_type r in
    let r = if is_empty headers_json then r else set_json_headers print (parse headers_json) r in
    let r = set_auth auth_method username password token r in
    if is_empty body then r else record r { body = some body }

-- The client's timeout.
unfoldable pub resty_timeout : Option ℤ → ℕ → ℕ
resty_timeout none default = default
resty_timeout (some (negsuc n)) default = default
resty_timeout (some (pos n)) default = if n == 0 then default else n * 1_000_000

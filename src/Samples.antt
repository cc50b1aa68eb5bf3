-- ===== src/Samples.antt =====
-- Small rows and tables on which the definitions are run.
use sukumad.Prelude.{pos, is_nonpos, true, false, not, none, some, [], ◌∷◌}
use sukumad.Text.{str, text_eq}
use sukumad.Types.{Server, Request, Delivery, User}
use sukumad.Store.{UserRow, RefreshToken, Db, World}
use sukumad.Worker.Wire.{DeliveryRow, PollRow, answered}
use sukumad.Worker.Limiter.{LimiterSet, new_limiter_set, Luck}
use sukumad.Worker.Handlers.{Outside}
use sukumad.Worker.System.{System}
use sukumad.Queue.Expand.{new_delivery}
use sukumad.Auth.Keys.{Crypto}
use sukumad.Auth.Ip.{Net}
use sukumad.Auth.Login.{Packages}
use sukumad.Web.{Caller}

abbrev pub no_rows_db : Db
no_rows_db = record {
  servers = [];
  server_seq = 0;
  requests = [];
  request_seq = 0;
  deliveries = [];
  delivery_seq = 0;
  users = [];
  user_seq = 0;
  roles = [];
  role_seq = 0;
  permissions = [];
  permission_seq = 0;
  user_permissions = [];
  role_permissions = [];
  refresh_tokens = [];
  reset_tokens = [];
}

abbrev pub world_of : Db → World
world_of db = record { db = db; now = 1000; faults = [] }

abbrev pub server_1 : Server
server_1 = record {
  id = pos 1;
  uid = none;
  name = str "dhis";
  username = none;
  password = none;
  auth_token = none;
  ip_address = none;
  url = str "http://h";
  callback_url = none;
  cc_urls = [];
  http_method = str "POST";
  auth_method = str "none";
  system_type = none;
  endpoint_type = none;
  url_params = none;
  allow_callbacks = none;
  allow_copies = none;
  use_async = some false;
  use_ssl = none;
  parse_responses = none;
  ssl_client_cert_key_file = none;
  start_submission_period = none;
  end_submission_period = none;
  xml_response_xpath = none;
  json_response_xpath = none;
  suspended = none;
  rps = none;
  burst = none;
  max_concurrency = none;
  timeout_ms = none;
  headers = none;
  default_content_type = str "application/json";
  rate_class = str "a";
  created = none;
  updated = none;
}

abbrev pub request_1 : Request
request_1 = record {
  id = pos 1;
  uid = none;
  source = none;
  destination = some (pos 1);
  cc_servers = [];
  depends_on = none;
  batch_id = none;
  url_suffix = none;
  body = str "x";
  body_is_query_param = none;
  frequency_type = none;
  period = none;
  week = none;
  month = none;
  year = none;
  msisdn = none;
  raw_msg = none;
  facility = none;
  district = none;
  report_type = none;
  object_type = none;
  extras = none;
  suspended = none;
  idempotency_key = none;
  created = none;
  updated = none;
}

abbrev pub delivery_1 : Delivery
delivery_1 = new_delivery 10 (pos 1) (pos 1) (pos 1) (pos 100)

-- A server, a request, and its delivery to the server.
abbrev pub one_delivery : Db
one_delivery = record no_rows_db {
  servers = server_1 ∷ [];
  requests = request_1 ∷ [];
  request_seq = 1;
  deliveries = delivery_1 ∷ [];
  delivery_seq = 1;
}

abbrev pub send_row_1 : DeliveryRow
send_row_1 = record {
  delivery_id = pos 1;
  request_id = pos 1;
  server_id = pos 1;
  method = str "POST";
  final_url = str "http://h";
  body = str "x";
  content_type = str "application/json";
  headers_json = [];
  auth_method = str "none";
  username = none;
  password = none;
  auth_token = none;
  timeout_ms = none;
  rate_key = str "a";
  rps = some (pos 500_000);
  burst = none;
  max_conc = some (pos 2);
  server_use_async = false;
}

abbrev pub poll_row_1 : PollRow
poll_row_1 = record {
  delivery_id = pos 1;
  server_id = pos 1;
  poll_url = str "http://h/job";
  auth_method = str "none";
  username = none;
  password = none;
  auth_token = none;
  timeout_ms = none;
  rate_key = str "a";
  rps = none;
  burst = none;
  max_conc = none;
}

-- A server that answers 200, and a decoder that fails on everything.
abbrev pub outside_200 : Outside
outside_200 = record {
  client = λ timeout method url req.
      answered (record { status_code = 200; body = []; location = []; retry_after = [] });
  parse = λ s. none;
  print = λ j. [];
  parse_time = λ l s. none;
}

-- The limiters let everything pass but what has a burst of 0.
abbrev pub luck_1 : Luck
luck_1 = record { global_ok = true; key_ok = λ b. not (is_nonpos b.burst); cancelled = false }

abbrev pub new_limiters : LimiterSet
new_limiters = new_limiter_set (pos 50_000_000) (pos 50)

abbrev pub idle : System
idle = record {
  world = world_of one_delivery;
  limiters = record {
    global = record { rate = pos 50_000_000; burst = pos 50 };
    per = [];
    conc = [];
  };
  send_ch = [];
  poll_ch = [];
  sending = [];
  polling = [];
}

abbrev pub user_1 : User
user_1 = record {
  id = pos 1;
  user_role = some (pos 1);
  firstname = str "A";
  lastname = str "B";
  username = str "ann";
  telephone = none;
  password = none;
  email = none;
  allowed_ips = [];
  denied_ips = str "9" ∷ [];
  failed_attempts = some 0;
  transaction_limit = none;
  is_active = some true;
  is_system_user = none;
  last_login = none;
  last_failed_at = none;
  locked_until = none;
  last_passwd_update = none;
  created = none;
  updated = none;
}

abbrev pub row_1 : UserRow
row_1 = record { user = user_1; password_hash = str "pw" }

-- A toy of the cryptography: a payload is its id as text, and a hash is the text.
abbrev pub toy_crypto : Crypto
toy_crypto = record {
  sign_payload = λ secret p. some p.jti;
  parse_payload = λ secret now token. some (record {
    user_id = pos 1;
    username = str "ann";
    role_id = none;
    perms = str "admin" ∷ [];
    jti = token;
    issuer = [];
    issued_at = 0;
    expires_at = 0;
  });
  hash_password = λ pw. some pw;
  check_password = λ hash pw. text_eq hash pw;
  hex_sha256 = λ s. s;
  hex = λ s. s;
}

abbrev pub toy_net : Net
toy_net = record {
  parse_ip = λ s. some s;
  parse_cidr = λ s. none;
  ip_equal = λ ip o. elim o [ none ↦ false | some j ↦ text_eq ip j ];
}

abbrev pub toy_packages : Packages
toy_packages = record { crypto = toy_crypto; net = toy_net }

abbrev pub from_1 : Caller
from_1 = record { client_ip = str "1"; authorization = str "Bearer t" }

abbrev pub old_token : RefreshToken
old_token = record { user_id = pos 1; jti = str "t"; expires_at = 5000; revoked = false }

abbrev pub with_session : World
with_session = world_of (record no_rows_db { users = row_1 ∷ []; refresh_tokens = old_token ∷ [] })

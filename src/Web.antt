-- ===== src/Web.antt =====
-- What a handler of gin reads of a request and writes as the answer. The binding of a JSON body
-- is gin's: a handler takes what it yields, `none` where it fails.
use sukumad.Prelude.{ℤ, ℕ, List}
use sukumad.Text.{Bytes}
use sukumad.Types.{Time, Server, Request, Delivery, Role, Permission, User}

pub data Body : Type 0 where
  empty : Body
  okay : Body
  message : Bytes → Body
  bind_error : Body
  locked : Time → Body
  tokens : Bytes → Bytes → Body
  debug_token : Bytes → Body
  user : User → Body
  users : List User → ℤ → ℤ → Body
  role : Role → Body
  roles : List Role → Body
  permission : Permission → Body
  permissions : List Permission → Body
  server : Server → Body
  servers : List Server → ℤ → ℤ → Body
  request : Request → Body
  requests : List Request → ℤ → ℤ → Body
  delivery : Delivery → Body
  deliveries : List Delivery → ℤ → ℤ → Body

pub record Reply : Type 0 where
  pub code : ℕ
  pub body : Body

abbrev pub reply : ℕ → Body → Reply
reply code body = record { code = code; body = body }

abbrev pub failure : ℕ → Bytes → Reply
failure code m = reply code (message m)

pub record Caller : Type 0 where
  pub client_ip : Bytes
  pub authorization : Bytes

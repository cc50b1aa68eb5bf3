-- ===== src/Store/Tables.antt =====
-- The tables of db/migrations/000001_initial.up.sql as lists of rows.
use sukumad.Prelude.{ℤ, ℕ, Bool, Option, List}
use sukumad.Text.{Bytes}
use sukumad.Types.{Time, Server, Request, Delivery, Role, Permission, User}

-- A row of `users` with the column that the type of the program leaves out.
pub record UserRow : Type 0 where
  pub user : User
  pub password_hash : Bytes

pub record RefreshToken : Type 0 where
  pub user_id : ℤ
  pub jti : Bytes
  pub expires_at : Time
  pub revoked : Bool

pub record ResetToken : Type 0 where
  pub user_id : ℤ
  pub token_hash : Bytes
  pub expires_at : Time
  pub used_at : Option Time

-- A grant joins a user or a role, the first, to a permission, the second.
abbrev pub Grant : Type 0
Grant = ℤ × ℤ

-- The last number that each sequence has handed out stands beside its table.
pub record Db : Type 0 where
  pub servers : List Server
  pub server_seq : ℕ
  pub requests : List Request
  pub request_seq : ℕ
  pub deliveries : List Delivery
  pub delivery_seq : ℕ
  pub users : List UserRow
  pub user_seq : ℕ
  pub roles : List Role
  pub role_seq : ℕ
  pub permissions : List Permission
  pub permission_seq : ℕ
  pub user_permissions : List Grant
  pub role_permissions : List Grant
  pub refresh_tokens : List RefreshToken
  pub reset_tokens : List ResetToken

-- ===== src/Types/Rbac.antt =====
-- internal/types/rbac.go
use sukumad.Prelude.{ℤ, ℕ, Bool, Option, List}
use sukumad.Text.{Bytes}
use sukumad.Types.Models.{Time, Float}

pub record Role : Type 0 where
  pub id : ℤ
  pub name : Bytes
  pub description : Option Bytes
  pub created : Option Time
  pub updated : Option Time

pub record Permission : Type 0 where
  pub id : ℤ
  pub name : Bytes
  pub code : Bytes
  pub system_module : Bytes
  pub created : Option Time
  pub updated : Option Time

pub record User : Type 0 where
  pub id : ℤ
  pub user_role : Option ℤ
  pub firstname : Bytes
  pub lastname : Bytes
  pub username : Bytes
  pub telephone : Option Bytes
  pub password : Option Bytes
  pub email : Option Bytes
  pub allowed_ips : List Bytes
  pub denied_ips : List Bytes
  pub failed_attempts : Option ℕ
  pub transaction_limit : Option Float
  pub is_active : Option Bool
  pub is_system_user : Option Bool
  pub last_login : Option Time
  pub last_failed_at : Option Time
  pub locked_until : Option Time
  pub last_passwd_update : Option Time
  pub created : Option Time
  pub updated : Option Time

pub record GrantUserPermission : Type 0 where
  pub permission_id : ℤ

pub record GrantRolePermission : Type 0 where
  pub permission_id : ℤ

pub record SetUserRole : Type 0 where
  pub role_id : ℤ

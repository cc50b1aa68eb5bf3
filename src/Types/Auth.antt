-- ===== src/Types/Auth.antt =====
-- internal/types/auth.go
use sukumad.Text.{Bytes}

pub record LoginRequest : Type 0 where
  pub username : Bytes
  pub password : Bytes

pub record PasswordResetRequest : Type 0 where
  pub username_or_email : Bytes

pub record PasswordResetConfirm : Type 0 where
  pub token : Bytes
  pub new_password : Bytes

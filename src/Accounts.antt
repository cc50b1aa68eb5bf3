-- ===== src/Accounts.antt =====
-- The accounts and what they may do: internal/repo/user_repo.go, role_repo.go, permission_repo.go,
-- refresh_repo.go and rest_repo.go, each method the statement that it runs.
pub mod Calls
pub mod Users
pub mod Logins
pub mod Grants
pub mod Roles
pub mod Tokens
pub mod Lockout
pub mod Once
pub mod Effective
pub mod Keeping
pub mod Links
pub mod Tests

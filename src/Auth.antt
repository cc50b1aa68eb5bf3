-- ===== src/Auth.antt =====
-- Who may call the API: internal/auth, internal/middleware/authz.go and cors.go, and
-- internal/handlers/auth_handler.go.
pub mod Ip
pub mod Attempts
pub mod Keys
pub mod Authz
pub mod Login
pub mod Reset
pub mod Admission
pub mod Rotation
pub mod Barred
pub mod Replay
pub mod Cors
pub mod Recovery
pub mod Bearing
pub mod Tests
pub mod RotationTests

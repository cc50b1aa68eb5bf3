-- ===== src/Records.antt =====
-- What the service forwards, and where to: internal/repo/server_repo.go, request_repo.go and
-- delivery_repo.go, each method the statement that it runs.
pub mod Servers
pub mod Requests
pub mod Deliveries
pub mod Trips
pub mod Patching
pub mod Calls
pub mod Sound
pub mod Tests

-- ===== src/Worker.antt =====
-- main.go: the worker that claims deliveries, sends them, and polls the jobs that they started.
pub mod Helpers
pub mod Wire
pub mod Limiter
pub mod Handlers
pub mod Dispatch
pub mod System
pub mod Exclusive
pub mod Ticks
pub mod Outcome
pub mod Report
pub mod Polling
pub mod Steps
pub mod Places
pub mod Reachable
pub mod Stranded
pub mod Bounded
pub mod Unblocked
pub mod Progress
pub mod Fraction
pub mod Jobs
pub mod Life
pub mod Arcs
pub mod Statements
pub mod Refines
pub mod Restart
pub mod Tests

-- ===== src/Queue.antt =====
-- The work queue: the functions of db/migrations/000001_initial.up.sql that move a delivery from
-- one status to the next, each as what it does to one row and as a statement on the tables.
pub mod Moves
pub mod Claim
pub mod Expand
pub mod Copies
pub mod Sorting
pub mod Turn
pub mod Sendable
pub mod Tests
pub mod Retry
pub mod Rows
pub mod Counts

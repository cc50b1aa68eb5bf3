-- ===== src/Api.antt =====
-- The HTTP API: internal/handlers and internal/http. A handler takes the texts of the path and
-- the query that it reads, and the body as gin binds it.
pub mod Input
pub mod People
pub mod Traffic
pub mod Routes
pub mod Tests

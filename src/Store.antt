-- ===== src/Store.antt =====
-- The database: its tables, and the calls of it.
pub mod Tables
pub mod Calls
pub mod Laws
unfoldable pub use Tables.*
unfoldable pub use Calls.*

-- ===== src/Types.antt =====
-- The records of internal/types, and the JSON values that some of their fields hold.
pub mod Values
pub mod Models
pub mod Rbac
pub mod Auth
unfoldable pub use Values.*
unfoldable pub use Models.*
unfoldable pub use Rbac.*
unfoldable pub use Auth.*

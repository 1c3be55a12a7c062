-- ===== src/HttpClient.antt =====
-- The HTTP client: Assignment_4/client.c.
mod Defs
mod Receive
pub mod Body
pub mod Url
pub mod Blank
pub mod Answer
pub mod Filename
pub mod Request
pub mod Visit
mod Tests
unfoldable pub use Defs.*
unfoldable pub use Receive.*

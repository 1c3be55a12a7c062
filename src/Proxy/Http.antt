-- ===== src/Proxy/Http.antt =====
-- HTTP headers: http_info_t, parse_request and parse_response of Assignment_4/lib.c.
mod Defs
pub mod Strings
pub mod Line
pub mod Message
pub mod Lines
pub mod Request
pub mod Fields
pub mod BodyLines
pub mod Response
unfoldable pub use Defs.*

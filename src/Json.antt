-- ===== src/Json.antt =====
-- json/: the JSON writer and parser.
pub mod Ascii
pub mod Buffer
pub mod Unicode
pub mod Escape
pub mod Integer
pub mod Writer
pub mod Parser
pub mod Value
pub mod RoundTrip
mod Tests
mod Examples

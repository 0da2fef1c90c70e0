-- ===== src/Json/RoundTrip.antt =====
-- What the writer writes, and what the parser reads of it.
pub mod Written
pub mod Strings
pub mod StringLoop
pub mod Numbers
pub mod Integers
pub mod Reading
pub mod Scalars
pub mod Arrays
pub mod Objects
pub mod Documents

-- ===== src/Json.antt =====
-- JSON, as the program's `JSON.parse` and `JSON.stringify` use it.
pub mod Value
pub mod Print
pub mod Parse
pub mod Bytes
pub mod RoundTrip
pub mod WellFormed
mod Tests

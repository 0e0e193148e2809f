-- ===== src/Encoding.antt =====
-- typescript/src/base/encoding.ts: hex and bytes32 encodings.
pub mod Hex
pub mod RoundTrip
pub mod Bytes32
mod Tests

-- ===== src/Link.antt =====
-- The parts put together: what frontend/lib/enclave.ts sends, at the handlers of typescript/src.
pub mod Body
pub mod Request
pub mod Dispatch
pub mod Reply
mod Tests

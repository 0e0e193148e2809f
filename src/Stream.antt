-- ===== src/Stream.antt =====
-- typescript/src/app/streamHandlers.ts: the handlers that authorize withdrawals and settlements.
pub mod Request
pub mod Authorize
pub mod Safety
pub mod Ends
pub mod Grants
pub mod Sample
mod Tests

-- ===== src/Protocol.antt =====
-- typescript/src/shared/protocol.ts: stream terms, rates, accrual and digests.
pub mod Viem
pub mod Terms
pub mod Rates
pub mod Digests
pub mod Accrual
pub mod Scaling
pub mod Binding
pub mod Sample
mod Tests

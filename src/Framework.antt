-- ===== src/Framework.antt =====
-- The handler registry of typescript/src/base/types.ts.
pub mod Registry
pub mod Lookup
mod Tests

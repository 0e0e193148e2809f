-- ===== src/Client.antt =====
-- The frontend's access to the enclave and to the chain: frontend/lib/enclave.ts and chain.ts.
pub mod Numbers
pub mod Action
pub mod Answer
pub mod Chain
pub mod Reasons
pub mod Identifiers
pub mod Window
mod Tests

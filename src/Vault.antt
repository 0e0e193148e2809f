-- ===== src/Vault.antt =====
-- The contract contracts/StreamVault.sol, whose checks the enclave's signature has to pass.
pub mod State
pub mod Contract
pub mod Money
pub mod History
pub mod Replay
pub mod Holdings
pub mod Touched
pub mod Solvency
pub mod Fixed
pub mod Digest
pub mod Agreement
mod Tests

-- ===== src/Script.antt =====
-- The scripts of typescript/scripts and frontend/scripts that drive the vault and the enclave.
pub mod Run
pub mod Order
pub mod Envelope
pub mod Settle
pub mod EndToEnd
pub mod Demo
pub mod Keys
pub mod Lines
pub mod Placed
pub mod Stored
pub mod Traces
pub mod Sending
pub mod Settled
pub mod Yields
pub mod Check
pub mod Checked
mod Tests
mod Trial

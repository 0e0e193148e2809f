-- ===== src/App.antt =====
-- The extension's own handlers, its state and its registry: typescript/src/app/.
pub mod State
pub mod Greeting
pub mod Registry
pub mod Dispatch
mod Tests

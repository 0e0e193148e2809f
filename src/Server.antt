-- ===== src/Server.antt =====
-- The extension's HTTP server: typescript/src/base/server.ts.
pub mod Action
pub mod Http
pub mod Outcomes
pub mod Queue
pub mod Chained
pub mod Serial
pub mod Progress
mod Tests

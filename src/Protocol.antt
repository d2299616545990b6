-- ===== src/Protocol.antt =====
-- packages/protocol/src/index.ts: the protocol between the controller and the runtimes.
pub mod Types
pub mod Events
pub mod Checks
mod Tests

-- ===== src/Controller.antt =====
-- packages/demo-controller/src/orchestrator.ts: the controller of the processes.
pub mod Naming
pub mod State
pub mod Sessions
pub mod Outcomes
pub mod Messages
pub mod Invariant
pub mod Starting
pub mod Reporting
pub mod Safety
pub mod Liveness
mod Tests

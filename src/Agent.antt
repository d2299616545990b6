-- ===== src/Agent.antt =====
-- packages/agent-core/src/index.ts: candidate prices, the public concession ladder, the local
-- policy and strategy guards, the private price offset, and the choice of the next candidate.
pub mod Types
pub mod Price
pub mod Ladder
pub mod Policy
pub mod Offset
pub mod Provider
pub mod Generate
mod Tests

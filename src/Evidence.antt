-- ===== src/Evidence.antt =====
-- packages/evidence/src: the settlement evidence of evidence.ts and the finalization of finalize.ts.
pub mod Envelope
pub mod Store
pub mod Verify
pub mod Finalize
pub mod Steps
pub mod Proofs
pub mod Unlocking
pub mod Safety
mod Tests

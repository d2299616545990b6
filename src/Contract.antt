-- ===== src/Contract.antt =====
-- packages/negotiation-contract/src: the Compact contract negotiation.compact, the commitments of
-- commitments.ts and the witnesses of witnesses.ts. The hash of the Compact standard library and the
-- bytes of a number are parameters, collected in `Crypto`.
pub mod Circuits
pub mod Commitments
pub mod Witnesses
pub mod Lifecycle
pub mod Binding
mod Tests

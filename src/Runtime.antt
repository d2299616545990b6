-- ===== src/Runtime.antt =====
-- packages/buyer-runtime/src/index.ts and packages/seller-runtime/src/index.ts: the processes of the
-- two parties.
pub mod Action
pub mod Payload
pub mod Channel
pub mod Alike
pub mod Silence
pub mod Buyer
pub mod Seller
pub mod Observer
pub mod Privacy
pub mod Replay
mod Tests

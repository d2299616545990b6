-- ===== src/Relay.antt =====
-- packages/room-relay/src: the relay server of server.ts, with the message types of index.ts.
pub mod Server
pub mod Chunks
pub mod Routing
pub mod Frames
pub mod Messages
pub mod Payload
pub mod Client
pub mod Sending
pub mod Delivery
pub mod Memory
pub mod Replay
mod Tests

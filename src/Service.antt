-- ===== src/Service.antt =====
-- node/: a first service, in which every node has a list of items and talks to the others by RPC.
pub mod Items
pub mod State
pub mod Checks
pub mod Server
pub mod Client
pub mod Election
pub mod Machine
mod Tests

-- ===== src/Node.antt =====
-- The nodes of package raft: a raft with what its user has been told, and the loop around it.
pub mod RawNode
pub mod Status
pub mod Loop
pub mod Calls
pub mod Forward
pub mod Runs
pub mod Unready
mod Tests

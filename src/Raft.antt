-- ===== src/Raft.antt =====
-- raft/raft.go and raft/read_only.go: one node of a cluster, and how it steps.
pub mod Message
pub mod ReadOnly
pub mod State
pub mod Samples
pub mod Become
pub mod Reads
pub mod Replicate
pub mod Elect
pub mod Receive
pub mod Leader
pub mod Others
pub mod Step
pub mod Quiet
pub mod Later
pub mod Terms
pub mod Voters
pub mod Standing
pub mod Ballots
mod Tests

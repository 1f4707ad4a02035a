-- ===== src/Log.antt =====
-- The log of a node: entries and snapshots (raft/raftpb), the stable storage (raft/storage.go), the
-- entries not yet stable (raft/log_unstable.go), and the log over both (raft/log.go).
pub mod Entries
pub mod Storage
pub mod Unstable
pub mod RaftLog
pub mod Samples

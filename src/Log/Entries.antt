-- ===== src/Log/Entries.antt =====
-- The messages of raft/raftpb that a log is made of. A byte slice is a list of numbers; a pointer
-- that may be nil is an option.
use my_raft_kv.Prelude.{ℕ, Bool, Option, List, length}

pub data EntryType : Type 0 where
  entry_normal entry_conf_change : EntryType

pub record Entry : Type 0 where
  pub term : ℕ
  pub index : ℕ
  pub type : EntryType
  pub payload : List ℕ

pub record ConfState : Type 0 where
  pub voters : List ℕ
  pub learners : List ℕ
  pub voters_outgoing : List ℕ
  pub learners_next : List ℕ
  pub auto_leave : Bool

pub record SnapshotMetadata : Type 0 where
  pub index : ℕ
  pub term : ℕ
  pub conf_state : Option ConfState

pub record Snapshot : Type 0 where
  pub payload : List ℕ
  pub metadata : Option SnapshotMetadata

pub record HardState : Type 0 where
  pub term : ℕ
  pub vote : ℕ
  pub commit : ℕ

-- `limitSize` of raft/util.go returns its entries, whatever the limit.
unfoldable pub limit_size : List Entry → ℕ → List Entry
limit_size ents max_size = ents

abbrev pub payload_size : Entry → ℕ
payload_size e = length e.payload

-- ===== src/Raft/Message.antt =====
-- The messages of raft/raftpb between nodes, and the tests of raft/util.go on their types.
use my_raft_kv.Prelude.{ℕ, Bool, false, ◌||◌, ◌==◌, Option, none, List, [], Result, ok, panic}
use my_raft_kv.Log.Entries.{Entry, Snapshot}

pub data MessageType : Type 0 where
  msg_hup msg_beat msg_prop msg_app msg_app_resp msg_vote msg_vote_resp msg_snap : MessageType
  msg_heartbeat msg_heartbeat_resp msg_unreachable msg_snap_status msg_check_quorum : MessageType
  msg_transfer_leader msg_timeout_now msg_read_index msg_read_index_resp : MessageType
  msg_pre_vote msg_pre_vote_resp : MessageType

-- The number that stands for a type on the wire.
abbrev pub number : MessageType → ℕ
number msg_hup = 0
number msg_beat = 1
number msg_prop = 2
number msg_app = 3
number msg_app_resp = 4
number msg_vote = 5
number msg_vote_resp = 6
number msg_snap = 7
number msg_heartbeat = 8
number msg_heartbeat_resp = 9
number msg_unreachable = 10
number msg_snap_status = 11
number msg_check_quorum = 12
number msg_transfer_leader = 13
number msg_timeout_now = 14
number msg_read_index = 15
number msg_read_index_resp = 16
number msg_pre_vote = 17
number msg_pre_vote_resp = 18

abbrev pub same_type : MessageType → MessageType → Bool
same_type a b = number a == number b

pub record RaftMessage : Type 0 where
  pub type : MessageType
  pub to : ℕ
  pub from : ℕ
  pub term : ℕ
  pub log_term : ℕ
  pub index : ℕ
  pub entries : List Entry
  pub commit : ℕ
  pub snap : Option Snapshot
  pub reject : Bool
  pub reject_hint : ℕ
  pub context : List ℕ

-- `RaftMessage{Type: t, To: to}`
abbrev pub message : MessageType → ℕ → RaftMessage
message t to = record {
  type = t;
  to = to;
  from = 0;
  term = 0;
  log_term = 0;
  index = 0;
  entries = [];
  commit = 0;
  snap = none;
  reject = false;
  reject_hint = 0;
  context = [];
}

unfoldable pub is_local_msg : MessageType → Bool
is_local_msg t =
    same_type t msg_hup
    || (same_type t msg_beat
        || (same_type t msg_unreachable
            || (same_type t msg_snap_status || same_type t msg_check_quorum)))

unfoldable pub is_response_msg : MessageType → Bool
is_response_msg t =
    same_type t msg_app_resp
    || (same_type t msg_vote_resp
        || (same_type t msg_heartbeat_resp
            || (same_type t msg_unreachable || same_type t msg_pre_vote_resp)))

abbrev pub vote_resp_msg_type : MessageType → Result MessageType
vote_resp_msg_type msg_vote = ok msg_vote_resp
vote_resp_msg_type msg_pre_vote = ok msg_pre_vote_resp
vote_resp_msg_type _ = panic

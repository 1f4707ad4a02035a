-- ===== src/Node/RawNode.antt =====
-- raft/rawnode.go and raft/bootstrap.go, with `Ready` of raft/node.go. `NewRawNode` is left out: it
-- calls `newRaft`, which panics.
use my_raft_kv.Prelude.{
  ℕ, ◌+◌, Bool, true, false, ◌&&◌, ◌||◌, not, Option, none, some, List, [], ◌∷◌, ◌==◌,
  if◌then◌else◌, ltb, length, Error, err_step_local_msg, err_step_peer_not_found, no_peers,
  nonempty_storage, Result, ok, err, panic, ◌>>=◌, deref,
}
use my_raft_kv.Log.Entries.{Entry, entry_normal, HardState, Snapshot}
use my_raft_kv.Log.RaftLog as RLog
use my_raft_kv.Raft.Message.{
  RaftMessage, message, msg_hup, msg_prop, msg_transfer_leader, msg_read_index, is_local_msg,
  is_response_msg,
}
use my_raft_kv.Raft.ReadOnly.{ReadState}
use my_raft_kv.Raft.State.{
  Raft, StateType, state_follower, state_candidate, state_leader, state_pre_candidate, TickFunc,
  tick_nil, tick_election, tick_heart_beat, SoftState, soft_state, hard_state, progress_of,
}
use my_raft_kv.Raft.Step as Step
use my_raft_kv.Raft.Step.{step}

pub record RawNode : Type 0 where
  pub raft : Raft
  pub prev_soft_st : Option SoftState
  pub pre_hard_st : HardState

pub record Ready : Type 0 where
  pub soft_state : Option SoftState
  pub hard_state : HardState
  pub read_states : List ReadState
  pub entries : List Entry
  pub snap : Snapshot
  pub committed_entries : List Entry
  pub messages : List RaftMessage
  pub must_sync : Bool

-- `emptyState`
abbrev pub empty_state : HardState
empty_state = record { term = 0; vote = 0; commit = 0 }

-- `Ready{}`
abbrev pub empty_ready : Ready
empty_ready = record {
  soft_state = none;
  hard_state = empty_state;
  read_states = [];
  entries = [];
  snap = record { payload = []; metadata = none };
  committed_entries = [];
  messages = [];
  must_sync = false;
}

abbrev number : StateType → ℕ
number state_follower = 0
number state_candidate = 1
number state_leader = 2
number state_pre_candidate = 3

-- `SoftState.equal`
unfoldable pub equal : SoftState → SoftState → Bool
equal s b = (s.lead == b.lead) && (number s.raft_state == number b.raft_state)

unfoldable pub is_hard_state_equal : HardState → HardState → Bool
is_hard_state_equal a b = (a.term == b.term) && ((a.vote == b.vote) && (a.commit == b.commit))

unfoldable pub is_empty_hard_state : HardState → Bool
unfolding is_hard_state_equal
is_empty_hard_state st = is_hard_state_equal st empty_state

-- Only the entries are filled in.
unfoldable pub new_ready : Raft → Option SoftState → HardState → Ready
new_ready r prev_soft_st pre_hard_st = record empty_ready {
  entries = RLog.unstable_entries r.raft_log;
}

-- The function that `r.tick` points to.
abbrev pub ticked : TickFunc → Raft → Result Raft
ticked tick_nil r = panic
ticked tick_election r = Step.tick_election r
ticked tick_heart_beat r = Step.tick_heart_beat r

unfoldable pub tick : RawNode → Result RawNode
unfolding Step.tick_election Step.tick_heart_beat
tick rn = ticked rn.raft.tick rn.raft >>= λ r. ok (record rn { raft = r })

unfoldable pub tick_quiesced : RawNode → RawNode
tick_quiesced rn = record rn {
  raft = record rn.raft { election_elapsed = rn.raft.election_elapsed + 1 };
}

-- A call of `Step` on the node's raft.
abbrev pub step_raft : RawNode → RaftMessage → Result (RawNode × Option Error)
step_raft rn m = step rn.raft m >>= λ (r, e). ok (record rn { raft = r }, e)

unfoldable pub campaign : RawNode → Result (RawNode × Option Error)
unfolding step
campaign rn = step_raft rn (message msg_hup 0)

-- `&raftPB.Entry{Data: data}`
abbrev pub entry_of : List ℕ → Entry
entry_of payload = record { term = 0; index = 0; type = entry_normal; payload = payload }

abbrev pub proposal : ℕ → List ℕ → RaftMessage
proposal id payload = record (message msg_prop 0) { from = id; entries = entry_of payload ∷ [] }

unfoldable pub propose : RawNode → List ℕ → Result (RawNode × Option Error)
unfolding step
propose rn payload = step_raft rn (proposal rn.raft.id payload)

-- `pr != nil || !IsResponseMsg(m.Type)`
abbrev pub knows_sender : Raft → RaftMessage → Bool
knows_sender r m = elim (progress_of r m.from) [
  | some pr ↦ true
  | none ↦ not (is_response_msg m.type)
]

unfoldable pub step_node : RawNode → RaftMessage → Result (RawNode × Option Error)
unfolding step is_local_msg is_response_msg
step_node rn m =
    if is_local_msg m.type
    then ok (rn, some err_step_local_msg)
    else if knows_sender rn.raft m
    then step_raft rn m
    else ok (rn, some err_step_peer_not_found)

unfoldable pub ready_without_accept : RawNode → Ready
unfolding new_ready
ready_without_accept rn = new_ready rn.raft rn.prev_soft_st rn.pre_hard_st

abbrev soft_or : Option SoftState → Option SoftState → Option SoftState
soft_or none old = old
soft_or (some st) old = some st

unfoldable pub accept_ready : RawNode → Ready → RawNode
accept_ready rn rd = record rn {
  prev_soft_st = soft_or rd.soft_state rn.prev_soft_st;
  raft = record rn.raft {
    read_states = if length rd.read_states == 0 then rn.raft.read_states else [];
    msgs = [];
  };
}

unfoldable pub ready : RawNode → RawNode × Ready
unfolding ready_without_accept accept_ready
ready rn = let rd = ready_without_accept rn in (accept_ready rn rd, rd)

abbrev pub state_of : RawNode × Option Error → RawNode
state_of (rn, e) = rn

-- `TransferLeader` and `ReadIndex` drop the error.
unfoldable pub transfer_leader : RawNode → ℕ → Result RawNode
unfolding step
transfer_leader rn transferee =
    step_raft rn (record (message msg_transfer_leader 0) { from = transferee }) >>= λ s.
    ok (state_of s)

unfoldable pub read_index : RawNode → List ℕ → Result RawNode
unfolding step
read_index rn rctx =
    step_raft rn (record (message msg_read_index 0) { entries = entry_of rctx ∷ [] }) >>= λ s.
    ok (state_of s)

-- `Adbvance`; the raft's `advance` does nothing.
unfoldable pub advance : RawNode → Ready → RawNode
unfolding is_empty_hard_state
advance rn rd =
    if is_empty_hard_state rd.hard_state then rn else record rn { pre_hard_st = rd.hard_state }

-- `HasReady`. `equal` reads the fields of a pointer that may be nil.
unfoldable pub has_ready : RawNode → Result Bool
unfolding equal soft_state hard_state is_empty_hard_state is_hard_state_equal
has_ready rn = deref rn.prev_soft_st >>= λ prev.
    if not (equal (soft_state rn.raft) prev)
    then ok true
    else if not (is_empty_hard_state (hard_state rn.raft))
        && not (is_hard_state_equal (hard_state rn.raft) rn.pre_hard_st)
    then ok true
    else if RLog.has_pending_snapshot rn.raft.raft_log
    then ok true
    else if ltb 0 (length rn.raft.msgs) || ltb 0 (length (RLog.unstable_entries rn.raft.raft_log))
    then ok true
    else (RLog.has_next_ents rn.raft.raft_log >>= λ next.
        ok (next || not (length rn.raft.read_states == 0)))

pub record Peer : Type 0 where
  pub id : ℕ
  pub context : List ℕ

unfoldable pub bootstrap : RawNode → List Peer → Result RawNode
bootstrap rn [] = err no_peers
bootstrap rn (p ∷ peers) = rn.raft.raft_log.storage.last_index >>= λ last.
    if last == 0 then ok (record rn { pre_hard_st = empty_state }) else err nonempty_storage

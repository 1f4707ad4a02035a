-- ===== src/Raft/Receive.antt =====
-- raft/raft.go: what a follower does with entries, heartbeats and snapshots.
use my_raft_kv.Prelude.{
  ℕ, Bool, true, false, ◌||◌, not, Option, none, some, List, [], ◌∷◌, ◌==◌, if◌then◌else◌, leb, ltb,
  add64, min, Result, ok, ◌>>=◌, deref,
}
use my_raft_kv.Log.Entries.{ConfState, Snapshot, SnapshotMetadata}
use my_raft_kv.Log.RaftLog as RLog
use my_raft_kv.Log.RaftLog.{must}
use my_raft_kv.Tracker.{make_progress_tracker}
use my_raft_kv.Raft.Message.{RaftMessage, message, msg_app_resp, msg_heartbeat_resp}
use my_raft_kv.Raft.State.{Raft, send, is_follower}
use my_raft_kv.Raft.Become.{become_follower}

abbrev pub reject_message : RaftMessage → ℕ → ℕ → RaftMessage
reject_message m hint hint_term = record (message msg_app_resp m.from) {
  index = m.index;
  reject = true;
  reject_hint = hint;
  log_term = hint_term;
}

abbrev pub ack_message : RaftMessage → ℕ → RaftMessage
ack_message m index = record (message msg_app_resp m.from) { index = index }

-- The answer to entries that do not fit. On a valid log the hint's loop ends before its fuel, so the
-- `deref` after it meets no `none`.
unfoldable pub reject_entries : Raft → RaftMessage → Result Raft
unfolding send
reject_entries r m = RLog.zero_term_on_err_compacted (RLog.term r.raft_log m.index) >>= λ _.
    RLog.last_index r.raft_log >>= λ last.
    RLog.find_conflict_by_term r.raft_log (min m.index last) m.log_term >>= deref >>= λ hint.
    must (RLog.term r.raft_log hint) >>= λ hint_term. send r (reject_message m hint hint_term)

abbrev pub acknowledge : Raft → RaftMessage → Option ℕ → Result Raft
acknowledge r m none = reject_entries r m
acknowledge r m (some last) = send r (ack_message m last)

unfoldable pub handle_append_entries : Raft → RaftMessage → Result Raft
unfolding reject_entries send
handle_append_entries r m =
    if ltb m.index r.raft_log.committed
    then send r (ack_message m r.raft_log.committed)
    else (RLog.maybe_append r.raft_log m.index m.log_term m.commit m.entries >>= λ (log, last).
        acknowledge (record r { raft_log = log }) m last)

abbrev pub beat_message : RaftMessage → RaftMessage
beat_message m = record (message msg_heartbeat_resp m.from) { context = m.context }

unfoldable pub handle_heartbeat : Raft → RaftMessage → Result Raft
unfolding send
handle_heartbeat r m = RLog.commit_to r.raft_log m.commit >>= λ log.
    send (record r { raft_log = log }) (beat_message m)

abbrev pub contains : ℕ → List ℕ → Bool
contains id [] = false
contains id (i ∷ is) = (i == id) || contains id is

-- Where the snapshot's term matches, the log is first committed up to its index.
unfoldable pub fast_forward : Raft → SnapshotMetadata → Result Raft
fast_forward r md = RLog.match_term r.raft_log md.index md.term >>= λ same.
    if same
    then (RLog.last_index r.raft_log >>= λ _. RLog.last_term r.raft_log >>= λ _.
        RLog.commit_to r.raft_log md.index >>= λ log. ok (record r { raft_log = log }))
    else ok r

unfoldable pub install : Raft → Snapshot → SnapshotMetadata → ConfState → Result (Raft × Bool)
unfolding fast_forward make_progress_tracker
install r s md cs =
    if contains r.id cs.voters || (contains r.id cs.learners || contains r.id cs.voters_outgoing)
    then (fast_forward r md >>= λ r'. RLog.restore r'.raft_log s >>= λ log.
        ok (record r' { raft_log = log; trk = make_progress_tracker r'.trk.max_inflight }, true))
    else ok (r, false)

unfoldable pub restore : Raft → Snapshot → Result (Raft × Bool)
unfolding become_follower install
restore r s = deref s.metadata >>= λ md.
    if leb md.index r.raft_log.committed
    then ok (r, false)
    else if not (is_follower r.state)
    then (become_follower r (add64 r.term 1) 0 >>= λ r'. ok (r', false))
    else (deref md.conf_state >>= λ cs. install r s md cs)

-- The index that the answer to a snapshot carries.
abbrev pub restored_index : Raft → Bool → Result ℕ
restored_index r true = RLog.last_index r.raft_log
restored_index r false = ok r.raft_log.committed

unfoldable pub handle_snapshot : Raft → RaftMessage → Result Raft
unfolding restore send
handle_snapshot r m = deref m.snap >>= λ s. deref s.metadata >>= λ md.
    restore r s >>= λ (r', done). restored_index r' done >>= λ index. send r' (ack_message m index)

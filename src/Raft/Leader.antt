-- ===== src/Raft/Leader.antt =====
-- `stepLeader` of raft/raft.go. The pointer `pr` is the follower's entry in `r.trk.Progress`: a change
-- of it is written back at once, and it is read again after a call that may have changed it.
use my_raft_kv.Prelude.{
  ℕ, Bool, true, false, ◌&&◌, ◌||◌, not, Option, none, some, [], ◌∷◌, ◌++◌, ◌==◌, if◌then◌else◌,
  leb, ltb, length, Error, err_proposal_dropped, Result, ok, panic, ◌>>=◌, deref,
}
use my_raft_kv.Log.RaftLog as RLog
use my_raft_kv.Quorum.{VoteResult, vote_won, joint_vote_result}
use my_raft_kv.Tracker.{is_singleton}
use my_raft_kv.Tracker.Progress as Prog
use my_raft_kv.Tracker.Progress.{
  state_probe, state_replicate, state_snapshot, is_replicate, is_snapshot,
}
use my_raft_kv.Tracker.Inflights as Flights
use my_raft_kv.Raft.Message.{
  MessageType, RaftMessage, msg_beat, msg_check_quorum, msg_prop, msg_read_index, msg_app_resp,
  msg_heartbeat_resp, msg_unreachable, msg_transfer_leader,
}
use my_raft_kv.Raft.ReadOnly.{
  ReadOnlyOption, read_only_safe, read_only_lease_based, recv_ack, advance,
}
use my_raft_kv.Raft.State.{
  Raft, abort_leader_transfer, append_entry, maybe_commit, progress_of, with_progress,
  send_timeout_now,
}
use my_raft_kv.Raft.Replicate.{send_append, send_all, rounds, bcast_append, bcast_heartbeat}
use my_raft_kv.Raft.Reads.{
  respond, respond_all, committed_entry_in_current_term, send_msg_read_index_response,
  release_pending_read_index_messages,
}

-- A handler's state and the error that it returns.
abbrev pub Stepped : Type 0
Stepped = Raft × Option Error

abbrev pub done : Result Raft → Result Stepped
done m = m >>= λ r. ok (r, none)

abbrev pub accepted : Raft × Bool → Result Stepped
accepted (r, false) = ok (r, some err_proposal_dropped)
accepted (r, true) = done (bcast_append r)

-- The loop over the entries does nothing: its `cc` is always nil.
unfoldable pub propose : Raft → RaftMessage → Result Stepped
unfolding append_entry bcast_append
propose r m = if length m.entries == 0 then panic else elim (progress_of r r.id) [
  | none ↦ ok (r, some err_proposal_dropped)
  | some pr ↦
      if not (r.lead_transferee == 0)
      then ok (r, some err_proposal_dropped)
      else (append_entry r m.entries >>= λ s. accepted s)
]

unfoldable pub read_index : Raft → RaftMessage → Result Raft
unfolding respond committed_entry_in_current_term send_msg_read_index_response
read_index r m =
    if is_singleton r.trk
    then respond r m r.raft_log.committed
    else (committed_entry_in_current_term r >>= λ current.
        if current
        then send_msg_read_index_response r m
        else ok
            (record r { pending_read_index_messages = r.pending_read_index_messages ++ m ∷ [] }))

-- Where a follower's log may agree with the leader's, after a rejection.
unfoldable pub next_probe : Raft → RaftMessage → Result ℕ
next_probe r m =
    if ltb 0 m.log_term
    then (RLog.find_conflict_by_term r.raft_log m.reject_hint m.log_term >>= deref)
    else ok m.reject_hint

abbrev pub probe_if_replicate : Prog.Progress → Prog.Progress
probe_if_replicate pr = if is_replicate pr.state then Prog.become_probe pr else pr

abbrev pub retreat : Raft → ℕ → Prog.Progress × Bool → Result Raft
retreat r from (pr, false) = ok (with_progress r from pr)
retreat r from (pr, true) = send_append (with_progress r from (probe_if_replicate pr)) from

unfoldable pub rejected : Raft → RaftMessage → Prog.Progress → Result Raft
unfolding next_probe send_append
rejected r m pr = next_probe r m >>= λ probe. retreat r m.from (Prog.maybe_decr_to pr m.index probe)

-- The `switch` on the follower's state, once its `Match` has risen.
abbrev pub advance_in : Prog.StateType → Prog.Progress → ℕ → Result Prog.Progress
advance_in state_probe pr index = ok (Prog.become_replicate pr)
advance_in state_snapshot pr index =
    if leb pr.pending_snapshot pr.match
    then ok (Prog.become_replicate (Prog.become_probe pr))
    else ok pr
advance_in state_replicate pr index =
    Flights.free_le pr.inflights index >>= λ fl. ok (record pr { inflights = fl })

unfoldable pub after_commit : Bool → ℕ → Raft × Bool → Result Raft
unfolding release_pending_read_index_messages bcast_append send_append
after_commit old_paused from (r, true) = release_pending_read_index_messages r >>= bcast_append
after_commit old_paused from (r, false) = if old_paused then send_append r from else ok r

-- The transfer of leadership goes on when the new leader has the whole log.
unfoldable pub maybe_timeout_now : Raft → ℕ → Result Raft
unfolding send_timeout_now
maybe_timeout_now r from =
    if from == r.lead_transferee
    then (deref (progress_of r from) >>= λ pr. RLog.last_index r.raft_log >>= λ last.
        if pr.match == last then send_timeout_now r from else ok r)
    else ok r

unfoldable pub catch_up : Raft → RaftMessage → Bool → Prog.Progress → Result Raft
unfolding maybe_commit after_commit send_all maybe_timeout_now
catch_up r m old_paused pr = advance_in pr.state pr m.index >>= λ pr'.
    maybe_commit (with_progress r m.from pr') >>= after_commit old_paused m.from >>= λ r'.
    send_all (rounds r' m.from) r' m.from >>= deref >>= λ r''. maybe_timeout_now r'' m.from

abbrev pub acked : Raft → RaftMessage → Bool → Prog.Progress × Bool → Result Raft
acked r m old_paused (pr, false) = ok (with_progress r m.from pr)
acked r m old_paused (pr, true) = catch_up r m old_paused pr

unfoldable pub app_resp : Raft → RaftMessage → Prog.Progress → Result Raft
unfolding rejected catch_up
app_resp r m pr =
    let active = record pr { recent_active = true } in
    if m.reject
    then rejected r m active
    else acked r m (Prog.is_paused active) (Prog.maybe_update active m.index)

abbrev pub is_safe : ReadOnlyOption → Bool
is_safe read_only_safe = true
is_safe read_only_lease_based = false

abbrev pub if_won : VoteResult → Result Raft → Raft → Result Raft
if_won vote_won next r = next
if_won _ next r = ok r

-- A heartbeat's answer acknowledges the read request of its context.
unfoldable pub ack_read : Raft → RaftMessage → Result Raft
unfolding recv_ack advance respond_all
ack_read r m =
    if not (is_safe r.read_only.option) || (length m.context == 0)
    then ok r
    else (let acks = recv_ack r.read_only m.from m.context in
        let r' = record r { read_only = acks.0 } in
        if_won (joint_vote_result r.trk.voters acks.1)
          (advance acks.0 m >>= λ (ro, rss). respond_all rss (record r' { read_only = ro })) r')

abbrev pub free_one : Prog.Progress → Result Prog.Progress
free_one pr =
    if is_replicate pr.state && Flights.full pr.inflights
    then (Flights.free_first_one pr.inflights >>= λ fl. ok (record pr { inflights = fl }))
    else ok pr

unfoldable pub heartbeat_resp : Raft → RaftMessage → Prog.Progress → Result Raft
unfolding send_append ack_read
heartbeat_resp r m pr = free_one (record pr { recent_active = true; probe_sent = false }) >>= λ pr'.
    let r' = with_progress r m.from pr' in
    RLog.last_index r.raft_log >>= λ last.
    (if ltb pr'.match last then send_append r' m.from else ok r') >>= λ r''. ack_read r'' m

unfoldable pub start_transfer : Raft → ℕ → Prog.Progress → Result Raft
unfolding send_timeout_now send_append
start_transfer r to pr =
    if to == r.id
    then ok r
    else (RLog.last_index r.raft_log >>= λ last.
        let r' = record r { election_elapsed = 0; lead_transferee = to } in
        if pr.match == last then send_timeout_now r' to else send_append r' to)

unfoldable pub transfer_leader : Raft → RaftMessage → Prog.Progress → Result Raft
unfolding start_transfer
transfer_leader r m pr =
    if pr.is_learner
    then ok r
    else if r.lead_transferee == 0
    then start_transfer r m.from pr
    else if r.lead_transferee == m.from
    then ok r
    else start_transfer (abort_leader_transfer r) m.from pr

-- The messages about one follower.
unfoldable pub about_follower : MessageType → Raft → RaftMessage → Prog.Progress → Result Raft
unfolding app_resp heartbeat_resp transfer_leader
about_follower msg_app_resp r m pr = app_resp r m pr
about_follower msg_heartbeat_resp r m pr = heartbeat_resp r m pr
about_follower msg_unreachable r m pr = ok (with_progress r m.from (probe_if_replicate pr))
about_follower msg_transfer_leader r m pr = transfer_leader r m pr
about_follower _ r m pr = ok r

abbrev pub from_follower : MessageType → Raft → RaftMessage → Option Prog.Progress → Result Raft
from_follower t r m none = ok r
from_follower t r m (some pr) = about_follower t r m pr

unfoldable pub step_leader_on : MessageType → Raft → RaftMessage → Result Stepped
unfolding propose read_index about_follower bcast_heartbeat
step_leader_on msg_beat r m = done (bcast_heartbeat r)
step_leader_on msg_check_quorum r m = ok (r, none)
step_leader_on msg_prop r m = propose r m
step_leader_on msg_read_index r m = done (read_index r m)
step_leader_on t r m = done (from_follower t r m (progress_of r m.from))

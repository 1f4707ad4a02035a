-- ===== src/Raft/Others.antt =====
-- `stepCandidate` and `stepFollower` of raft/raft.go.
use my_raft_kv.Prelude.{
  ℕ, Bool, true, false, none, some, List, [], ◌∷◌, ◌++◌, ◌==◌, if◌then◌else◌, not,
  err_proposal_dropped, Result, ok, ◌>>=◌,
}
use my_raft_kv.Log.Entries.{Entry}
use my_raft_kv.Quorum.{VoteResult, vote_pending, vote_lost, vote_won}
use my_raft_kv.Raft.Message.{
  MessageType, RaftMessage, same_type, msg_prop, msg_app, msg_heartbeat, msg_snap, msg_vote_resp,
  msg_pre_vote_resp, msg_transfer_leader, msg_timeout_now, msg_read_index, msg_read_index_resp,
}
use my_raft_kv.Raft.State.{
  Raft, StateType, state_pre_candidate, campaign_election, campaign_transfer, send,
}
use my_raft_kv.Raft.Become.{become_follower, become_leader}
use my_raft_kv.Raft.Replicate.{bcast_append}
use my_raft_kv.Raft.Elect.{poll, campaign, hup}
use my_raft_kv.Raft.Receive.{handle_append_entries, handle_heartbeat, handle_snapshot}
use my_raft_kv.Raft.Leader.{Stepped, done}

abbrev pub is_pre_candidate : StateType → Bool
is_pre_candidate state_pre_candidate = true
is_pre_candidate _ = false

abbrev pub my_vote_resp_type : Raft → MessageType
my_vote_resp_type r = if is_pre_candidate r.state then msg_pre_vote_resp else msg_vote_resp

abbrev pub after_vote : Raft × VoteResult → Result Raft
after_vote (r, vote_won) =
    if is_pre_candidate r.state
    then campaign r campaign_election
    else (become_leader r >>= bcast_append)
after_vote (r, vote_lost) = become_follower r r.term 0
after_vote (r, vote_pending) = ok r

unfoldable pub count_answer : Raft → RaftMessage → Result Raft
unfolding poll campaign become_leader become_follower bcast_append
count_answer r m =
    if same_type m.type (my_vote_resp_type r)
    then after_vote (poll r m.from (not m.reject))
    else ok r

unfoldable pub step_candidate_on : MessageType → Raft → RaftMessage → Result Stepped
unfolding become_follower handle_append_entries handle_heartbeat handle_snapshot count_answer
step_candidate_on msg_prop r m = ok (r, some err_proposal_dropped)
step_candidate_on msg_app r m =
    done (become_follower r m.term m.from >>= λ r'. handle_append_entries r' m)
step_candidate_on msg_heartbeat r m =
    done (become_follower r m.term m.from >>= λ r'. handle_heartbeat r' m)
step_candidate_on msg_snap r m =
    done (become_follower r m.term m.from >>= λ r'. handle_snapshot r' m)
step_candidate_on t r m = done (count_answer r m)

unfoldable pub forward_proposal : Raft → RaftMessage → Result Stepped
unfolding send
forward_proposal r m =
    if r.lead == 0
    then ok (r, some err_proposal_dropped)
    else if r.disable_proposal_forwarding
    then ok (r, some err_proposal_dropped)
    else done (send r (record m { to = r.lead }))

unfoldable pub forward : Raft → RaftMessage → Result Raft
unfolding send
forward r m = if r.lead == 0 then ok r else send r (record m { to = r.lead })

-- `r.electionElapsed = 0` and `r.lead = m.From`.
abbrev pub heard_from : Raft → ℕ → Raft
heard_from r from = record r { election_elapsed = 0; lead = from }

unfoldable pub note_read : Raft → ℕ → List Entry → Raft
note_read r index (e ∷ []) = record r {
  read_states = r.read_states ++ record { index = index; request_ctx = e.payload } ∷ [];
}
note_read r index _ = r

-- `MsgApp` does not reach `handleAppendEntries` here.
unfoldable pub step_follower_on : MessageType → Raft → RaftMessage → Result Stepped
unfolding forward_proposal forward handle_heartbeat handle_snapshot hup note_read
step_follower_on msg_prop r m = forward_proposal r m
step_follower_on msg_app r m = ok (heard_from r m.from, none)
step_follower_on msg_heartbeat r m = done (handle_heartbeat (heard_from r m.from) m)
step_follower_on msg_snap r m = done (handle_snapshot (heard_from r m.from) m)
step_follower_on msg_transfer_leader r m = done (forward r m)
step_follower_on msg_timeout_now r m = done (hup r campaign_transfer)
step_follower_on msg_read_index r m = done (forward r m)
step_follower_on msg_read_index_resp r m = ok (note_read r m.index m.entries, none)
step_follower_on t r m = ok (r, none)

-- ===== src/Raft/Step.antt =====
-- `Step` of raft/raft.go, and the clock.
use my_raft_kv.Prelude.{
  ◌+◌, Bool, true, false, ◌&&◌, ◌||◌, not, none, ◌==◌, if◌then◌else◌, leb, ltb, Result, ok, panic,
  ◌>>=◌,
}
use my_raft_kv.Log.RaftLog as RLog
use my_raft_kv.Raft.Message.{
  MessageType, RaftMessage, message, same_type, vote_resp_msg_type, msg_hup, msg_beat, msg_app,
  msg_app_resp, msg_vote, msg_snap, msg_heartbeat, msg_check_quorum, msg_pre_vote,
  msg_pre_vote_resp,
}
use my_raft_kv.Raft.ReadOnly.{same_bytes}
use my_raft_kv.Raft.State.{
  Raft, StepFunc, step_nil, step_follower, step_candidate, step_leader, campaign_pre_election,
  campaign_election, send, is_leader, promotable, past_election_timeout, abort_leader_transfer,
}
use my_raft_kv.Raft.Become.{become_follower}
use my_raft_kv.Raft.Elect.{hup, transfer_context}
use my_raft_kv.Raft.Leader.{Stepped, done, step_leader_on}
use my_raft_kv.Raft.Others.{step_candidate_on, step_follower_on}

abbrev pub asks_vote : MessageType → Bool
asks_vote t = same_type t msg_pre_vote || same_type t msg_vote

-- The messages that only a leader sends.
abbrev pub from_leader : MessageType → Bool
from_leader t = same_type t msg_app || (same_type t msg_heartbeat || same_type t msg_snap)

abbrev pub in_lease : Raft → Bool
in_lease r = r.check_quorum && (not (r.lead == 0) && ltb r.election_elapsed r.election_timeout)

-- A message of a higher term; the Boolean says whether `Step` goes on.
unfoldable pub higher : Raft → RaftMessage → Result (Raft × Bool)
unfolding same_bytes become_follower
higher r m =
    if asks_vote m.type && (not (same_bytes m.context transfer_context) && in_lease r)
    then (RLog.last_term r.raft_log >>= λ _. RLog.last_index r.raft_log >>= λ _. ok (r, false))
    else if same_type m.type msg_pre_vote
    then ok (r, true)
    else if same_type m.type msg_pre_vote_resp && not m.reject
    then ok (r, true)
    else (become_follower r m.term (if from_leader m.type then m.from else 0) >>= λ r'.
        ok (r', true))

unfoldable pub lower : Raft → RaftMessage → Result Raft
unfolding send
lower r m =
    if (r.check_quorum || r.pre_vote)
      && (same_type m.type msg_heartbeat || same_type m.type msg_app)
    then send r (message msg_app_resp m.from)
    else if same_type m.type msg_pre_vote
    then (RLog.last_term r.raft_log >>= λ _. RLog.last_index r.raft_log >>= λ _.
        send r (record (message msg_pre_vote_resp m.from) { term = r.term; reject = true }))
    else ok r

unfoldable pub meet_term : Raft → RaftMessage → Result (Raft × Bool)
unfolding higher lower
meet_term r m =
    if m.term == 0
    then ok (r, true)
    else if ltb r.term m.term
    then higher r m
    else if ltb m.term r.term
    then (lower r m >>= λ r'. ok (r', false))
    else ok (r, true)

abbrev pub can_vote : Raft → RaftMessage → Bool
can_vote r m =
    (r.vote == m.from)
    || (((r.vote == 0) && (r.lead == 0)) || (same_type m.type msg_pre_vote && ltb r.term m.term))

unfoldable pub cast_vote : Raft → RaftMessage → Raft
cast_vote r m =
    if same_type m.type msg_vote then record r { election_elapsed = 0; vote = m.from } else r

abbrev pub vote_answer : Raft → RaftMessage → MessageType → RaftMessage
vote_answer r m t = record (message t m.from) { term = r.term; reject = true }

-- Both answers to a request for a vote have `Reject: true`.
unfoldable pub answer_vote : Raft → RaftMessage → Result Raft
unfolding send cast_vote
answer_vote r m =
    (if can_vote r m then RLog.is_up_to_date r.raft_log m.index m.log_term else ok false)
    >>= λ granted. vote_resp_msg_type m.type >>= λ t.
        send r (vote_answer r m t) >>= λ r'. ok (if granted then cast_vote r' m else r')

unfoldable pub run_step : StepFunc → Raft → RaftMessage → Result Stepped
unfolding step_leader_on step_candidate_on step_follower_on
run_step step_nil r m = panic
run_step step_follower r m = step_follower_on m.type r m
run_step step_candidate r m = step_candidate_on m.type r m
run_step step_leader r m = step_leader_on m.type r m

unfoldable pub dispatch : MessageType → Raft → RaftMessage → Result Stepped
unfolding hup answer_vote run_step
dispatch msg_hup r m =
    done (hup r (if r.pre_vote then campaign_pre_election else campaign_election))
dispatch msg_vote r m = done (answer_vote r m)
dispatch msg_pre_vote r m = done (answer_vote r m)
dispatch t r m = run_step r.step r m

unfoldable pub step : Raft → RaftMessage → Result Stepped
unfolding meet_term dispatch
step r m = meet_term r m >>= λ (r', go). if go then dispatch m.type r' m else ok (r', none)

-- An error is only logged.
unfoldable pub tick_election : Raft → Result Raft
unfolding step promotable past_election_timeout
tick_election r =
    let r' = record r { election_elapsed = r.election_elapsed + 1 } in
    if promotable r' && past_election_timeout r'
    then (step (record r' { election_elapsed = 0 }) (record (message msg_hup 0) { from = r.id })
        >>= λ (r'', e). ok r'')
    else ok r'

unfoldable pub quorum_time : Raft → Result Raft
unfolding step
quorum_time r =
    if leb r.election_timeout r.election_elapsed
    then ((if r.check_quorum
          then (step (record r { election_elapsed = 0 })
                (record (message msg_check_quorum 0) { from = r.id })
              >>= λ (r', e). ok r')
          else ok (record r { election_elapsed = 0 }))
        >>= λ r'. ok (
            if is_leader r'.state && not (r'.lead_transferee == 0)
            then abort_leader_transfer r'
            else r'))
    else ok r

unfoldable pub tick_heart_beat : Raft → Result Raft
unfolding quorum_time step
tick_heart_beat r =
    quorum_time (record r {
      heartbeat_elapsed = r.heartbeat_elapsed + 1;
      election_elapsed = r.election_elapsed + 1;
    })
    >>= λ r'.
        if not (is_leader r'.state)
        then ok r'
        else if leb r'.heartbeat_timeout r'.heartbeat_elapsed
        then (step (record r' { heartbeat_elapsed = 0 })
              (record (message msg_beat 0) { from = r'.id })
            >>= λ (r'', e). ok r'')
        else ok r'

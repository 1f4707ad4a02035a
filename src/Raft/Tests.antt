-- ===== src/Raft/Tests.antt =====
-- Steps of a node, and the theorems there.
use my_raft_kv.Prelude.{
  ℕ, map, ◌≤◌, ◌≡◌, ◌≢◌, refl, ◌⊎◌, true, false, none, List, [], ◌∷◌, ◌++◌, arith, ok, some, lookup,
  keys, insert,
}
use my_raft_kv.Log.Storage.{as_storage}
use my_raft_kv.Log.RaftLog as RLog
use my_raft_kv.Log.RaftLog.{RaftLog}
use my_raft_kv.Log.Unstable.{maybe_first_index, maybe_last_index, maybe_term}
use my_raft_kv.Raft.Samples.{trk, node}
use my_raft_kv.Raft.Message.{RaftMessage, message, msg_app, msg_app_resp, msg_vote, msg_vote_resp}
use my_raft_kv.Raft.ReadOnly.{same_bytes}
use my_raft_kv.Raft.State.{
  Raft, state_candidate, state_leader, step_candidate, reset, reset_randomized_election_timeout,
  send, progress_of, campaign_transfer,
}
use my_raft_kv.Tracker.Progress.{Progress, state_replicate}
use my_raft_kv.Raft.Replicate.{send_all, rounds}
use my_raft_kv.Raft.Replicate.Rounds.{send_all_total}
use my_raft_kv.Raft.Become.{become_follower}
use my_raft_kv.Raft.Receive.{handle_append_entries}
use my_raft_kv.Raft.Others.{step_candidate_on}
use my_raft_kv.Raft.Step.{step, meet_term, higher, dispatch, run_step, answer_vote, cast_vote}
use my_raft_kv.Raft.Elect.{campaign, voter_ids, transfer_context}
use my_raft_kv.Raft.Standing.{Outcome, campaign_lem}
use my_raft_kv.Raft.Voters.{request, without}
use my_raft_kv.Log.Samples.{log-IsValid}
use my_raft_kv.Tracker.Visit.{insertion_sort}
use my_raft_kv.Quorum.{ids}
use my_raft_kv.Raft.Terms.{step-term_up, candidate_term_lost}
use my_raft_kv.Raft.Ballots.{answer_vote-rejects}

-- Node 2 asks for a vote in term 4, with as much of the log as the node has.
abbrev vote_request : RaftMessage
vote_request = record (message msg_vote 1) { from = 2; term = 4; index = 8; log_term = 3 }

abbrev refusal : RaftMessage
refusal = record (message msg_vote_resp 2) { from = 1; term = 4; reject = true }

abbrev voted : Raft
voted = record node {
  term = 4;
  vote = 2;
  lead = 0;
  election_elapsed = 0;
  drawn = 2;
  msgs = refusal ∷ [];
}

votes : step node vote_request ≡ ok (voted, none)
unfolding step meet_term higher become_follower reset reset_randomized_election_timeout dispatch
    answer_vote send cast_vote same_bytes RLog.is_up_to_date RLog.last_term RLog.last_index
    RLog.term RLog.first_index maybe_first_index maybe_last_index maybe_term as_storage
votes = refl

step-term_up_example :
    (node.term ≤ voted.term)
    × (voted.term ≡ node.term → (node.vote ≡ 0) ⊎ (voted.vote ≡ node.vote))
    × (node.raft_log.committed ≤ voted.raft_log.committed)
    × ((ms : List RaftMessage) × (voted.msgs ≡ node.msgs ++ ms))
step-term_up_example =
    step-term_up node vote_request (omega arith) (omega arith) (λ e. refl) {r' = voted} {e = none}
      votes

abbrev candidate : Raft
candidate = record node { state = state_candidate; step = step_candidate; lead = 0; vote = 1 }

-- Entries up to index 8, as `send` makes the message.
abbrev entries_sent : RaftMessage
entries_sent = record (message msg_app 1) { from = 3; index = 8; log_term = 3; commit = 5 }

abbrev fallen : Raft
fallen = record node {
  term = 0;
  election_elapsed = 0;
  drawn = 2;
  msgs = record (message msg_app_resp 3) { from = 1; index = 8 } ∷ [];
}

falls : step candidate entries_sent ≡ ok (fallen, none)
unfolding step meet_term dispatch run_step step_candidate_on become_follower reset
    reset_randomized_election_timeout handle_append_entries send RLog.maybe_append RLog.match_term
    RLog.find_conflict RLog.commit_to RLog.last_index RLog.term RLog.first_index maybe_first_index
    maybe_last_index maybe_term as_storage
falls = refl

candidate_term_lost_example : fallen.term ≡ 0
candidate_term_lost_example =
    candidate_term_lost candidate entries_sent refl refl refl {r' = fallen} {e = none} falls

-- The follower in term 4 without a leader, which answers the same request.
abbrev leaderless : Raft
leaderless = record node { term = 4; lead = 0 }

abbrev answered : Raft
answered = record leaderless { vote = 2; election_elapsed = 0; msgs = refusal ∷ [] }

answers : answer_vote leaderless vote_request ≡ ok answered
unfolding answer_vote send cast_vote RLog.is_up_to_date RLog.last_term RLog.last_index RLog.term
    RLog.first_index maybe_first_index maybe_last_index maybe_term as_storage
answers = refl

answer_vote-rejects_example :
    (a : RaftMessage) × (answered.msgs ≡ leaderless.msgs ++ a ∷ []) × (a.to ≡ 2) × (a.reject ≡ true)
answer_vote-rejects_example = answer_vote-rejects leaderless vote_request {r' = answered} answers

-- The node has a vote of 2 only: it asks 2 and 3.
abbrev once_voted : Raft
once_voted = record node { trk = record trk { votes = (2, false) ∷ [] } }

campaign_lem_example :
    (r' : Raft) × (last_term : ℕ) × (campaign once_voted campaign_transfer ≡ ok r')
    × (RLog.term node.raft_log 8 ≡ ok last_term)
    × (r'.term ≡ 4)
    × (r'.vote ≡ 1)
    × Outcome once_voted 8 last_term r'
campaign_lem_example = campaign_lem once_voted log-IsValid refl (omega arith) (omega arith)

-- It asks each of the two, with the last entry of its log.
asks_both :
    map (request 1 4 8 3) (without 1 (voter_ids once_voted))
    ≡ record (message msg_vote 2) {
      from = 1;
      term = 4;
      index = 8;
      log_term = 3;
      context = transfer_context;
    }
      ∷ record (message msg_vote 3) {
        from = 1;
        term = 4;
        index = 8;
        log_term = 3;
        context = transfer_context;
      }
      ∷ []
unfolding without keys insertion_sort ids insert
asks_both = refl

-- A follower that lacks the entries 7 and 8.
abbrev behind : Progress
behind = record {
  match = 6;
  next = 7;
  state = state_replicate;
  pending_snapshot = 0;
  recent_active = true;
  probe_sent = false;
  inflights = record { start = 0; count = 0; size = 2; buffer = [] };
  is_learner = false;
}

abbrev leading : Raft
leading = record node { trk = record trk { progress = (2, behind) ∷ [] }; state = state_leader }

known : progress_of leading 2 ≡ some behind
unfolding lookup
known = refl

send_all_total_example : send_all (rounds leading 2) leading 2 ≢ ok none
send_all_total_example = send_all_total leading 2 behind known (omega arith)

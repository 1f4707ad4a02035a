-- ===== src/Raft/Elect.antt =====
-- raft/raft.go: elections. `reset` does not clear the votes of an earlier election.
use my_raft_kv.Prelude.{
  ℕ, Bool, true, false, ◌&&◌, not, List, [], ◌∷◌, ◌==◌, if◌then◌else◌, ltb, keys, add64, max_uint64,
  Result, ok, ◌>>=◌,
}
use my_raft_kv.Log.RaftLog as RLog
use my_raft_kv.Log.RaftLog.{must}
use my_raft_kv.Quorum.{VoteResult, vote_won, ids}
use my_raft_kv.Tracker.{record_vote, tally_votes}
use my_raft_kv.Tracker.Visit.{insertion_sort}
use my_raft_kv.Raft.Message.{
  MessageType, msg_vote, msg_pre_vote, RaftMessage, message, vote_resp_msg_type,
}
use my_raft_kv.Raft.State.{
  Raft, CampaignType, campaign_pre_election, campaign_election, campaign_transfer, is_leader, send,
  num_of_pending_conf, promotable,
}
use my_raft_kv.Raft.Become.{become_candidate, become_leader}

-- `string(campaignTransfer)`, as bytes.
abbrev pub transfer_context : List ℕ
transfer_context =
    b'C' ∷ b'a' ∷ b'm' ∷ b'p' ∷ b'a' ∷ b'i' ∷ b'g' ∷ b'n' ∷ b'T' ∷ b'r' ∷ b'a' ∷ b'n' ∷ b's' ∷ b'f'
    ∷ b'e' ∷ b'r' ∷ []

-- The type of the message is only logged.
unfoldable pub poll : Raft → ℕ → Bool → Raft × VoteResult
unfolding record_vote tally_votes
poll r id v = let trk = record_vote r.trk id v in (record r { trk = trk }, (tally_votes trk).1)

abbrev pub is_won : VoteResult → Bool
is_won vote_won = true
is_won _ = false

-- The message that asks for the votes, and its term. `becomePreCandidate` does nothing.
unfoldable pub prepare : Raft → CampaignType → Result (Raft × MessageType × ℕ)
unfolding become_candidate
prepare r campaign_election = ok (r, msg_pre_vote, add64 r.term 1)
prepare r _ = become_candidate r >>= λ r'. ok (r', msg_vote, r'.term)

abbrev pub context_of : CampaignType → List ℕ
context_of campaign_transfer = transfer_context
context_of _ = []

abbrev pub vote_request : MessageType → ℕ → CampaignType → ℕ → ℕ → ℕ → RaftMessage
vote_request vote_msg term t id li lt = record (message vote_msg id) {
  term = term;
  index = li;
  log_term = lt;
  context = context_of t;
}

unfoldable pub ask_for_votes : MessageType → ℕ → CampaignType → List ℕ → Raft → Result Raft
unfolding send
ask_for_votes vote_msg term t [] r = ok r
ask_for_votes vote_msg term t (id ∷ ids) r =
    if id == r.id
    then ask_for_votes vote_msg term t ids r
    else (RLog.last_index r.raft_log >>= λ li. RLog.last_term r.raft_log >>= λ lt.
        send r (vote_request vote_msg term t id li lt) >>= ask_for_votes vote_msg term t ids)

-- `sort.Slice` over the ids of the voters.
abbrev pub voter_ids : Raft → List ℕ
voter_ids r = insertion_sort (keys (ids r.trk.voters))

abbrev pub after_poll :
    (Raft → Result Raft) → CampaignType → MessageType → ℕ → Raft × VoteResult → Result Raft
after_poll won t vote_msg term (r, res) =
    if is_won res then won r else ask_for_votes vote_msg term t (voter_ids r) r

-- `campaign`, with what it does on the votes of a quorum. The node votes for itself.
unfoldable pub run_campaign : (Raft → Result Raft) → Raft → CampaignType → Result Raft
unfolding prepare poll ask_for_votes
run_campaign won r t = prepare r t >>= λ (r', vote_msg, term).
    vote_resp_msg_type vote_msg >>= λ _. after_poll won t vote_msg term (poll r' r'.id true)

-- Only the election after a pre-election starts a second one.
unfoldable pub campaign : Raft → CampaignType → Result Raft
unfolding run_campaign become_leader
campaign r campaign_pre_election =
    run_campaign (λ r'. run_campaign become_leader r' campaign_election) r campaign_pre_election
campaign r t = run_campaign become_leader r t

unfoldable pub hup : Raft → CampaignType → Result Raft
unfolding campaign promotable num_of_pending_conf
hup r t =
    if is_leader r.state
    then ok r
    else if not (promotable r)
    then ok r
    else (must (
          RLog.slice r.raft_log (add64 r.raft_log.applied 1) (add64 r.raft_log.committed 1)
            max_uint64)
        >>= λ ents.
            if not (num_of_pending_conf ents == 0) && ltb r.raft_log.applied r.raft_log.committed
            then ok r
            else campaign r t)

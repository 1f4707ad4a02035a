-- ===== src/Raft/Later/Elects.antt =====
-- An election raises the term by at most one, and a vote in a term stays.
use my_raft_kv.Prelude.{
  ℕ, Bool, true, ◌&&◌, not, List, [], ◌∷◌, refl, ◌==◌, ltb, add64, max_uint64, Always, Always-ok,
  Always-if, Always-then, Always-after, Result, ok,
}
use my_raft_kv.Log.RaftLog as RLog
use my_raft_kv.Log.RaftLog.{RaftLog, must}
use my_raft_kv.Quorum.{VoteResult}
use my_raft_kv.Raft.Message.{MessageType, vote_resp_msg_type}
use my_raft_kv.Raft.State.{
  Raft, CampaignType, campaign_pre_election, campaign_election, campaign_transfer, is_leader,
  num_of_pending_conf, promotable,
}
use my_raft_kv.Raft.Become.{become_leader}
use my_raft_kv.Raft.Elect.{
  poll, prepare, vote_request, ask_for_votes, is_won, voter_ids, after_poll, run_campaign, campaign,
  hup,
}
use my_raft_kv.Raft.Quiet.{Quiet, Quiet-refl, still, Quiet-bind, send-Quiet}
use my_raft_kv.Raft.Later.{
  Later, Small, Quiet-Later, Later-trans, Later-after, quietly, become_candidate-Later,
  become_leader-Later,
}

poll-Quiet : (r : Raft) (id : ℕ) (v : Bool) → Quiet r (poll r id v).0
unfolding poll
poll-Quiet r id v = still refl refl refl refl refl

pub polled : {r : Raft} (id : ℕ) (v : Bool) → Later r (poll r id v).0
polled {r} id v = Quiet-Later (poll-Quiet r id v)

ask_for_votes-Quiet :
    (q : MessageType) (term : ℕ) (t : CampaignType) (is : List ℕ) (r : Raft)
    → Always (Quiet r) (ask_for_votes q term t is r)
unfolding ask_for_votes
ask_for_votes-Quiet q term t [] r = Always-ok Quiet-refl
ask_for_votes-Quiet q term t (id ∷ is) r =
    Always-if (id == r.id) (ask_for_votes-Quiet q term t is r) (
      Always-after (RLog.last_index r.raft_log) (λ li.
        Always-after (RLog.last_term r.raft_log) (λ lt.
          Quiet-bind (send-Quiet r (vote_request q term t id li lt))
            (ask_for_votes-Quiet q term t is))))

-- A campaign, given what comes after it is won; only a plain election leaves the term as it is.
prepare-Later : (r : Raft) (t : CampaignType) → Small r → Always (λ s. Later r s.0) (prepare r t)
unfolding prepare
prepare-Later r campaign_election p = Always-ok (Quiet-Later Quiet-refl)
prepare-Later r campaign_pre_election p =
    Always-then (become_candidate-Later r p) (λ r' l. Always-ok l.0)
prepare-Later r campaign_transfer p =
    Always-then (become_candidate-Later r p) (λ r' l. Always-ok l.0)

record Winning (won : Raft → Result Raft) : Type 0 where
  then_later : (r : Raft) → Always (Later r) (won r)

after_poll-Later :
    {won : Raft → Result Raft}
    → Winning won
    → (t : CampaignType) (q : MessageType) (term : ℕ) (s : Raft × VoteResult)
    → Always (Later s.0) (after_poll won t q term s)
after_poll-Later w t q term (r, v) =
    Always-if (is_won v) (w.then_later r) (quietly (ask_for_votes-Quiet q term t (voter_ids r) r))

run_campaign-after :
    {won : Raft → Result Raft}
    → Winning won
    → (r : Raft) (t : CampaignType) → Always (λ s. Later r s.0) (prepare r t)
    → Always (Later r) (run_campaign won r t)
unfolding run_campaign
run_campaign-after {won} w r t h = Always-then h (λ (r', q, term) l.
    Always-after (vote_resp_msg_type q) (λ _.
      Later-after (Later-trans l (polled r'.id true))
        (after_poll-Later w t q term (poll r' r'.id true))))

leader-Winning : Winning become_leader
leader-Winning = record { then_later = become_leader-Later }

second-Winning : Winning (λ r. run_campaign become_leader r campaign_election)
unfolding prepare
second-Winning = record {
  then_later = λ r.
      run_campaign-after leader-Winning r campaign_election (Always-ok (Quiet-Later Quiet-refl));
}

pub election-Later : (r : Raft) → Always (Later r) (campaign r campaign_election)
unfolding campaign
election-Later r = second-Winning.then_later r

pub campaign-Later : (r : Raft) (t : CampaignType) → Small r → Always (Later r) (campaign r t)
unfolding campaign
campaign-Later r campaign_pre_election p =
    run_campaign-after second-Winning r campaign_pre_election
      (prepare-Later r campaign_pre_election p)
campaign-Later r campaign_election p = election-Later r
campaign-Later r campaign_transfer p =
    run_campaign-after leader-Winning r campaign_transfer (prepare-Later r campaign_transfer p)

pub hup-Later : (r : Raft) (t : CampaignType) → Small r → Always (Later r) (hup r t)
unfolding hup
hup-Later r t p = Always-if (is_leader r.state) stays (
    Always-if (not (promotable r)) stays (
      Always-after
        (must (
          RLog.slice r.raft_log (add64 r.raft_log.applied 1) (add64 r.raft_log.committed 1)
            max_uint64))
        (λ ents.
          Always-if
            (not (num_of_pending_conf ents == 0) && ltb r.raft_log.applied r.raft_log.committed)
            stays (campaign-Later r t p))))
  where
    stays : Always (Later r) (ok r)
    stays = Always-ok (Quiet-Later Quiet-refl)

-- ===== src/Raft/Standing.antt =====
-- How a campaign for the next term ends.
use my_raft_kv.Prelude.{
  ℕ, ◌+◌, ◌^◌, ◌<◌, Bool, true, false, List, ◌++◌, map, ◌≡◌, ◌≢◌, refl, ◌==◌, arith, add64, ok,
}
use my_raft_kv.Log.RaftLog as RLog
use my_raft_kv.Log.RaftLog.Valid.{IsValid}
use my_raft_kv.Log.RaftLog.Commit.{term_total}
use my_raft_kv.Quorum.{VoteResult, vote_pending, vote_lost, vote_won}
use my_raft_kv.Tracker.{record_vote, tally_votes}
use my_raft_kv.Raft.State.{
  Raft, state_leader, state_candidate, step_candidate, step_leader, tick_election, tick_heart_beat,
  is_follower, is_leader, reset, reset_randomized_election_timeout, campaign_transfer,
}
use my_raft_kv.Raft.Voters.{request, ask_for_votes_lem, Others, without, without-Others}
use my_raft_kv.Raft.Become.{become_candidate, become_leader}
use my_raft_kv.Raft.Elect.{prepare, poll, run_campaign, campaign, voter_ids, is_won}

abbrev stood : Raft → Raft
stood r = record r {
  step = step_candidate;
  tick = tick_election;
  state = state_candidate;
  term = r.term + 1;
  vote = r.id;
  lead = 0;
  lead_transferee = 0;
  election_elapsed = 0;
  heartbeat_elapsed = 0;
  randomized_election_timeout = r.election_timeout + r.draws r.drawn r.election_timeout;
  drawn = r.drawn + 1;
}

become_candidate-stood :
    (r : Raft)
    → is_leader r.state ≡ false
    → 0 < r.election_timeout
    → r.term + 1 < 2 ^ 64
    → become_candidate r ≡ ok (stood r)
unfolding become_candidate reset reset_randomized_election_timeout
become_candidate-stood r s e p = rw (s, nt, nz, near) refl
  where
    near : add64 r.term 1 ≡ r.term + 1
    near = omega (arith, p)

    nz : (r.election_timeout == 0) ≡ false
    nz = ground (arith, e)

    nt : (r.term == add64 r.term 1) ≡ false
    nt = ground (arith, p)

abbrev led : Raft → Raft
led r = record r {
  step = step_leader;
  tick = tick_heart_beat;
  state = state_leader;
  lead = r.id;
  lead_transferee = 0;
  election_elapsed = 0;
  heartbeat_elapsed = 0;
  randomized_election_timeout = r.election_timeout + r.draws r.drawn r.election_timeout;
  drawn = r.drawn + 1;
}

become_leader-led :
    (r : Raft) → is_follower r.state ≡ false → 0 < r.election_timeout → become_leader r ≡ ok (led r)
unfolding become_leader reset reset_randomized_election_timeout
become_leader-led r s e = rw (s, same, nz)
  where
    nz : (r.election_timeout == 0) ≡ false
    nz = ground (arith, e)

    same : (r.term == r.term) ≡ true
    same = ground arith

abbrev with_vote : Raft → Raft
with_vote r = record r { trk = record_vote r.trk r.id true }

-- A vote that is recorded leaves the configuration alone.
record_vote-voters : (r : Raft) (id : ℕ) (b : Bool) → (record_vote r.trk id b).voters ≡ r.trk.voters
unfolding record_vote
record_vote-voters r id b = refl

-- What a campaign is told of the votes, with the node's own.
abbrev pub own_result : Raft → VoteResult
own_result r = (tally_votes (record_vote r.trk r.id true)).1

won_lem :
    (r : Raft)
    → is_leader r.state ≡ false
    → 0 < r.election_timeout
    → r.term + 1 < 2 ^ 64
    → own_result r ≡ vote_won
    → campaign r campaign_transfer ≡ ok (led (with_vote (stood r)))
unfolding campaign run_campaign prepare poll
won_lem r s e p q =
    rw (become_candidate-stood r s e p, q, become_leader-led (with_vote (stood r)) refl e) refl

undecided_lem :
    (r : Raft) (v : IsValid r.raft_log) (last_term : ℕ)
    → RLog.term r.raft_log v.last ≡ ok last_term
    → is_leader r.state ≡ false
    → 0 < r.election_timeout
    → r.term + 1 < 2 ^ 64
    → (res : VoteResult) → own_result r ≡ res
    → is_won res ≡ false
    → campaign r campaign_transfer
      ≡ ok (record (with_vote (stood r)) {
        msgs =
            r.msgs ++ map (request r.id (r.term + 1) v.last last_term) (without r.id (voter_ids r));
      })
unfolding campaign run_campaign prepare poll record_vote
undecided_lem r v last_term h s e p res q n =
    rw (become_candidate-stood r s e p, q, n)
      (ask_for_votes_lem (with_vote (stood r)) v last_term h (r.term + 1) (voter_ids r) r.msgs
        (omega arith))

-- How a campaign of the node r ends, in r': the votes decide.
pub data Outcome (r : Raft) (last last_term : ℕ) (r' : Raft) : Type 0 where
  elected :
      own_result r ≡ vote_won
      → r'.state ≡ state_leader
      → r'.lead ≡ r.id
      → r'.msgs ≡ r.msgs
      → Outcome r last last_term r'
  undecided :
      own_result r ≢ vote_won
      → r'.state ≡ state_candidate
      → r'.lead ≡ 0
      → (asked : List ℕ) → Others r asked
      → r'.msgs ≡ r.msgs ++ map (request r.id (r.term + 1) last last_term) asked
      → Outcome r last last_term r'

-- A node that is not the leader, with a valid log, a term below 2 ^ 64 - 1 and an election timeout that is
-- not 0, campaigns for a transfer in the next term and votes for itself, and the call returns. If the
-- votes on record with its own one make `TallyVotes` answer that it has won, it is the leader and sends
-- nothing. Otherwise it is a candidate without a leader, and has added one request to its messages for
-- each other voter of the two configurations, in the order of their ids, each with the new term and the
-- last index and last term of its log.
pub campaign_lem :
    (r : Raft) (v : IsValid r.raft_log)
    → is_leader r.state ≡ false
    → 0 < r.election_timeout
    → r.term + 1 < 2 ^ 64
    → (r' : Raft) × (last_term : ℕ) × (campaign r campaign_transfer ≡ ok r')
      × (RLog.term r.raft_log v.last ≡ ok last_term)
      × (r'.term ≡ r.term + 1)
      × (r'.vote ≡ r.id)
      × Outcome r v.last last_term r'
campaign_lem r v s e p =
    let (lt, h) = term_total v v.last in
    let (r', lt', (returns, is_term, t, vote, o)) = by_result lt h (own_result r) refl in
    (r', lt', returns, is_term, t, vote, o)
  where
    Stood : ℕ → Raft → Type 0
    Stood lt r' =
        (campaign r campaign_transfer ≡ ok r')
        × (RLog.term r.raft_log v.last ≡ ok lt)
        × (r'.term ≡ r.term + 1)
        × (r'.vote ≡ r.id)
        × Outcome r v.last lt r'

    asks :
        (lt : ℕ)
        → RLog.term r.raft_log v.last ≡ ok lt
        → (res : VoteResult) → own_result r ≡ res
        → is_won res ≡ false
        → own_result r ≢ vote_won
        → (r' : Raft) × (lt : ℕ) × Stood lt r'
    asks lt h res q n d = (
      _,
      lt,
      (
        undecided_lem r v lt h s e p res q n,
        h,
        refl,
        refl,
        undecided d refl refl (without r.id (voter_ids r)) (without-Others r) refl,
      ),
    )

    by_result :
        (lt : ℕ)
        → RLog.term r.raft_log v.last ≡ ok lt
        → (res : VoteResult) → own_result r ≡ res
        → (r' : Raft) × (lt : ℕ) × Stood lt r'
    by_result lt h vote_won q =
        (_, lt, (won_lem r s e p q, h, refl, refl, elected q refl refl refl))
    by_result lt h vote_pending q = asks lt h vote_pending q refl (λ w. cc)
    by_result lt h vote_lost q = asks lt h vote_lost q refl (λ w. cc)

-- ===== src/Tracker/Votes.antt =====
-- The votes that a candidate has recorded.
use my_raft_kv.Prelude.{
  ℕ, ◌≡◌, ◌≢◌, Bool, none, some, ◌==◌, if◌then◌else◌, lookup, lookup-insert, arith,
}
use my_raft_kv.Quorum.{vote_pending}
use my_raft_kv.Quorum.Decided.{Extends, joint_vote_result-Extends}
use my_raft_kv.Tracker.{ProgressTracker, record_vote, tally_votes}

-- Only the first vote of a voter counts: it is kept, a new voter's vote is added, and nobody else's
-- vote changes.
pub lookup-record_vote :
    (p : ProgressTracker) (id j : ℕ) (v : Bool)
    → lookup j (record_vote p id v).votes
      ≡ elim (lookup j p.votes) [ some b ↦ some b | none ↦ if id == j then some v else none ]
unfolding record_vote
lookup-record_vote p id j v = ground (arith, lookup-insert id j v p.votes)

record_vote-Extends :
    (p : ProgressTracker) (id : ℕ) (v : Bool) → Extends p.votes (record_vote p id v).votes
unfolding record_vote
record_vote-Extends p id v j b h = ground (arith, lookup-insert id j v p.votes)

-- An election that is won or lost keeps its result whatever vote is recorded after.
pub tally_votes-record_vote :
    (p : ProgressTracker) (id : ℕ) (v : Bool)
    → (tally_votes p).1 ≢ vote_pending
    → (tally_votes (record_vote p id v)).1 ≡ (tally_votes p).1
unfolding tally_votes record_vote
tally_votes-record_vote p id v h =
    joint_vote_result-Extends p.voters p.votes (record_vote p id v).votes
      (record_vote-Extends p id v) h

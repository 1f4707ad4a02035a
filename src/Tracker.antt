-- ===== src/Tracker.antt =====
-- raft/tracker: what a leader knows of each follower, and the votes of an election.
-- `ProgressMap` maps ids to pointers; a change through such a pointer is `set_progress`.
pub mod Inflights
pub mod Progress
pub mod Votes
pub mod Visit
mod Tests
use my_raft_kv.Prelude.{
  ℕ, suc, ◌+◌, Bool, true, false, Option, none, some, List, [], ◌∷◌, if◌then◌else◌, lookup, insert,
}
use my_raft_kv.Quorum.{
  VoteResult, MajorityConfig, JointConfig, joint_vote_result, joint_committed_index,
}

pub record ProgressTracker : Type 0 where
  pub voters : JointConfig
  pub progress : List (ℕ × Progress.Progress)
  pub votes : List (ℕ × Bool)
  pub max_inflight : ℕ

unfoldable pub make_progress_tracker : ℕ → ProgressTracker
make_progress_tracker max_inflight = record {
  voters = record { incoming = []; outgoing = [] };
  progress = [];
  votes = [];
  max_inflight = max_inflight;
}

-- The body is `return true`.
unfoldable pub is_singleton : ProgressTracker → Bool
is_singleton p = true

-- `Config.Clone` returns an empty configuration.
unfoldable pub clone_config : JointConfig → JointConfig
clone_config c = record { incoming = []; outgoing = [] }

unfoldable pub reset_votes : ProgressTracker → ProgressTracker
reset_votes p = record p { votes = [] }

abbrev vote_once : Option Bool → ℕ → Bool → List (ℕ × Bool) → List (ℕ × Bool)
vote_once (some _) id v votes = votes
vote_once none id v votes = insert id v votes

unfoldable pub record_vote : ProgressTracker → ℕ → Bool → ProgressTracker
record_vote p id v = record p { votes = vote_once (lookup id p.votes) id v p.votes }

abbrev pub acked_index : List (ℕ × Progress.Progress) → ℕ → Option ℕ
acked_index l id = elim (lookup id l) [ none ↦ none | some pr ↦ some pr.match ]

-- `ProgressTracker.Committed`
unfoldable pub committed : ProgressTracker → ℕ
committed p = joint_committed_index p.voters (acked_index p.progress)

-- One round of the loop of `TallyVotes`, over a follower that is `learner`.
abbrev count_vote : Bool → Option Bool → ℕ × ℕ → ℕ × ℕ
count_vote true vote n = n
count_vote false none n = n
count_vote false (some true) (granted, rejected) = (suc granted, rejected)
count_vote false (some false) (granted, rejected) = (granted, suc rejected)

unfoldable pub count_votes : List (ℕ × Progress.Progress) → List (ℕ × Bool) → ℕ × ℕ → ℕ × ℕ
count_votes [] votes n = n
count_votes ((id, pr) ∷ l) votes n =
    count_votes l votes (count_vote pr.is_learner (lookup id votes) n)

unfoldable pub tally_votes : ProgressTracker → (ℕ × ℕ) × VoteResult
unfolding count_votes
tally_votes p = (count_votes p.progress p.votes (0, 0), joint_vote_result p.voters p.votes)

abbrev pub set_progress : ProgressTracker → ℕ → Progress.Progress → ProgressTracker
set_progress p id pr = record p { progress = insert id pr p.progress }

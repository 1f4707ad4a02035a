-- ===== src/Tracker/Tests.antt =====
-- Runs of raft/tracker, and its theorems at concrete followers.
use my_raft_kv.Prelude.{◌≡◌, refl, true, false, [], ◌∷◌, arith, lookup}
use my_raft_kv.Quorum.{
  vote_won, vote_result, joint_vote_result, joint_committed_index, committed_index,
}
use my_raft_kv.Tracker.{ProgressTracker, tally_votes, committed}
use my_raft_kv.Tracker.Progress.{
  Progress, state_probe, state_snapshot, become_probe, maybe_update, optimistic_update,
  maybe_decr_to,
}
use my_raft_kv.Tracker.Progress.Bounds.{IsValid, optimistic_update-IsValid}

abbrev snapshotting : Progress
snapshotting = record {
  match = 3;
  next = 4;
  state = state_snapshot;
  pending_snapshot = 9;
  recent_active = true;
  probe_sent = false;
  inflights = record { start = 0; count = 0; size = 2; buffer = [] };
  is_learner = false;
}

abbrev probing : Progress
probing = record snapshotting { state = state_probe; next = 8; pending_snapshot = 0 }

snapshotting-IsValid : IsValid snapshotting
snapshotting-IsValid = omega arith

probing-IsValid : IsValid probing
probing-IsValid = omega arith

progress_runs :
    ((become_probe snapshotting).next ≡ 10)
    × ((maybe_update probing 5).0.match ≡ 5)
    × ((maybe_decr_to probing 7 4).0.next ≡ 5)
    × ((maybe_decr_to probing 6 4).1 ≡ false)
unfolding become_probe maybe_update maybe_decr_to
progress_runs = (refl, refl, refl, refl)

optimistic_update-IsValid_example : IsValid (optimistic_update probing 9)
optimistic_update-IsValid_example =
    optimistic_update-IsValid probing 9 probing-IsValid (omega arith) (omega arith)

-- Three voters; 1 and 2 have granted.
abbrev trio : ProgressTracker
trio = record {
  voters = record { incoming = 1 ∷ 2 ∷ 3 ∷ []; outgoing = [] };
  progress = (1, probing) ∷ (2, snapshotting) ∷ (3, record probing { is_learner = true }) ∷ [];
  votes = (1, true) ∷ (2, true) ∷ [];
  max_inflight = 2;
}

trio_runs : (tally_votes trio ≡ ((2, 0), vote_won)) × (committed trio ≡ 3)
unfolding tally_votes committed joint_vote_result vote_result joint_committed_index committed_index
    lookup
trio_runs = (refl, refl)

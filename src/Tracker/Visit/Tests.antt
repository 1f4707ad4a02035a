-- ===== src/Tracker/Visit/Tests.antt =====
-- A visit of three followers.
use my_raft_kv.Prelude.{ℕ, false, [], ◌∷◌, ◌≡◌, refl, keys}
use my_raft_kv.Tracker.{ProgressTracker}
use my_raft_kv.Tracker.Progress.{Progress, state_probe}
use my_raft_kv.Tracker.Visit.{visit_ids}
use my_raft_kv.Tracker.Visit.Order.{Rises, occurrences, visit_ids_lem}

abbrev follower : Progress
follower = record {
  match = 0;
  next = 1;
  state = state_probe;
  pending_snapshot = 0;
  recent_active = false;
  probe_sent = false;
  inflights = record { start = 0; count = 0; size = 2; buffer = [] };
  is_learner = false;
}

abbrev three : ProgressTracker
three = record {
  voters = record { incoming = []; outgoing = [] };
  progress = (5, follower) ∷ (2, follower) ∷ (9, follower) ∷ [];
  votes = [];
  max_inflight = 2;
}

visits : visit_ids three ≡ 2 ∷ 5 ∷ 9 ∷ []
unfolding visit_ids
visits = refl

visit_ids_lem_example :
    Rises (visit_ids three)
    × ((z : ℕ) → occurrences z (visit_ids three) ≡ occurrences z (keys three.progress))
visit_ids_lem_example = visit_ids_lem three

-- ===== src/Tracker/Progress.antt =====
-- raft/tracker/progress.go and state.go: the replication state of one follower.
pub mod Bounds
pub mod Decrease
use my_raft_kv.Prelude.{
  ℕ, ◌+◌, ◌-◌, Bool, true, false, leb, ltb, ◌==◌, if◌then◌else◌, not, add64, sub64, min, max,
}
use my_raft_kv.Tracker.Inflights.{Inflights, full, reset}

pub data StateType : Type 0 where
  state_probe state_replicate state_snapshot : StateType

pub record Progress : Type 0 where
  pub match : ℕ
  pub next : ℕ
  pub state : StateType
  pub pending_snapshot : ℕ
  pub recent_active : Bool
  pub probe_sent : Bool
  pub inflights : Inflights
  pub is_learner : Bool

abbrev pub is_probe : StateType → Bool
is_probe state_probe = true
is_probe _ = false

abbrev pub is_replicate : StateType → Bool
is_replicate state_replicate = true
is_replicate _ = false

abbrev pub is_snapshot : StateType → Bool
is_snapshot state_snapshot = true
is_snapshot _ = false

unfoldable pub reset_state : Progress → StateType → Progress
unfolding reset
reset_state pr state = record pr {
  probe_sent = false;
  pending_snapshot = 0;
  state = state;
  inflights = reset pr.inflights;
}

unfoldable pub probe_acked : Progress → Progress
probe_acked pr = record pr { probe_sent = false }

unfoldable pub become_probe : Progress → Progress
unfolding reset_state
become_probe pr =
    let pr' = reset_state pr state_probe in
    if is_snapshot pr.state
    then record pr' { next = max (add64 pr.match 1) (add64 pr.pending_snapshot 1) }
    else record pr' { next = add64 pr.match 1 }

unfoldable pub become_replicate : Progress → Progress
unfolding reset_state
become_replicate pr = record (reset_state pr state_replicate) { next = add64 pr.match 1 }

unfoldable pub become_snapshot : Progress → ℕ → Progress
unfolding reset_state
become_snapshot pr snapshoti = record (reset_state pr state_snapshot) {
  pending_snapshot = snapshoti;
}

unfoldable pub maybe_update : Progress → ℕ → Progress × Bool
unfolding probe_acked
maybe_update pr n =
    let updated = ltb pr.match n in
    let pr' = if updated then probe_acked (record pr { match = n }) else pr in
    (record pr' { next = max pr'.next (add64 n 1) }, updated)

unfoldable pub optimistic_update : Progress → ℕ → Progress
optimistic_update pr n = record pr { next = add64 n 1 }

unfoldable pub maybe_decr_to : Progress → ℕ → ℕ → Progress × Bool
maybe_decr_to pr rejected match_hint =
    if is_replicate pr.state
    then (if leb rejected pr.match
        then (pr, false)
        else (record pr { next = add64 pr.match 1 }, true))
    else if not (sub64 pr.next 1 == rejected)
    then (pr, false)
    else (record pr { next = max (min rejected (add64 match_hint 1)) 1; probe_sent = false }, true)

abbrev pub paused_in : StateType → Progress → Bool
paused_in state_probe pr = pr.probe_sent
paused_in state_replicate pr = full pr.inflights
paused_in state_snapshot pr = true

unfoldable pub is_paused : Progress → Bool
is_paused pr = paused_in pr.state pr

-- ===== src/Raft/Become.antt =====
-- raft/raft.go: the changes of a node's role. `becomePreCandidate` does nothing.
use my_raft_kv.Prelude.{ℕ, add64, if◌then◌else◌, Result, ok, panic, ◌>>=◌}
use my_raft_kv.Raft.State.{
  Raft, state_follower, state_candidate, state_leader, step_follower, step_candidate, step_leader,
  tick_election, tick_heart_beat, is_leader, is_follower, reset,
}

unfoldable pub become_follower : Raft → ℕ → ℕ → Result Raft
unfolding reset
become_follower r term lead = reset (record r { step = step_follower }) term >>= λ r'.
    ok (record r' { tick = tick_election; lead = lead; state = state_follower })

unfoldable pub become_candidate : Raft → Result Raft
unfolding reset
become_candidate r =
    if is_leader r.state
    then panic
    else (reset (record r { step = step_candidate }) (add64 r.term 1) >>= λ r'.
        ok (record r' { tick = tick_election; vote = r'.id; state = state_candidate }))

unfoldable pub become_leader : Raft → Result Raft
unfolding reset
become_leader r =
    if is_follower r.state
    then panic
    else (reset (record r { step = step_leader }) r.term >>= λ r'.
        ok (record r' { tick = tick_heart_beat; lead = r'.id; state = state_leader }))

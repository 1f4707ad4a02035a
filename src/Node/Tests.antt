-- ===== src/Node/Tests.antt =====
-- Raw nodes and loops, and the theorems there.
use my_raft_kv.Prelude.{
  ℕ, ◌≤◌, true, false, none, List, [], ◌∷◌, ◌≡◌, refl, ◌⊎◌, lookup, arith, Error, ok, panic,
}
use my_raft_kv.Tracker.Progress.{Progress, state_replicate}
use my_raft_kv.Raft.Samples.{node}
use my_raft_kv.Raft.State.{Raft}
use my_raft_kv.Node.RawNode as Raw
use my_raft_kv.Node.RawNode.{RawNode, empty_state, has_ready}
use my_raft_kv.Node.Status.{get_progress_copy}
use my_raft_kv.Node.Status.Copies.{lookup-get_progress_copy}
use my_raft_kv.Node.Runs as Runs
use my_raft_kv.Node.Runs.{run_call, Runs-keep_promises}
use my_raft_kv.Node.Unready as Unready
use my_raft_kv.Node.Unready.{Called, loop_never_turns}
use my_raft_kv.Node.Loop as Turn
use my_raft_kv.Node.Loop.{Channels, Loop, begin, prepare, look, follow_lead, enabled, handle}
use my_raft_kv.Node.Loop.Turns.{start}
use my_raft_kv.Node.Calls as Call
use my_raft_kv.Node.Calls.{Waits, proposed, propose-error, step-error}

abbrev fresh : RawNode
fresh = record { raft = node; prev_soft_st = none; pre_hard_st = empty_state }

abbrev waited : RawNode
waited = record fresh { raft = record node { election_elapsed = 6 } }

one_call : Runs.Runs fresh waited
unfolding run_call Raw.tick_quiesced Runs.Allowed
one_call = Runs.call Runs.tick_quiesced Runs.start (omega arith) tt refl

Runs-keep_promises_example :
    (node.term ≤ waited.raft.term)
    × (waited.raft.term ≡ node.term → (node.vote ≡ 0) ⊎ (waited.raft.vote ≡ node.vote))
    × (node.raft_log.committed ≤ waited.raft.raft_log.committed)
Runs-keep_promises_example = Runs-keep_promises one_call

one_called : Called fresh waited
unfolding run_call Raw.tick_quiesced
one_called = Unready.call Runs.tick_quiesced Unready.fresh refl

abbrev no_events : List Turn.Event
no_events = []

loop_never_turns_example : (has_ready waited ≡ panic) × (no_events ≡ [])
loop_never_turns_example =
    loop_never_turns one_called refl {ch = Turn.new_node} {l = begin waited} start

-- The loop takes the proposal and answers without an error.
abbrev taken : Waits Error
taken = record { first = Call.proceeds; second = Call.proceeds; result = none }

abbrev follower : Progress
follower = record {
  match = 3;
  next = 4;
  state = state_replicate;
  pending_snapshot = 0;
  recent_active = true;
  probe_sent = false;
  inflights = record { start = 0; count = 0; size = 2; buffer = [] };
  is_learner = false;
}

abbrev leading : Raft
leading = record node { trk = record node.trk { progress = (2, follower) ∷ (1, follower) ∷ [] } }

lookup-get_progress_copy_example :
    (m : List (ℕ × Progress)) × (get_progress_copy leading ≡ ok m)
    × ((z : ℕ) → lookup z m ≡ lookup z leading.trk.progress)
lookup-get_progress_copy_example = lookup-get_progress_copy leading

-- ===== src/Raft/Samples.antt =====
-- A sample node, over the sample log.
use my_raft_kv.Prelude.{false, true, [], ◌∷◌}
use my_raft_kv.Tracker.{ProgressTracker}
use my_raft_kv.Log.Samples.{log}
use my_raft_kv.Raft.ReadOnly.{read_only_safe}
use my_raft_kv.Raft.State.{Raft, state_follower, step_follower, tick_election}

-- Three voters, two of which have granted their votes.
abbrev pub trk : ProgressTracker
trk = record {
  voters = record { incoming = 1 ∷ 2 ∷ 3 ∷ []; outgoing = [] };
  progress = [];
  votes = (2, true) ∷ (3, true) ∷ [];
  max_inflight = 4;
}

-- A follower of node 3 in term 3. Every draw is 4.
abbrev pub node : Raft
node = record {
  id = 1;
  term = 3;
  vote = 0;
  max_msg_size = 100;
  max_uncommitted_size = 100;
  read_states = [];
  read_only = record { option = read_only_safe; pending_read_index = []; read_index_queue = [] };
  state = state_follower;
  election_timeout = 10;
  heartbeat_timeout = 1;
  randomized_election_timeout = 14;
  disable_proposal_forwarding = false;
  election_elapsed = 5;
  heartbeat_elapsed = 0;
  check_quorum = false;
  pre_vote = false;
  lead = 3;
  lead_transferee = 0;
  tick = tick_election;
  step = step_follower;
  raft_log = log;
  msgs = [];
  trk = trk;
  pending_conf_index = 0;
  pending_read_index_messages = [];
  uncommitted_size = 0;
  draws = λ n k. 4;
  drawn = 1;
}

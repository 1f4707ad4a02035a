-- ===== src/Service/Tests.antt =====
-- Nodes of the first service, and the theorems there.
use my_raft_kv.Prelude.{
  ℕ, ◌+◌, ◌*◌, ◌≤◌, Bool, true, false, Option, none, some, List, [], ◌∷◌, ◌++◌, ◌≡◌, refl, ap, ◌⊎◌,
  arith, ltb, add64, ok,
}
use my_raft_kv.Raft.ReadOnly.{same_bytes}
use my_raft_kv.Service.Items.{Item, get_tail_item}
use my_raft_kv.Service.Items.Numbered.{Numbered}
use my_raft_kv.Service.State.{
  Node, WorkNode, NodeConfig, state_follower, state_leader, init_item, set_state,
}
use my_raft_kv.Service.Server.{
  Entry, ElectionRequest, AppendEntryRequest, AppendEntryReply, stored, election, append,
}
use my_raft_kv.Service.Election as Elect
use my_raft_kv.Service.Election.{Ballot, dial_failed, call_failed, replied, Ended, waits, ended}
use my_raft_kv.Service.Election.Outcome.{grants, dial_failures, election_ends, election_waits}
use my_raft_kv.Service.Machine.{Served, start, asked, appended}
use my_raft_kv.Service.Machine.Grown.{WellFormed}
use my_raft_kv.Service.Machine.Kept.{Served-log}
use my_raft_kv.Service.Machine.Votes.{Falling, Steady, one_election}

abbrev cfg : NodeConfig
cfg = record {
  host = [];
  port = 80;
  log_path = [];
  redis_cfg = record { address = []; password = []; db = 0 };
}

abbrev other : ℕ → WorkNode
other n = record { id = 1; cfg = cfg; term = 0; commit_index = n; accept_index = 1 }

-- The node 1 of three, with two items.
abbrev items : List Item
items = init_item ∷ record { index = 1; term = 2; log = 7 ∷ [] } ∷ []

abbrev node : Node
node = record {
  id = 49 ∷ [];
  electing = false;
  term = 2;
  leader_id = [];
  heart_beat = 0;
  state = state_follower;
  oath_accept_num = 0;
  config = cfg ∷ cfg ∷ cfg ∷ [];
  config_index = 1;
  other_node_list = other 1 ∷ other 0 ∷ [];
  item_list = items;
  commit_index = 0;
  accept_index = 0;
  pre_term = 0;
}

items-Numbered : Numbered 0 items
unfolding Numbered
items-Numbered = (refl, (refl, tt))

node-WellFormed : WellFormed node
node-WellFormed = record { numbered = items-Numbered; committed = omega arith }

-- An election in term 3, then an entry of the same term, which commits the item before it.
abbrev asks : ElectionRequest
asks = record { node_id = 50 ∷ []; term = 3; index = 1 }

abbrev voted : Node
voted = record node { term = 3; leader_id = 50 ∷ []; heart_beat = 9 }

abbrev request : AppendEntryRequest
request = record {
  entry = some (record { term = 3; index = 2; value = 8 ∷ [] });
  pre_term = 2;
  pre_index = 1;
  commit_index = 1;
  from = 50 ∷ [];
}

abbrev longer : Node
longer = record voted {
  item_list = items ++ record { index = 2; term = 3; log = 8 ∷ [] } ∷ [];
  commit_index = 1;
}

abbrev reply : AppendEntryReply
reply = record { accept = true; append_index = 2; commit_index = 1 }

appends : append voted request stored ≡ ok (longer, reply, false)
unfolding append get_tail_item same_bytes set_state
appends = refl

term_of : Option Entry → ℕ
term_of none = 0
term_of (some e) = e.term

steady : Steady voted request
unfolding Steady term_of
steady e h = omega (arith, ap term_of h)

served : Served Steady node (3 ∷ []) longer
unfolding election get_tail_item
served = appended request stored (asked 9 asks start) steady appends

Served-log_example :
    WellFormed longer × ((more : List Item) × (longer.item_list ≡ items ++ more)) × (0 ≤ 1)
Served-log_example = Served-log served node-WellFormed (omega arith)

one_election_example : Falling 4 (3 ∷ [])
one_election_example = one_election served

-- An entry of an earlier term takes the node back, and it accepts a second election of term 3.
abbrev late : AppendEntryRequest
late = record request { entry = some (record { term = 1; index = 2; value = [] }) }

abbrev back : Node
back = record voted {
  term = 1;
  item_list = items ++ record { index = 2; term = 1; log = [] } ∷ [];
  commit_index = 1;
}

abbrev asks_again : ElectionRequest
asks_again = record asks { node_id = 51 ∷ []; index = 2 }

takes_back : append voted late stored ≡ ok (back, reply, false)
unfolding append get_tail_item same_bytes set_state
takes_back = refl

votes_again : (election 9 back asks_again).1.accept ≡ true
unfolding election get_tail_item
votes_again = refl

-- With the second follower's answer both have committed index 1, and so does the leader.
abbrev told : Node
told = record node {
  other_node_list = other 1 ∷ record (other 1) { accept_index = 2 } ∷ [];
  accept_index = 1;
  commit_index = 1;
}

-- One of the two others grants its vote.
abbrev ballots : List Ballot
ballots = call_failed ∷ replied (record { accept = true; node_id = []; term = 3; index = 0 }) ∷ []

election_ends_example :
    (n' : Node) × (won : Bool) × (Elect.election node ballots ≡ ended n' won)
    × (won ≡ ltb 3 ((1 + grants ballots) * 2))
    × ((won ≡ false) ⊎ (n'.state ≡ state_leader))
    × (n'.term ≡ add64 2 1)
    × (n'.oath_accept_num ≡ 1 + grants ballots)
unfolding dial_failures
election_ends_example = election_ends node ballots refl

election_waits_example : (n' : Node) × (Elect.election node (dial_failed ∷ ballots) ≡ waits n')
unfolding dial_failures
election_waits_example = election_waits node (dial_failed ∷ ballots) (omega arith)

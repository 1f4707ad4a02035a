-- ===== src/Service/State.antt =====
-- node/node.go and node/state.go: the state of a node of the first service. The locks only order the
-- accesses, and each operation here is done as a whole.
use my_raft_kv.Prelude.{
  ℕ, ◌+◌, ◌*◌, ◌%◌, ◌^◌, Bool, false, List, [], ◌∷◌, ◌==◌, if◌then◌else◌, ltb, length, add64,
  get_elem?, Result, ok, ◌>>=◌, deref,
}
use my_raft_kv.Service.Items.{Item}

pub data NodeState : Type 0 where
  state_follower state_candidate state_leader : NodeState

abbrev pub to_uint32 : ℕ → ℕ
to_uint32 x = x % 2 ^ 32

pub record RedisConfig : Type 0 where
  pub address : List ℕ
  pub password : List ℕ
  pub db : ℕ

pub record NodeConfig : Type 0 where
  pub host : List ℕ
  pub port : ℕ
  pub log_path : List ℕ
  pub redis_cfg : RedisConfig

pub record WorkNode : Type 0 where
  pub id : ℕ
  pub cfg : NodeConfig
  pub term : ℕ
  pub commit_index : ℕ
  pub accept_index : ℕ

-- A time is a number. The Redis client is the answers of its calls.
pub record Node : Type 0 where
  pub id : List ℕ
  pub electing : Bool
  pub term : ℕ
  pub leader_id : List ℕ
  pub heart_beat : ℕ
  pub state : NodeState
  pub oath_accept_num : ℕ
  pub config : List NodeConfig
  pub config_index : ℕ
  pub other_node_list : List WorkNode
  pub item_list : List Item
  pub commit_index : ℕ
  pub accept_index : ℕ
  pub pre_term : ℕ

unfoldable pub set_state : Node → NodeState → Node
set_state n state = record n { state = state }

unfoldable pub set_oath_accept_num : Node → ℕ → Node
set_oath_accept_num n num = record n { oath_accept_num = num }

unfoldable pub add_oath_accept_num : Node → ℕ → Node
add_oath_accept_num n num = record n { oath_accept_num = n.oath_accept_num + num }

unfoldable pub get_my_config : Node → Result NodeConfig
get_my_config n = deref (get_elem? n.config n.config_index)

-- `Item{Index: 0, Term: 0, Log: "init"}`
abbrev pub init_item : Item
init_item = record { index = 0; term = 0; log = 105 ∷ 110 ∷ 105 ∷ 116 ∷ [] }

-- The loop of `CreateNode`, at the position i. The id of every other node is the node's own index.
unfoldable pub other_nodes : ℕ → ℕ → List NodeConfig → List WorkNode
other_nodes index i [] = []
other_nodes index i (cfg ∷ cfgs) =
    let rest = other_nodes index (i + 1) cfgs in
    if i == index
    then rest
    else (record { id = index; cfg = cfg; term = 0; commit_index = 0; accept_index = 0 } ∷ rest)

-- `format` is what `fmt.Sprintf` makes of a number.
unfoldable pub create_node : (ℕ → List ℕ) → List NodeConfig → ℕ → Result Node
unfolding other_nodes
create_node format cfgs index = deref (get_elem? cfgs index) >>= λ my_cfg. ok (record {
  id = format index;
  electing = false;
  term = 0;
  leader_id = [];
  heart_beat = 0;
  state = state_follower;
  oath_accept_num = 0;
  config = cfgs;
  config_index = index;
  other_node_list = other_nodes index 0 cfgs;
  item_list = init_item ∷ [];
  commit_index = 0;
  accept_index = 0;
  pre_term = 0;
})

unfoldable pub count_committed : ℕ → List WorkNode → ℕ
count_committed index [] = 0
count_committed index (o ∷ others) =
    (if ltb index o.commit_index then 1 else 0) + count_committed index others

unfoldable pub count_accepted : ℕ → List WorkNode → ℕ
count_accepted index [] = 0
count_accepted index (o ∷ others) =
    (if ltb index o.accept_index then 1 else 0) + count_accepted index others

unfoldable pub check_commit_id : Node → Node
unfolding count_committed
check_commit_id n =
    if ltb (length n.other_node_list + 1) (count_committed n.commit_index n.other_node_list * 2)
    then record n { commit_index = add64 n.commit_index 1 }
    else n

unfoldable pub check_accept_id : Node → Node
unfolding count_accepted
check_accept_id n =
    if ltb (length n.other_node_list + 1) (count_accepted n.accept_index n.other_node_list * 2)
    then record n { accept_index = add64 n.accept_index 1 }
    else n

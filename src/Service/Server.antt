-- ===== src/Service/Server.antt =====
-- node/node_server.go: the answers to the other nodes' calls. `now` is `time.Now()`.
use my_raft_kv.Prelude.{
  ℕ, Bool, true, false, ◌&&◌, not, Option, none, some, List, [], ◌∷◌, ◌++◌, ◌==◌, if◌then◌else◌,
  ltb, leb, add64, Result, ok, ◌>>=◌, deref,
}
use my_raft_kv.Raft.ReadOnly.{same_bytes}
use my_raft_kv.Service.Items.{Item, get_tail_item}
use my_raft_kv.Service.State.{Node, state_follower, set_state, to_uint32}

pub record HeartRequest : Type 0 where
  pub from : List ℕ
  pub term : ℕ
  pub commit_index : ℕ

pub record HeartReply : Type 0 where
  pub commit_index : ℕ

pub record ElectionRequest : Type 0 where
  pub node_id : List ℕ
  pub term : ℕ
  pub index : ℕ

pub record ElectionReply : Type 0 where
  pub accept : Bool
  pub node_id : List ℕ
  pub term : ℕ
  pub index : ℕ

pub record Entry : Type 0 where
  pub term : ℕ
  pub index : ℕ
  pub value : List ℕ

pub record AppendEntryRequest : Type 0 where
  pub entry : Option Entry
  pub pre_term : ℕ
  pub pre_index : ℕ
  pub commit_index : ℕ
  pub from : List ℕ

pub record AppendEntryReply : Type 0 where
  pub accept : Bool
  pub append_index : ℕ
  pub commit_index : ℕ

-- `in.CommitIndex == uint32(n.CommitIndex+1) && item.Index > n.CommitIndex`
abbrev pub may_commit : Node → Item → ℕ → Bool
may_commit n item commit_index =
    (commit_index == to_uint32 (add64 n.commit_index 1)) && ltb n.commit_index item.index

abbrev pub commit_next : Node → Node
commit_next n = record n { commit_index = add64 n.commit_index 1 }

abbrev pub follow : Node → HeartRequest → Node
follow n req =
    if leb n.term req.term
    then record n { term = req.term; leader_id = req.from; state = state_follower }
    else n

unfoldable pub heart : ℕ → Node → HeartRequest → Node × HeartReply
unfolding get_tail_item
heart now n req =
    let n' = follow (record n { heart_beat = now }) req in
    if may_commit n' (get_tail_item n'.item_list) req.commit_index
    then (commit_next n', record { commit_index = to_uint32 (commit_next n').commit_index })
    else (n', record { commit_index = 0 })

abbrev pub election_reply : Node → Bool → ElectionReply
election_reply n accept = record {
  accept = accept;
  node_id = [];
  term = to_uint32 n.term;
  index = to_uint32 n.config_index;
}

-- Whether an election is accepted.
abbrev pub accepts : Node → ElectionRequest → Bool
accepts n req =
    ltb n.term req.term && not (ltb req.index (to_uint32 (get_tail_item n.item_list).index))

unfoldable pub election : ℕ → Node → ElectionRequest → Node × ElectionReply
unfolding get_tail_item
election now n req =
    let n' = record n { heart_beat = now } in
    let voted = record n' { term = req.term; leader_id = req.node_id; state = state_follower } in
    if accepts n' req then (voted, election_reply voted true) else (n', election_reply n' false)

-- What `HSet` answers.
pub data HSetAnswer : Type 0 where
  stored redis_nil hset_failed : HSetAnswer

abbrev pub entry_index : Option Entry → ℕ
entry_index none = 0
entry_index (some e) = e.index

-- Whether the entry is the next of the log, after the item that the request names.
abbrev pub fits : Node → AppendEntryRequest → Bool
fits n req =
    let item = get_tail_item n.item_list in
    (item.term == req.pre_term)
    && ((item.index == req.pre_index) && (to_uint32 (add64 item.index 1) == entry_index req.entry))

abbrev pub item_of : Entry → Item
item_of e = record { index = e.index; term = e.term; log = e.value }

-- The item goes into the log where Redis has kept it.
abbrev pub put_entry : Node → Entry → HSetAnswer → Node × Bool
put_entry n e hset_failed = (n, false)
put_entry n e _ = (record n { item_list = n.item_list ++ item_of e ∷ []; term = e.term }, true)

abbrev pub try_entry : Node → AppendEntryRequest → HSetAnswer → Result (Node × Bool)
try_entry n req answer =
    if fits n req then (deref req.entry >>= λ e. ok (put_entry n e answer)) else ok (n, false)

-- An accepted entry is followed by the commit of the next item, if the leader has asked for it; the
-- item of the test is the last one before the call.
abbrev pub conclude : Node → AppendEntryRequest → Item → Bool → Node
conclude n req item accept =
    if accept
    then (let n' = if not (same_bytes n.id req.from) then set_state n state_follower else n in
        if may_commit n' item req.commit_index then commit_next n' else n')
    else n

abbrev pub append_reply : Node → AppendEntryRequest → Item → Bool → AppendEntryReply
append_reply n req item accept = record {
  accept = accept;
  append_index = if accept then entry_index req.entry else to_uint32 item.index;
  commit_index = to_uint32 n.commit_index;
}

abbrev pub concluded :
    AppendEntryRequest → Item → Bool → Node × Bool → Node × AppendEntryReply × Bool
concluded req item asked (n, accept) =
    let n' = conclude n req item accept in
    (n', append_reply n' req item accept, asked && not accept)

-- The last component tells of an error, which is the one of `HSet`.
unfoldable pub append :
    Node → AppendEntryRequest → HSetAnswer → Result (Node × AppendEntryReply × Bool)
unfolding get_tail_item same_bytes set_state
append n req answer =
    try_entry n req answer >>= λ s. ok (concluded req (get_tail_item n.item_list) (fits n req) s)

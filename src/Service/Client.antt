-- ===== src/Service/Client.antt =====
-- node/node_client.go: what a node sends to the others, and what it does with their answers. An answer
-- is an argument: none is an error of the call. The goroutine that tries an entry again is a function of
-- its own, of the answers that it gets.
pub mod Retries
pub mod Commits
use my_raft_kv.Prelude.{
  ℕ, ◌+◌, Bool, true, false, ◌&&◌, Option, none, some, List, [], ◌∷◌, ◌==◌, if◌then◌else◌, ltb,
  add64, get_elem?, set, Result, ok, ◌>>=◌, deref,
}
use my_raft_kv.Service.Items.{Item, get_tail_item, get_pre_item, get_next_item}
use my_raft_kv.Service.State.{
  Node, WorkNode, state_follower, set_state, add_oath_accept_num, to_uint32, check_commit_id,
  check_accept_id,
}
use my_raft_kv.Service.Server.{
  HeartRequest, ElectionRequest, ElectionReply, AppendEntryRequest, AppendEntryReply,
}

unfoldable pub election_request : Node → ElectionRequest
election_request n = record {
  node_id = n.id;
  term = to_uint32 n.term;
  index = to_uint32 n.accept_index;
}

unfoldable pub send_election_request : Node → Option ElectionReply → Node
unfolding add_oath_accept_num set_state
send_election_request n none = n
send_election_request n (some r) =
    if r.accept
    then add_oath_accept_num n 1
    else if ltb n.term r.term
    then set_state n state_follower
    else if (r.term == n.term) && ltb n.config_index r.index
    then set_state n state_follower
    else n

-- The next index to commit, for a follower that has not committed all that it has accepted.
abbrev pub next_commit : WorkNode → ℕ
next_commit w = if ltb w.commit_index w.accept_index then to_uint32 (add64 w.commit_index 1) else 0

unfoldable pub heart_request : Node → WorkNode → HeartRequest
heart_request n w = record { from = n.id; term = to_uint32 n.term; commit_index = next_commit w }

-- A request for an item, with the item that is to stand before it.
abbrev pub append_request : Node → WorkNode → Item → Item → AppendEntryRequest
append_request n w item pre = record {
  entry =
      some (record { term = to_uint32 item.term; index = to_uint32 item.index; value = item.log });
  pre_term = to_uint32 pre.term;
  pre_index = to_uint32 pre.index;
  commit_index = next_commit w;
  from = n.id;
}

unfoldable pub tail_request : Node → WorkNode → AppendEntryRequest
unfolding get_tail_item get_pre_item
tail_request n w =
    let item = get_tail_item n.item_list in
    append_request n w item (get_pre_item n.item_list (some item))

-- What a follower's answer tells of it, and the indices after that.
unfoldable pub note_answer : Node → ℕ → WorkNode → AppendEntryReply → Node
unfolding check_accept_id check_commit_id
note_answer n k w reply =
    let w' = record w { accept_index = reply.append_index; commit_index = reply.commit_index } in
    check_commit_id (check_accept_id (record n { other_node_list = set n.other_node_list k w' }))

-- The node after `SendAppendEntry` to the k-th of the others, and whether it goes on to try again.
abbrev pub after_answer : Node → ℕ → WorkNode → Option AppendEntryReply → Node × Bool
after_answer n k w none = (n, false)
after_answer n k w (some reply) =
    if reply.accept then (note_answer n k w reply, false) else (n, true)

unfoldable pub send_append_entry : Node → ℕ → Option AppendEntryReply → Result (Node × Bool)
unfolding note_answer
send_append_entry n k answer =
    deref (get_elem? n.other_node_list k) >>= λ w. ok (after_answer n k w answer)

-- One turn of the loop that tries again sends the item `item`. Its `preItem` is a variable of its own:
-- the loop's is as before, whatever the answer.
unfoldable pub retry_request : Node → WorkNode → Item → AppendEntryRequest
unfolding get_pre_item
retry_request n w item = append_request n w item (get_pre_item n.item_list (some item))

-- The requests that the loop sends, given the answers; an error ends it.
unfoldable pub retry :
    Node → WorkNode → Item → List (Option AppendEntryReply) → List AppendEntryRequest
unfolding retry_request
retry n w pre_item [] = retry_request n w pre_item ∷ []
retry n w pre_item (none ∷ answers) = retry_request n w pre_item ∷ []
retry n w pre_item (some reply ∷ answers) = retry_request n w pre_item ∷ retry n w pre_item answers

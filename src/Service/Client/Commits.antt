-- ===== src/Service/Client/Commits.antt =====
-- What a follower's answer does to the leader: what it notes of the follower, and its indices.
use my_raft_kv.Prelude.{ℕ, Bool, false, Option, none, some, ◌≡◌, ◌≢◌, not, get_elem?}
use my_raft_kv.Service.State.{Node, WorkNode}
use my_raft_kv.Service.Checks.{Passed, Taken, RisesIf}
use my_raft_kv.Service.Server.{AppendEntryReply}

-- What the leader knows after an accepted answer of the k-th of the others: of this one its two
-- indices, and of each other one what it knew. Its items and its term are the same, and each of its
-- indices goes up by one just if enough of the others are now known to be beyond it.
pub record Recorded (k : ℕ) (reply : AppendEntryReply) (n n' : Node) : Type 0 where
  pub same_items : n'.item_list ≡ n.item_list
  pub same_term : n'.term ≡ n.term
  pub noted :
      (w : WorkNode) × (get_elem? n'.other_node_list k ≡ some w)
      × (w.accept_index ≡ reply.append_index)
      × (w.commit_index ≡ reply.commit_index)
  pub same_rest : (j : ℕ) → k ≢ j → get_elem? n'.other_node_list j ≡ get_elem? n.other_node_list j
  pub accept : RisesIf (Taken n.accept_index n'.other_node_list) n.accept_index n'.accept_index
  pub commit : RisesIf (Passed n.commit_index n'.other_node_list) n.commit_index n'.commit_index

-- Whether the answer accepts the entry, and whether it refuses it; an error does neither.
abbrev pub accepted : Option AppendEntryReply → Bool
accepted none = false
accepted (some reply) = reply.accept

abbrev pub refused : Option AppendEntryReply → Bool
refused none = false
refused (some reply) = not reply.accept

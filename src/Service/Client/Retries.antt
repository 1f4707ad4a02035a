-- ===== src/Service/Client/Retries.antt =====
-- The loop that tries an entry again.
use my_raft_kv.Prelude.{suc, some, List, [], ◌∷◌, ◌≡◌, refl, ap, map, length, replicate}
use my_raft_kv.Service.Items.{Item}
use my_raft_kv.Service.State.{Node, WorkNode}
use my_raft_kv.Service.Server.{AppendEntryReply}
use my_raft_kv.Service.Client.{retry, retry_request}

-- Whatever the followers answer, accepting or not: after n answers without an error the loop is still
-- sending, and all its n + 1 requests are the same one.
pub retry_lem :
    (n : Node) (w : WorkNode) (pre_item : Item) (replies : List AppendEntryReply)
    → retry n w pre_item (map some replies)
      ≡ replicate (suc (length replies)) (retry_request n w pre_item)
unfolding retry
retry_lem n w pre_item [] = refl
retry_lem n w pre_item (reply ∷ replies) =
    ap (λ l. retry_request n w pre_item ∷ l) (retry_lem n w pre_item replies)

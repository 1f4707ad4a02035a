-- ===== src/Service/Machine.antt =====
-- node/node_server.go as a machine: a call of another node is a step.
pub mod Grown
pub mod Kept
pub mod Votes
use my_raft_kv.Prelude.{ℕ, Bool, List, [], ◌∷◌, ◌≡◌, if◌then◌else◌, Result, ok}
use my_raft_kv.Service.State.{Node}
use my_raft_kv.Service.Server.{
  HeartRequest, ElectionRequest, AppendEntryRequest, AppendEntryReply, HSetAnswer, heart, election,
  accepts, append,
}

-- The node after some calls, with the terms of the elections that it has accepted, the last one first.
-- `Fair` says which requests to append may come.
pub data Served (Fair : Node → AppendEntryRequest → Type 0) (n : Node)
    : List ℕ → Node → Type 0 where
  start : Served Fair n [] n
  heard :
      {ts : List ℕ} {n' : Node} (now : ℕ) (req : HeartRequest)
      → Served Fair n ts n'
      → Served Fair n ts (heart now n' req).0
  asked :
      {ts : List ℕ} {n' : Node} (now : ℕ) (req : ElectionRequest)
      → Served Fair n ts n'
      → Served Fair n
          (if (election now n' req).1.accept then req.term ∷ ts else ts)
          (election now n' req).0
  appended :
      {ts : List ℕ} {n' n'' : Node} {reply : AppendEntryReply} {failed : Bool}
      (req : AppendEntryRequest) (answer : HSetAnswer)
      → Served Fair n ts n'
      → Fair n' req
      → append n' req answer ≡ ok (n'', reply, failed)
      → Served Fair n ts n''

-- ===== src/Service/Election.antt =====
-- node/node.go: an election, and the heartbeats of a leader. How each of the others is reached and what
-- it answers is an argument, in the order in which the answers come.
pub mod Outcome
use my_raft_kv.Prelude.{
  ℕ, zero, suc, ◌+◌, ◌*◌, Bool, true, false, Option, none, some, List, [], ◌∷◌, if◌then◌else◌, ltb,
  length, add64,
}
use my_raft_kv.Service.State.{
  Node, WorkNode, state_leader, state_candidate, set_state, set_oath_accept_num, check_commit_id,
}
use my_raft_kv.Service.Server.{ElectionReply, HeartRequest}
use my_raft_kv.Service.Client.{send_election_request, heart_request}

-- `grpc.Dial` fails, or the call does, or there is an answer.
pub data Ballot : Type 0 where
  dial_failed call_failed : Ballot
  replied : ElectionReply → Ballot

-- The election's goroutines. The count of the wait group goes down only where the dial succeeded.
unfoldable pub gather : Node → List Ballot → Node × ℕ
unfolding send_election_request
gather n [] = (n, 0)
gather n (dial_failed ∷ ballots) = let (n', left) = gather n ballots in (n', left + 1)
gather n (call_failed ∷ ballots) = gather (send_election_request n none) ballots
gather n (replied r ∷ ballots) = gather (send_election_request n (some r)) ballots

-- An election that has ended says whether the heartbeats start.
pub data Ended : Type 0 where
  waits : Node → Ended
  ended : Node → Bool → Ended

abbrev pub count_votes : Node → Ended
count_votes n =
    if ltb (length n.config) (n.oath_accept_num * 2)
    then ended (set_state n state_leader) true
    else ended n false

abbrev pub wait_all : Node × ℕ → Ended
wait_all (n, zero) = count_votes n
wait_all (n, suc left) = waits n

unfoldable pub start_election : Node → Node
unfolding set_oath_accept_num
start_election n = record (set_oath_accept_num n 1) { term = add64 n.term 1 }

unfoldable pub election : Node → List Ballot → Ended
unfolding start_election gather set_state
election n ballots = wait_all (gather (start_election n) ballots)

unfoldable pub timeout : Node → Node
unfolding set_state
timeout n = set_state n state_candidate

-- The heartbeats to the others that a dial has reached.
unfoldable pub hearts : Node → List WorkNode → List Bool → List HeartRequest
unfolding heart_request
hearts n [] dials = []
hearts n (w ∷ others) [] = []
hearts n (w ∷ others) (true ∷ dials) = heart_request n w ∷ hearts n others dials
hearts n (w ∷ others) (false ∷ dials) = hearts n others dials

unfoldable pub leader_send_heart : Node → List Bool → Node × List HeartRequest
unfolding hearts check_commit_id
leader_send_heart n dials = (check_commit_id n, hearts n n.other_node_list dials)

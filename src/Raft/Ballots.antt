-- ===== src/Raft/Ballots.antt =====
-- How this code answers a request for a vote.
use my_raft_kv.Prelude.{
  ℕ, Bool, true, false, [], ◌∷◌, ◌++◌, ◌≡◌, refl, ◌∙◌, ◌==◌, if◌then◌else◌, Always, Always-ok,
  Always-panic, Always-if, Always-then, Always-after, ok,
}
use my_raft_kv.Log.RaftLog as RLog
use my_raft_kv.Raft.Message.{RaftMessage, same_type, msg_vote, vote_resp_msg_type}
use my_raft_kv.Raft.State.{Raft, send, with_from, carries_term}
use my_raft_kv.Raft.Step.{can_vote, cast_vote, vote_answer, answer_vote}

-- A message of a node: the last one that `send` has added.
record Adds (r : Raft) (m : RaftMessage) (r' : Raft) : Type 0 where
  added : r'.msgs ≡ r.msgs ++ with_from r m ∷ []

send-Adds : (r : Raft) (m : RaftMessage) → Always (Adds r m) (send r m)
unfolding send
send-Adds r m =
    Always-if (carries_term m.type)
      (Always-if (m.term == 0) Always-panic (Always-ok (record { added = refl })))
      (Always-if (m.term == 0) (Always-ok (record { added = refl })) Always-panic)

-- Naming the sender leaves the rest of a message alone.
with_from-keeps :
    (r : Raft) (a : RaftMessage) → ((with_from r a).to ≡ a.to) × ((with_from r a).reject ≡ a.reject)
with_from-keeps r a = by_test (a.from == 0)
  where
    by_test :
        (b : Bool)
        → ((if b then record a { from = r.id } else a).to ≡ a.to)
          × ((if b then record a { from = r.id } else a).reject ≡ a.reject)
    by_test true = (refl, refl)
    by_test false = (refl, refl)

cast_vote-msgs :
    (r : Raft) (m : RaftMessage) (granted : Bool)
    → (if granted then cast_vote r m else r).msgs ≡ r.msgs
unfolding cast_vote
cast_vote-msgs r m false = refl
cast_vote-msgs r m true = by_type (same_type m.type msg_vote)
  where
    by_type :
        (b : Bool)
        → (if b then record r { election_elapsed = 0; vote = m.from } else r).msgs ≡ r.msgs
    by_type true = refl
    by_type false = refl

-- The node's messages after one that refuses `to`.
record Refused (r : Raft) (to : ℕ) (r' : Raft) : Type 0 where
  answer : RaftMessage
  added : r'.msgs ≡ r.msgs ++ answer ∷ []
  addressed : answer.to ≡ to
  refused : answer.reject ≡ true

answer_vote-Refused : (r : Raft) (m : RaftMessage) → Always (Refused r m.from) (answer_vote r m)
unfolding answer_vote
answer_vote-Refused r m =
    Always-after
      (if can_vote r m then RLog.is_up_to_date r.raft_log m.index m.log_term else ok false)
      (λ granted. Always-after (vote_resp_msg_type m.type) (λ t.
        Always-then (send-Adds r (vote_answer r m t)) (λ r' a. Always-ok (record {
          answer = with_from r (vote_answer r m t);
          added = cast_vote-msgs r' m granted ∙ a.added;
          addressed = (with_from-keeps r (vote_answer r m t)).0;
          refused = (with_from-keeps r (vote_answer r m t)).1;
        }))))

-- A request for a vote that is answered is answered with one message, to the node that asked, with
-- `Reject` set, also where the vote is cast for that node.
pub answer_vote-rejects :
    (r : Raft) (m : RaftMessage) {r' : Raft}
    → answer_vote r m ≡ ok r'
    → (a : RaftMessage) × (r'.msgs ≡ r.msgs ++ a ∷ []) × (a.to ≡ m.from) × (a.reject ≡ true)
answer_vote-rejects r m {r'} h =
    let f = (answer_vote-Refused r m).returned r' h in (f.answer, f.added, f.addressed, f.refused)

-- ===== src/Raft/Later/Handles.antt =====
-- The handlers of `Step`: terms do not fall, and a vote in a term stays.
use my_raft_kv.Prelude.{
  ℕ, ◌+◌, ◌^◌, ◌≤◌, ◌<◌, Bool, true, false, not, Option, none, some, List, [], ◌∷◌, ◌≡◌, refl, ◌⊎◌,
  ◌==◌, if◌then◌else◌, leb, add64, arith, Error, err_proposal_dropped, Always, Always-ok,
  Always-panic, Always-any, Always-if, Always-split, Always-then, Always-after, Always-map,
  deref-found, Result, ok, deref,
}
use my_raft_kv.Log.Entries.{Entry, Snapshot}
use my_raft_kv.Log.RaftLog as RLog
use my_raft_kv.Quorum.{VoteResult, vote_won, vote_lost, vote_pending}
use my_raft_kv.Raft.Message.{
  MessageType, RaftMessage, same_type, vote_resp_msg_type, msg_prop, msg_app, msg_vote, msg_snap,
  msg_heartbeat, msg_transfer_leader, msg_timeout_now, msg_read_index, msg_read_index_resp,
}
use my_raft_kv.Raft.State.{
  Raft, StepFunc, step_nil, step_follower, step_candidate, step_leader, campaign_transfer,
  is_follower,
}
use my_raft_kv.Raft.Elect.{poll}
use my_raft_kv.Raft.Receive.{restore, restored_index, ack_message, handle_snapshot}
use my_raft_kv.Raft.Leader.{Stepped, done}
use my_raft_kv.Raft.Others.{
  is_pre_candidate, my_vote_resp_type, after_vote, count_answer, step_candidate_on,
  forward_proposal, forward, heard_from, note_read, step_follower_on,
}
use my_raft_kv.Raft.Step.{from_leader, can_vote, cast_vote, vote_answer, answer_vote, run_step}
use my_raft_kv.Raft.Quiet.{Quiet, Quiet-refl, still, Quiet-after, send-Quiet}
use my_raft_kv.Raft.Quiet.Sends.{bcast_append-Quiet}
use my_raft_kv.Raft.Quiet.Leads.{QuietStep, step_leader_on-Quiet}
use my_raft_kv.Raft.Quiet.Receives.{
  handle_append_entries-Quiet, handle_heartbeat-Quiet, install-Quiet,
}
use my_raft_kv.Raft.Later.{
  Later, Small, Quiet-Later, Later-after, quietly, become_follower-Renewed, Renewed-Later,
  become_follower-Later, become_leader-Later,
}
use my_raft_kv.Raft.Later.Elects.{polled, election-Later, hup-Later}

unfoldable pub LaterStep : Raft → Stepped → Type 0
LaterStep r s = Later r s.0

pub done-Later : {r : Raft} {m : Result Raft} → Always (Later r) m → Always (LaterStep r) (done m)
unfolding LaterStep
done-Later h = Always-then h (λ x q. Always-ok q)

stays : {r r' : Raft} (e : Option Error) → Quiet r r' → Always (LaterStep r) (ok (r', e))
unfolding LaterStep
stays e q = Always-ok (Quiet-Later q)

restore-Later : (r : Raft) (s : Snapshot) → Small r → Always (λ t. Later r t.0) (restore r s)
unfolding restore
restore-Later r s p = Always-then (deref-found s.metadata) (λ md e.
    Always-split (leb md.index r.raft_log.committed) (λ h. Always-ok (Quiet-Later Quiet-refl))
      (λ h.
        Always-if (not (is_follower r.state))
          (Always-then (become_follower-Later r (add64 r.term 1) 0 (omega (arith, p)))
            (λ r' l. Always-ok l))
          (Always-after (deref md.conf_state) (λ cs.
            Always-map (install-Quiet r s md cs e (ground (arith, h))) (λ t q. Quiet-Later q)))))

handle_snapshot-Later :
    (r : Raft) (m : RaftMessage) → Small r → Always (Later r) (handle_snapshot r m)
unfolding handle_snapshot
handle_snapshot-Later r m p = Always-after (deref m.snap) (λ s.
    Always-after (deref s.metadata) (λ md. Always-then (restore-Later r s p) (λ t l.
      Always-after (restored_index t.0 t.1)
        (λ i. Later-after l (quietly (send-Quiet t.0 (ack_message m i)))))))

after_vote-Later : (s : Raft × VoteResult) → Always (Later s.0) (after_vote s)
after_vote-Later (r, vote_won) =
    Always-if (is_pre_candidate r.state) (election-Later r) (
      Always-then (become_leader-Later r) (λ r' l. Later-after l (quietly (bcast_append-Quiet r'))))
after_vote-Later (r, vote_lost) = become_follower-Later r r.term 0 (omega arith)
after_vote-Later (r, vote_pending) = Always-ok (Quiet-Later Quiet-refl)

count_answer-Later : (r : Raft) (m : RaftMessage) → Always (Later r) (count_answer r m)
unfolding count_answer
count_answer-Later r m =
    Always-if (same_type m.type (my_vote_resp_type r))
      (Later-after (polled m.from (not m.reject)) (after_vote-Later (poll r m.from (not m.reject))))
      (Always-ok (Quiet-Later Quiet-refl))

-- A message that only a leader sends must not be of an earlier term here.
unfoldable pub Fresh : MessageType → Raft → RaftMessage → Type 0
Fresh t r m = from_leader t ≡ true → r.term ≤ m.term

step_candidate_on-Later :
    (t : MessageType) (r : Raft) (m : RaftMessage)
    → Fresh t r m
    → m.term + 1 < 2 ^ 64
    → Always (LaterStep r) (step_candidate_on t r m)
unfolding step_candidate_on Fresh
step_candidate_on-Later msg_prop r m f p = stays (some err_proposal_dropped) Quiet-refl
step_candidate_on-Later msg_app r m f p = done-Later (
    Always-then (become_follower-Later r m.term m.from (f refl))
      (λ r' l. Later-after l (quietly (handle_append_entries-Quiet r' m))))
step_candidate_on-Later msg_heartbeat r m f p = done-Later (
    Always-then (become_follower-Later r m.term m.from (f refl))
      (λ r' l. Later-after l (quietly (handle_heartbeat-Quiet r' m))))
step_candidate_on-Later msg_snap r m f p = done-Later (
    Always-then (become_follower-Renewed r m.term m.from) (λ r' n.
      Later-after (Renewed-Later (f refl) n)
        (handle_snapshot-Later r' m (omega (arith, n.term_is, p)))))
step_candidate_on-Later _ r m f p = done-Later (count_answer-Later r m)

forward_proposal-Later : (r : Raft) (m : RaftMessage) → Always (LaterStep r) (forward_proposal r m)
unfolding forward_proposal
forward_proposal-Later r m =
    Always-if (r.lead == 0) (stays (some err_proposal_dropped) Quiet-refl) (
      Always-if r.disable_proposal_forwarding (stays (some err_proposal_dropped) Quiet-refl)
        (done-Later (quietly (send-Quiet r (record m { to = r.lead })))))

forward-Quiet : (r : Raft) (m : RaftMessage) → Always (Quiet r) (forward r m)
unfolding forward
forward-Quiet r m =
    Always-if (r.lead == 0) (Always-ok Quiet-refl) (send-Quiet r (record m { to = r.lead }))

note_read-Quiet : (r : Raft) (i : ℕ) (es : List Entry) → Quiet r (note_read r i es)
unfolding note_read
note_read-Quiet r i [] = Quiet-refl
note_read-Quiet r i (e ∷ []) = still refl refl refl refl refl
note_read-Quiet r i (e ∷ f ∷ es) = Quiet-refl

step_follower_on-Later :
    (t : MessageType) (r : Raft) (m : RaftMessage)
    → Small r
    → Always (LaterStep r) (step_follower_on t r m)
unfolding step_follower_on
step_follower_on-Later msg_prop r m p = forward_proposal-Later r m
step_follower_on-Later msg_app r m p = stays none (still refl refl refl refl refl)
step_follower_on-Later msg_heartbeat r m p = done-Later (
    quietly (
      Quiet-after (still refl refl refl refl refl)
        (handle_heartbeat-Quiet (heard_from r m.from) m)))
step_follower_on-Later msg_snap r m p = done-Later (
    Later-after (Quiet-Later (still refl refl refl refl refl))
      (handle_snapshot-Later (heard_from r m.from) m p))
step_follower_on-Later msg_transfer_leader r m p = done-Later (quietly (forward-Quiet r m))
step_follower_on-Later msg_timeout_now r m p = done-Later (hup-Later r campaign_transfer p)
step_follower_on-Later msg_read_index r m p = done-Later (quietly (forward-Quiet r m))
step_follower_on-Later msg_read_index_resp r m p = stays none (note_read-Quiet r m.index m.entries)
step_follower_on-Later _ r m p = stays none Quiet-refl

-- A vote is cast for a node that has it, or where there is none.
can_vote_lem :
    (r : Raft) (m : RaftMessage)
    → can_vote r m ≡ true
    → same_type m.type msg_vote ≡ true
    → (r.vote ≡ 0) ⊎ (m.from ≡ r.vote)
can_vote_lem r m h t = ground (arith, h, t)

cast_vote-Later :
    (r r' : Raft) (m : RaftMessage) → can_vote r m ≡ true → Quiet r r' → Later r (cast_vote r' m)
unfolding cast_vote
cast_vote-Later r r' m h q = by_type (same_type m.type msg_vote) (can_vote_lem r m h)
  where
    l : Later r r'
    l = Quiet-Later q

    by_type :
        (b : Bool)
        → (b ≡ true → (r.vote ≡ 0) ⊎ (m.from ≡ r.vote))
        → Later r (if b then record r' { election_elapsed = 0; vote = m.from } else r')
    by_type false v = l
    by_type true v = record {
      same_id = l.same_id;
      term_up = l.term_up;
      one_vote = λ e. v refl;
      risen = l.risen;
      sent = l.sent;
    }

pub answer_vote-Later : (r : Raft) (m : RaftMessage) → Always (Later r) (answer_vote r m)
unfolding answer_vote
answer_vote-Later r m = Always-then granted_may (λ granted h.
    Always-after (vote_resp_msg_type m.type) (λ t.
      Always-then (send-Quiet r (vote_answer r m t)) (λ r' q. Always-ok (if_cast granted r' h q))))
  where
    granted_may :
        Always
          (λ granted. granted ≡ true → can_vote r m ≡ true)
          (if can_vote r m then RLog.is_up_to_date r.raft_log m.index m.log_term else ok false)
    granted_may =
        Always-split (can_vote r m)
          (λ h. Always-any (RLog.is_up_to_date r.raft_log m.index m.log_term) (λ x e. h))
          (λ h. Always-ok (λ e. cc))

    if_cast :
        (granted : Bool) (r' : Raft)
        → (granted ≡ true → can_vote r m ≡ true)
        → Quiet r r'
        → Later r (if granted then cast_vote r' m else r')
    if_cast true r' h q = cast_vote-Later r r' m (h refl) q
    if_cast false r' h q = Quiet-Later q

pub run_step-Later :
    (f : StepFunc) (r : Raft) (m : RaftMessage)
    → Small r
    → Fresh m.type r m
    → m.term + 1 < 2 ^ 64
    → Always (LaterStep r) (run_step f r m)
unfolding run_step LaterStep QuietStep
run_step-Later step_nil r m s f p = Always-panic
run_step-Later step_follower r m s f p = step_follower_on-Later m.type r m s
run_step-Later step_candidate r m s f p = step_candidate_on-Later m.type r m f p
run_step-Later step_leader r m s f p =
    Always-map (step_leader_on-Quiet m.type r m) (λ t q. Quiet-Later q)

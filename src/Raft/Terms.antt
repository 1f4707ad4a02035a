-- ===== src/Raft/Terms.antt =====
-- What `Step` does to the term, the vote, the commit index and the messages of a node.
use my_raft_kv.Prelude.{
  ◌+◌, ◌^◌, ◌≤◌, ◌<◌, Bool, true, false, ◌&&◌, ◌||◌, not, List, ◌++◌, ◌≡◌, sym, ◌∙◌, ◌⊎◌, Option,
  ◌==◌, if◌then◌else◌, ltb, arith, Error, Always, Always-ok, Always-if, Always-split, Always-then,
  Always-after, Always-map, ok, ◌>>=◌,
}
use my_raft_kv.Log.RaftLog as RLog
use my_raft_kv.Raft.Message.{
  MessageType, RaftMessage, message, same_type, msg_hup, msg_app, msg_app_resp, msg_vote,
  msg_heartbeat, msg_pre_vote, msg_pre_vote_resp,
}
use my_raft_kv.Raft.State.{Raft, step_candidate, campaign_pre_election, campaign_election}
use my_raft_kv.Raft.Become.{become_follower}
use my_raft_kv.Raft.Elect.{transfer_context}
use my_raft_kv.Raft.ReadOnly.{same_bytes}
use my_raft_kv.Raft.Receive.{handle_append_entries}
use my_raft_kv.Raft.Leader.{done}
use my_raft_kv.Raft.Others.{step_candidate_on}
use my_raft_kv.Raft.Step.{
  asks_vote, from_leader, in_lease, higher, lower, meet_term, run_step, dispatch, step,
}
use my_raft_kv.Raft.Quiet.{Quiet, Quiet-refl, send-Quiet}
use my_raft_kv.Raft.Quiet.Receives.{handle_append_entries-Quiet}
use my_raft_kv.Raft.Later.{
  Later, Small, Quiet-Later, Later-trans, become_follower-Renewed, Renewed-Later,
}
use my_raft_kv.Raft.Later.Elects.{hup-Later}
use my_raft_kv.Raft.Later.Handles.{LaterStep, Fresh, done-Later, answer_vote-Later, run_step-Later}

-- A node that has met the term of a message.
record Met (r : Raft) (m : RaftMessage) (s : Raft × Bool) : Type 0 where
  later : Later r s.0
  fresh : s.1 ≡ true → Fresh m.type s.0 m
  small : Small s.0

goes_on : {r : Raft} {m : RaftMessage} → Small r → r.term ≤ m.term → Met r m (r, true)
unfolding Fresh
goes_on p q = record { later = Quiet-Later Quiet-refl; fresh = λ e f. q; small = p }

stops : {r r' : Raft} {m : RaftMessage} → Small r → Quiet r r' → Met r m (r', false)
stops p q = record { later = Quiet-Later q; fresh = λ e. cc; small = omega (arith, p, q.same_term) }

higher-Met :
    (r : Raft) (m : RaftMessage)
    → Small r
    → m.term + 1 < 2 ^ 64
    → r.term < m.term
    → Always (Met r m) (higher r m)
unfolding higher Fresh
higher-Met r m p q h =
    Always-if (asks_vote m.type && (not (same_bytes m.context transfer_context) && in_lease r))
      (Always-after (RLog.last_term r.raft_log)
        (λ _. Always-after (RLog.last_index r.raft_log) (λ _. Always-ok (stops p Quiet-refl))))
      (Always-if (same_type m.type msg_pre_vote) on (
        Always-if (same_type m.type msg_pre_vote_resp && not m.reject) on (
          Always-then (become_follower-Renewed r m.term (if from_leader m.type then m.from else 0))
            (λ r' n. Always-ok (record {
              later = Renewed-Later (omega (arith, h)) n;
              fresh = λ e f. omega (arith, n.term_is);
              small = omega (arith, n.term_is, q);
            })))))
  where
    on : Always (Met r m) (ok (r, true))
    on = Always-ok (goes_on p (omega (arith, h)))

lower-Quiet : (r : Raft) (m : RaftMessage) → Always (Quiet r) (lower r m)
unfolding lower
lower-Quiet r m =
    Always-if
      ((r.check_quorum || r.pre_vote)
        && (same_type m.type msg_heartbeat || same_type m.type msg_app))
      (send-Quiet r (message msg_app_resp m.from))
      (Always-if (same_type m.type msg_pre_vote)
        (Always-after (RLog.last_term r.raft_log) (λ _.
          Always-after (RLog.last_index r.raft_log) (λ _.
            send-Quiet r
              (record (message msg_pre_vote_resp m.from) { term = r.term; reject = true }))))
        (Always-ok Quiet-refl))

meet_term-Met :
    (r : Raft) (m : RaftMessage)
    → Small r
    → m.term + 1 < 2 ^ 64
    → (m.term ≡ 0 → from_leader m.type ≡ false)
    → Always (Met r m) (meet_term r m)
unfolding meet_term Fresh
meet_term-Met r m p q local =
    Always-split (m.term == 0)
      (λ z. Always-ok (record {
        later = Quiet-Later Quiet-refl;
        fresh = λ e f. absurd (differ (local (ground (arith, z))) f);
        small = p;
      }))
      (λ z.
        Always-split (ltb r.term m.term) (λ h. higher-Met r m p q (ground (arith, h)))
          (λ h.
            Always-split (ltb m.term r.term)
              (λ k. Always-then (lower-Quiet r m) (λ r' l. Always-ok (stops p l)))
              (λ k. Always-ok (goes_on p (ground (arith, h, k))))))
  where
    differ : {b : Bool} → b ≡ false → b ≡ true → ⊥
    differ e f = cc

dispatch-Later :
    (t : MessageType) (r : Raft) (m : RaftMessage)
    → Small r
    → Fresh m.type r m
    → m.term + 1 < 2 ^ 64
    → Always (LaterStep r) (dispatch t r m)
unfolding dispatch
dispatch-Later msg_hup r m s f p =
    done-Later (hup-Later r (if r.pre_vote then campaign_pre_election else campaign_election) s)
dispatch-Later msg_vote r m s f p = done-Later (answer_vote-Later r m)
dispatch-Later msg_pre_vote r m s f p = done-Later (answer_vote-Later r m)
dispatch-Later _ r m s f p = run_step-Later r.step r m s f p

pub step-Always :
    (r : Raft) (m : RaftMessage)
    → Small r
    → m.term + 1 < 2 ^ 64
    → (m.term ≡ 0 → from_leader m.type ≡ false)
    → Always (LaterStep r) (step r m)
unfolding step LaterStep
step-Always r m p q local = Always-then (meet_term-Met r m p q local) (λ s k.
    Always-split s.1
      (λ e.
        Always-map (dispatch-Later m.type s.0 m k.small (k.fresh e) q)
          (λ t l. Later-trans k.later l))
      (λ e. Always-ok k.later))

-- Whatever the node's state and the message, a call of `Step` that returns leaves a term that is not
-- lower; a node that has voted and stays in its term keeps its vote; its commit index does not fall;
-- and messages are only added. The terms are below 2 ^ 64 - 1, and a message with term 0 is none of
-- the ones that only a leader sends.
pub step-term_up :
    (r : Raft) (m : RaftMessage)
    → r.term + 1 < 2 ^ 64
    → m.term + 1 < 2 ^ 64
    → (m.term ≡ 0 → from_leader m.type ≡ false)
    → {r' : Raft} {e : Option Error} → step r m ≡ ok (r', e)
    → (r.term ≤ r'.term)
      × (r'.term ≡ r.term → (r.vote ≡ 0) ⊎ (r'.vote ≡ r.vote))
      × (r.raft_log.committed ≤ r'.raft_log.committed)
      × ((ms : List RaftMessage) × (r'.msgs ≡ r.msgs ++ ms))
unfolding LaterStep RLog.Rising.Risen
step-term_up r m p q local {r'} {e} h =
    let l : Later r r' = (step-Always r m p q local).returned (r', e) h in
    (l.term_up, l.one_vote, l.risen, (l.sent.ms, l.sent.added))

candidate_meets :
    (r : Raft) (m : RaftMessage)
    → r.step ≡ step_candidate
    → m.type ≡ msg_app
    → m.term ≡ 0
    → step r m ≡ done (become_follower r m.term m.from >>= λ r'. handle_append_entries r' m)
unfolding step meet_term dispatch run_step step_candidate_on
candidate_meets r m s t z = rw (z, t, s)

-- A candidate that gets entries in a message of term 0, as `send` makes them, is back in term 0 if
-- `Step` returns.
pub candidate_term_lost :
    (r : Raft) (m : RaftMessage)
    → r.step ≡ step_candidate
    → m.type ≡ msg_app
    → m.term ≡ 0
    → {r' : Raft} {e : Option Error} → step r m ≡ ok (r', e)
    → r'.term ≡ 0
candidate_term_lost r m s t z {r'} {e} h =
    back.returned (r', e) (sym (candidate_meets r m s t z) ∙ h)
  where
    back :
        Always
          (λ x. x.0.term ≡ 0)
          (done (become_follower r m.term m.from >>= λ r'. handle_append_entries r' m))
    back =
        Always-then {P = λ x. x.term ≡ 0}
          (Always-then (become_follower-Renewed r m.term m.from) (λ x n.
            Always-map (handle_append_entries-Quiet x m) (λ y q. q.same_term ∙ n.term_is ∙ z)))
          (λ x k. Always-ok k)

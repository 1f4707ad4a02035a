-- ===== src/Node/Forward.antt =====
-- What the calls of a raw node, in any order, do to the term, the vote and the commit index.
use my_raft_kv.Prelude.{
  ℕ, ◌+◌, ◌^◌, ◌≤◌, ◌<◌, Bool, true, false, ◌&&◌, not, ◌≡◌, refl, ap, ◌∙◌, ◌⊎◌, inr, ◌==◌,
  if◌then◌else◌, leb, arith, Always, Always-ok, Always-panic, Always-if, Always-then, Always-map,
  ok,
}
use my_raft_kv.Log.RaftLog.Rising.{Risen}
use my_raft_kv.Raft.Message.{
  MessageType, RaftMessage, message, same_type, msg_pre_vote_resp, msg_vote_resp, msg_hup, msg_beat,
  msg_check_quorum,
}
use my_raft_kv.Raft.State.{
  Raft, StepFunc, step_nil, step_follower, step_candidate, step_leader, is_leader, promotable,
  past_election_timeout, abort_leader_transfer,
}
use my_raft_kv.Raft.Leader.{step_leader_on}
use my_raft_kv.Raft.Others.{is_pre_candidate, step_candidate_on, step_follower_on, count_answer}
use my_raft_kv.Raft.Step.{
  from_leader, run_step, dispatch, meet_term, step, tick_election, quorum_time, tick_heart_beat,
}
use my_raft_kv.Raft.Later.{Later, Small, vote_chain}
use my_raft_kv.Raft.Later.Handles.{LaterStep}
use my_raft_kv.Raft.Terms.{step-Always}

pub record Forward (r r' : Raft) : Type 0 where
  pub same_id : r'.id ≡ r.id
  pub term_up : r.term ≤ r'.term
  pub one_vote : r'.term ≡ r.term → (r.vote ≡ 0) ⊎ (r'.vote ≡ r.vote)
  pub risen : Risen r.raft_log r'.raft_log

pub Later-Forward : {r r' : Raft} → Later r r' → Forward r r'
Later-Forward l = record {
  same_id = l.same_id;
  term_up = l.term_up;
  one_vote = l.one_vote;
  risen = l.risen;
}

pub Forward-trans : {r r' r'' : Raft} → Forward r r' → Forward r' r'' → Forward r r''
unfolding Risen
Forward-trans p q = record {
  same_id = q.same_id ∙ p.same_id;
  term_up = omega (arith, p.term_up, q.term_up);
  one_vote = λ e.
      vote_chain (p.one_vote (omega (arith, p.term_up, q.term_up, e)))
        (q.one_vote (omega (arith, p.term_up, q.term_up, e)));
  risen = omega (arith, p.risen, q.risen);
}

-- The fields that the relation speaks of are the same.
pub Forward-still :
    {r r' : Raft}
    → r'.id ≡ r.id
    → r'.term ≡ r.term
    → r'.vote ≡ r.vote
    → r'.raft_log ≡ r.raft_log
    → Forward r r'
unfolding Risen
Forward-still i t v l = record {
  same_id = i;
  term_up = omega (arith, t);
  one_vote = λ e. inr v;
  risen = omega (arith, ap (λ l. l.committed) l);
}

pub Forward-refl : {r : Raft} → Forward r r
Forward-refl = Forward-still refl refl refl refl

-- A message of the node to itself, of term 0.
abbrev local_message : MessageType → ℕ → RaftMessage
local_message t from = record (message t 0) { from = from }

pub step-Forward :
    (r : Raft) (m : RaftMessage)
    → Small r
    → m.term + 1 < 2 ^ 64
    → (m.term ≡ 0 → from_leader m.type ≡ false)
    → Always (λ s. Forward r s.0) (step r m)
unfolding LaterStep
step-Forward r m p q local = Always-map (step-Always r m p q local) (λ s l. Later-Forward l)

is_no_vote :
    (b : Bool) → same_type msg_check_quorum (if b then msg_pre_vote_resp else msg_vote_resp) ≡ false
is_no_vote true = refl
is_no_vote false = refl

not_counted : (r : Raft) (from : ℕ) → count_answer r (local_message msg_check_quorum from) ≡ ok r
unfolding count_answer
not_counted r from = rw (is_no_vote (is_pre_candidate r.state)) refl

-- A check of the quorum changes nothing, whatever the node's state.
run_step-check_quorum :
    (f : StepFunc) (r : Raft) (from : ℕ)
    → Always (λ s. s.0 ≡ r) (run_step f r (local_message msg_check_quorum from))
unfolding run_step step_leader_on step_candidate_on step_follower_on
run_step-check_quorum step_nil r from = Always-panic
run_step-check_quorum step_follower r from = Always-ok refl
run_step-check_quorum step_candidate r from = rw (not_counted r from) (Always-ok refl)
run_step-check_quorum step_leader r from = Always-ok refl

step-check_quorum :
    (r : Raft) (from : ℕ) → Always (λ s. s.0 ≡ r) (step r (local_message msg_check_quorum from))
unfolding step meet_term dispatch
step-check_quorum r from = run_step-check_quorum r.step r from

pub tick_election-Forward : (r : Raft) → Small r → Always (Forward r) (tick_election r)
unfolding tick_election
tick_election-Forward r p =
    Always-if (promotable waited && past_election_timeout waited)
      (Always-then
        (step-Forward (record waited { election_elapsed = 0 }) (local_message msg_hup r.id) p
          (omega arith) (λ e. refl))
        (λ s q. Always-ok (Forward-trans (Forward-still refl refl refl refl) q)))
      (Always-ok (Forward-still refl refl refl refl))
  where
    waited : Raft
    waited = record r { election_elapsed = r.election_elapsed + 1 }

-- What a wait leaves alone.
record Waited (r r' : Raft) : Type 0 where
  same_id : r'.id ≡ r.id
  same_term : r'.term ≡ r.term
  same_vote : r'.vote ≡ r.vote
  same_log : r'.raft_log ≡ r.raft_log

Waited-still : {r r' : Raft} → Waited r r' → Forward r r'
Waited-still w = Forward-still w.same_id w.same_term w.same_vote w.same_log

Waited-same : {r r' : Raft} → r' ≡ r → Waited r r'
Waited-same e = record {
  same_id = ap (λ x. x.id) e;
  same_term = ap (λ x. x.term) e;
  same_vote = ap (λ x. x.vote) e;
  same_log = ap (λ x. x.raft_log) e;
}

Waited-abort :
    (b : Bool) {r r' : Raft} → Waited r r' → Waited r (if b then abort_leader_transfer r' else r')
Waited-abort true w = record {
  same_id = w.same_id;
  same_term = w.same_term;
  same_vote = w.same_vote;
  same_log = w.same_log;
}
Waited-abort false w = w

quorum_time-Waited : (r : Raft) → Always (Waited r) (quorum_time r)
unfolding quorum_time
quorum_time-Waited r =
    Always-if (leb r.election_timeout r.election_elapsed)
      (Always-then {P = Waited r}
        (Always-if r.check_quorum
          (Always-then (step-check_quorum restarted r.id) (λ s e. Always-ok (out (Waited-same e))))
          (Always-ok (out (Waited-same refl))))
        (λ r' w. Always-ok (Waited-abort (is_leader r'.state && not (r'.lead_transferee == 0)) w)))
      (Always-ok (Waited-same refl))
  where
    restarted : Raft
    restarted = record r { election_elapsed = 0 }

    out : {r' : Raft} → Waited restarted r' → Waited r r'
    out w = record {
      same_id = w.same_id;
      same_term = w.same_term;
      same_vote = w.same_vote;
      same_log = w.same_log;
    }

pub tick_heart_beat-Forward : (r : Raft) → Small r → Always (Forward r) (tick_heart_beat r)
unfolding tick_heart_beat
tick_heart_beat-Forward r p =
    Always-then
      (quorum_time-Waited (record r {
        heartbeat_elapsed = r.heartbeat_elapsed + 1;
        election_elapsed = r.election_elapsed + 1;
      }))
      (λ r' w.
        let f : Forward r r' = Forward-trans (Forward-still refl refl refl refl) (Waited-still w) in
        Always-if (not (is_leader r'.state)) (Always-ok f) (
          Always-if (leb r'.heartbeat_timeout r'.heartbeat_elapsed)
            (Always-then
              (step-Forward (record r' { heartbeat_elapsed = 0 }) (local_message msg_beat r'.id)
                (omega (arith, p, w.same_term)) (omega arith) (λ e. refl))
              (λ s q.
                Always-ok (Forward-trans f (Forward-trans (Forward-still refl refl refl refl) q))))
            (Always-ok f)))

-- ===== src/Raft/Later.antt =====
-- What a step may do to a node: its term does not fall, a vote in a term stays, the commit index does
-- not fall, and messages are only added.
pub mod Elects
pub mod Handles
use my_raft_kv.Prelude.{
  ++-nil, ++-assoc, ℕ, ◌+◌, ◌^◌, ◌≤◌, ◌<◌, Bool, true, false, ◌&&◌, not, Option, none, some, List,
  [], ◌∷◌, ◌≡◌, refl, sym, ap, ◌∙◌, ◌⊎◌, inl, inr, ◌==◌, if◌then◌else◌, leb, ltb, add64, keys,
  max_uint64, arith, Always, Always-ok, Always-panic, Always-if, Always-split, Always-then,
  Always-after, Always-map, Result, ok, panic, ◌>>=◌, deref,
}
use my_raft_kv.Log.RaftLog as RLog
use my_raft_kv.Log.RaftLog.{RaftLog, must}
use my_raft_kv.Log.RaftLog.Rising.{Risen}
use my_raft_kv.Quorum.{VoteResult, vote_won, vote_lost, vote_pending, ids}
use my_raft_kv.Tracker.{ProgressTracker}
use my_raft_kv.Raft.Message.{MessageType, RaftMessage, vote_resp_msg_type}
use my_raft_kv.Raft.State.{
  Raft, StateType, CampaignType, campaign_pre_election, campaign_election, campaign_transfer,
  is_leader, is_follower, enter_term, reset, reset_randomized_election_timeout, num_of_pending_conf,
  promotable, send, step_follower, step_candidate, step_leader,
}
use my_raft_kv.Raft.Become.{become_follower, become_candidate, become_leader}
use my_raft_kv.Raft.Elect.{
  poll, prepare, vote_request, ask_for_votes, is_won, voter_ids, after_poll, run_campaign, campaign,
  hup,
}
use my_raft_kv.Raft.Quiet.{
  Quiet, Sent, Sent-trans, Quiet-refl, still, Quiet-after, Quiet-bind, send-Quiet,
}

pub record Later (r r' : Raft) : Type 0 where
  pub same_id : r'.id ≡ r.id
  pub term_up : r.term ≤ r'.term
  pub one_vote : r'.term ≡ r.term → (r.vote ≡ 0) ⊎ (r'.vote ≡ r.vote)
  pub risen : Risen r.raft_log r'.raft_log
  pub sent : Sent r.msgs r'.msgs

-- A term that can be raised by one.
abbrev pub Small : Raft → Type 0
Small r = r.term + 1 < 2 ^ 64

pub Quiet-Later : {r r' : Raft} → Quiet r r' → Later r r'
Quiet-Later q = record {
  same_id = q.same_id;
  term_up = omega (arith, q.same_term);
  one_vote = λ e. inr q.same_vote;
  risen = q.risen;
  sent = q.sent;
}

pub vote_chain : {a b c : ℕ} → (a ≡ 0) ⊎ (b ≡ a) → (b ≡ 0) ⊎ (c ≡ b) → (a ≡ 0) ⊎ (c ≡ a)
vote_chain (inl z) q = inl z
vote_chain (inr v) (inl z) = inl (sym v ∙ z)
vote_chain (inr v) (inr w) = inr (w ∙ v)

pub Later-trans : {r r' r'' : Raft} → Later r r' → Later r' r'' → Later r r''
unfolding Risen
Later-trans p q = record {
  same_id = q.same_id ∙ p.same_id;
  term_up = omega (arith, p.term_up, q.term_up);
  one_vote = λ e.
      vote_chain (p.one_vote (omega (arith, p.term_up, q.term_up, e)))
        (q.one_vote (omega (arith, p.term_up, q.term_up, e)));
  risen = omega (arith, p.risen, q.risen);
  sent = Sent-trans p.sent q.sent;
}

pub Later-after :
    {r r' : Raft} {m : Result Raft} → Later r r' → Always (Later r') m → Always (Later r) m
Later-after p h = Always-map h (λ x q. Later-trans p q)

pub quietly : {r : Raft} {m : Result Raft} → Always (Quiet r) m → Always (Later r) m
quietly h = Always-map h (λ x q. Quiet-Later q)

-- A node after `reset`.
pub record Renewed (r : Raft) (t : ℕ) (r' : Raft) : Type 0 where
  pub same_id : r'.id ≡ r.id
  pub term_is : r'.term ≡ t
  pub vote_is : t ≡ r.term → r'.vote ≡ r.vote
  pub same_log : r'.raft_log ≡ r.raft_log
  pub same_msgs : r'.msgs ≡ r.msgs
  pub same_trk : r'.trk ≡ r.trk

enter-Renewed : (r : Raft) (t : ℕ) → Renewed r t (enter_term r t)
enter-Renewed r t = by_test (r.term == t) (λ h. ground (arith, h)) (λ h. ground (arith, h))
  where
    by_test :
        (b : Bool)
        → (b ≡ true → r.term ≡ t)
        → (b ≡ false → ¬ (t ≡ r.term))
        → Renewed r t (if b then r else record r { term = t; vote = 0 })
    by_test true p n = record {
      same_id = refl;
      term_is = p refl;
      vote_is = λ e. refl;
      same_log = refl;
      same_msgs = refl;
      same_trk = refl;
    }
    by_test false p n = record {
      same_id = refl;
      term_is = refl;
      vote_is = λ e. absurd (n refl e);
      same_log = refl;
      same_msgs = refl;
      same_trk = refl;
    }

timeout-Renewed : (r : Raft) → Always (Renewed r r.term) (reset_randomized_election_timeout r)
unfolding reset_randomized_election_timeout
timeout-Renewed r = Always-if (r.election_timeout == 0) Always-panic (
    Always-ok (record {
      same_id = refl;
      term_is = refl;
      vote_is = λ e. refl;
      same_log = refl;
      same_msgs = refl;
      same_trk = refl;
    }))

pub reset-Renewed : (r : Raft) (t : ℕ) → Always (Renewed r t) (reset r t)
unfolding reset
reset-Renewed r t =
    Always-then
      (timeout-Renewed
        (record (enter_term r t) { lead = 0; election_elapsed = 0; heartbeat_elapsed = 0 }))
      (λ r' n. Always-ok (record {
        same_id = n.same_id ∙ e.same_id;
        term_is = n.term_is ∙ e.term_is;
        vote_is = λ h. n.vote_is refl ∙ e.vote_is h;
        same_log = n.same_log ∙ e.same_log;
        same_msgs = n.same_msgs ∙ e.same_msgs;
        same_trk = n.same_trk ∙ e.same_trk;
      }))
  where
    e : Renewed r t (enter_term r t)
    e = enter-Renewed r t

pub become_follower-Renewed :
    (r : Raft) (t lead : ℕ) → Always (Renewed r t) (become_follower r t lead)
unfolding become_follower
become_follower-Renewed r t lead =
    Always-then (reset-Renewed (record r { step = step_follower }) t) (λ r' n. Always-ok (record {
      same_id = n.same_id;
      term_is = n.term_is;
      vote_is = n.vote_is;
      same_log = n.same_log;
      same_msgs = n.same_msgs;
      same_trk = n.same_trk;
    }))

pub Renewed-Later : {r r' : Raft} {t : ℕ} → r.term ≤ t → Renewed r t r' → Later r r'
unfolding Risen
Renewed-Later {r} p n = record {
  same_id = n.same_id;
  term_up = omega (arith, p, n.term_is);
  one_vote = λ e. inr (n.vote_is (sym n.term_is ∙ e));
  risen = omega (arith, ap (λ (l : RaftLog). l.committed) n.same_log);
  sent = record { ms = []; added = n.same_msgs ∙ ++-nil r.msgs };
}

pub become_follower-Later :
    (r : Raft) (t lead : ℕ) → r.term ≤ t → Always (Later r) (become_follower r t lead)
become_follower-Later r t lead p =
    Always-map (become_follower-Renewed r t lead) (λ r' n. Renewed-Later p n)

pub become_leader-Later : (r : Raft) → Always (Later r) (become_leader r)
unfolding become_leader
become_leader-Later r = Always-if (is_follower r.state) Always-panic (
    Always-then (reset-Renewed (record r { step = step_leader }) r.term) (λ r' n.
      let l : Later (record r { step = step_leader }) r' = Renewed-Later (omega arith) n in
      Always-ok (record {
        same_id = l.same_id;
        term_up = l.term_up;
        one_vote = l.one_vote;
        risen = l.risen;
        sent = l.sent;
      })))

-- A candidate has entered the next term and voted for itself.
pub become_candidate-Later :
    (r : Raft)
    → Small r
    → Always
        (λ r'. Later r r' × (r'.term ≡ r.term + 1) × (r'.vote ≡ r.id) × (r'.trk ≡ r.trk))
        (become_candidate r)
unfolding become_candidate
become_candidate-Later r p = Always-if (is_leader r.state) Always-panic (
    Always-then (reset-Renewed (record r { step = step_candidate }) (add64 r.term 1)) (λ r' n.
      let l : Later (record r { step = step_candidate }) r' = Renewed-Later (omega (arith, p)) n in
      Always-ok (
        record {
          same_id = l.same_id;
          term_up = l.term_up;
          one_vote = λ e. absurd (omega (arith, p, e, n.term_is));
          risen = l.risen;
          sent = l.sent;
        },
        omega (arith, n.term_is, p),
        n.same_id,
        n.same_trk,
      )))

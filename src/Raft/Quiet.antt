-- ===== src/Raft/Quiet.antt =====
-- The part of a step that leaves the term and the vote of a node alone, never lowers its commit index,
-- and only adds to its messages.
pub mod Sends
pub mod Leads
pub mod Receives
use my_raft_kv.Prelude.{
  ++-nil, ++-assoc, ℕ, ◌≤◌, Bool, true, false, List, [], ◌∷◌, ◌++◌, ◌≡◌, refl, sym, ap, ◌∙◌, ◌==◌,
  if◌then◌else◌, arith, Always, Always-ok, Always-panic, Always-if, Always-then, Always-after,
  Result, ok, panic, ◌>>=◌,
}
use my_raft_kv.Log.RaftLog as RLog
use my_raft_kv.Log.RaftLog.{RaftLog}
use my_raft_kv.Log.RaftLog.Rising.{Risen, maybe_commit-Risen}
use my_raft_kv.Tracker.{committed}
use my_raft_kv.Raft.Message.{RaftMessage}
use my_raft_kv.Raft.State.{Raft, StateType, send, maybe_commit, with_from, carries_term}

pub record Sent (old new : List RaftMessage) : Type 0 where
  pub ms : List RaftMessage
  pub added : new ≡ old ++ ms

pub Sent-none : (ms : List RaftMessage) → Sent ms ms
Sent-none ms = record { ms = []; added = ++-nil ms }

pub Sent-trans : {xs ys zs : List RaftMessage} → Sent xs ys → Sent ys zs → Sent xs zs
Sent-trans {xs} p q = record {
  ms = p.ms ++ q.ms;
  added = q.added ∙ ap (λ l. l ++ q.ms) p.added ∙ ++-assoc xs p.ms q.ms;
}

pub record Quiet (r r' : Raft) : Type 0 where
  pub same_id : r'.id ≡ r.id
  pub same_term : r'.term ≡ r.term
  pub same_vote : r'.vote ≡ r.vote
  pub risen : Risen r.raft_log r'.raft_log
  pub sent : Sent r.msgs r'.msgs

pub Quiet-refl : {r : Raft} → Quiet r r
unfolding Risen
Quiet-refl {r} = record {
  same_id = refl;
  same_term = refl;
  same_vote = refl;
  risen = omega arith;
  sent = Sent-none r.msgs;
}

pub Quiet-trans : {r r' r'' : Raft} → Quiet r r' → Quiet r' r'' → Quiet r r''
unfolding Risen
Quiet-trans p q = record {
  same_id = q.same_id ∙ p.same_id;
  same_term = q.same_term ∙ p.same_term;
  same_vote = q.same_vote ∙ p.same_vote;
  risen = omega (arith, p.risen, q.risen);
  sent = Sent-trans p.sent q.sent;
}

-- A change of other fields, before what a call does.
pub still :
    {r r' : Raft}
    → r'.id ≡ r.id
    → r'.term ≡ r.term
    → r'.vote ≡ r.vote
    → r'.raft_log ≡ r.raft_log
    → r'.msgs ≡ r.msgs
    → Quiet r r'
unfolding Risen
still {r} {r'} i t v l m = record {
  same_id = i;
  same_term = t;
  same_vote = v;
  risen = ground (arith, ap (λ x. x.committed) l);
  sent = record { ms = []; added = m ∙ ++-nil r.msgs };
}

pub Quiet-after :
    {r r' : Raft} {m : Result Raft} → Quiet r r' → Always (Quiet r') m → Always (Quiet r) m
Quiet-after q h = record { returned = λ x e. Quiet-trans q (h.returned x e) }

pub Quiet-bind :
    {r : Raft} {m : Result Raft} {next : Raft → Result Raft}
    → Always (Quiet r) m
    → ((x : Raft) → Always (Quiet x) (next x))
    → Always (Quiet r) (m >>= next)
Quiet-bind h k = Always-then h (λ x q. Quiet-after q (k x))

pub send-Quiet : (r : Raft) (m : RaftMessage) → Always (Quiet r) (send r m)
unfolding send Risen
send-Quiet r m =
    Always-if (carries_term m.type) (Always-if (m.term == 0) Always-panic (Always-ok sent))
      (Always-if (m.term == 0) (Always-ok sent) Always-panic)
  where
    sent : Quiet r (record r { msgs = r.msgs ++ with_from r m ∷ [] })
    sent = record {
      same_id = refl;
      same_term = refl;
      same_vote = refl;
      risen = omega arith;
      sent = record { ms = with_from r m ∷ []; added = refl };
    }

-- A new log whose commit index is not lower.
pub with_log :
    {r : Raft} {log : RaftLog} → Risen r.raft_log log → Quiet r (record r { raft_log = log })
with_log {r} h = record {
  same_id = refl;
  same_term = refl;
  same_vote = refl;
  risen = h;
  sent = Sent-none r.msgs;
}

pub maybe_commit-Quiet : (r : Raft) → Always (λ s. Quiet r s.0) (maybe_commit r)
unfolding maybe_commit
maybe_commit-Quiet r =
    Always-then (maybe_commit-Risen r.raft_log (committed r.trk) r.term)
      (λ s h. Always-ok (with_log h))

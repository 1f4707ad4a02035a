-- ===== src/Raft/Quiet/Leads.antt =====
-- A leader's step leaves term and vote alone.
use my_raft_kv.Prelude.{
  ℕ, Bool, true, false, ◌&&◌, ◌||◌, not, Option, none, some, List, refl, ◌==◌, if◌then◌else◌, ltb,
  length, Error, err_proposal_dropped, add64, Always, Always-ok, Always-panic, Always-if,
  Always-then, Always-after, Always-map, Result, ok, ◌>>=◌, deref,
}
use my_raft_kv.Log.Entries.{Entry}
use my_raft_kv.Log.RaftLog as RLog
use my_raft_kv.Log.RaftLog.Rising.{append-Risen}
use my_raft_kv.Quorum.{VoteResult, vote_pending, vote_lost, vote_won, joint_vote_result}
use my_raft_kv.Tracker.{is_singleton}
use my_raft_kv.Tracker.Progress as Prog
use my_raft_kv.Raft.Message.{
  MessageType, RaftMessage, msg_beat, msg_check_quorum, msg_prop, msg_read_index, msg_app_resp,
  msg_heartbeat_resp, msg_unreachable, msg_transfer_leader,
}
use my_raft_kv.Raft.ReadOnly.{recv_ack, advance}
use my_raft_kv.Raft.State.{
  Raft, abort_leader_transfer, append_entry, log_entries, progress_of, with_progress,
  increase_uncommitted_size, total_payload, number_entries,
}
use my_raft_kv.Raft.Replicate.{rounds}
use my_raft_kv.Raft.Reads.{committed_entry_in_current_term}
use my_raft_kv.Raft.Leader.{
  Stepped, done, accepted, propose, read_index, next_probe, probe_if_replicate, retreat, rejected,
  advance_in, after_commit, maybe_timeout_now, catch_up, acked, app_resp, is_safe, if_won, ack_read,
  free_one, heartbeat_resp, start_transfer, transfer_leader, about_follower, from_follower,
  step_leader_on,
}
use my_raft_kv.Raft.Quiet.{
  Quiet, Quiet-refl, Quiet-trans, still, Quiet-after, Quiet-bind, with_log, maybe_commit-Quiet,
}
use my_raft_kv.Raft.Quiet.Sends.{
  send_append-Quiet, bcast_append-Quiet, bcast_heartbeat-Quiet, send_all-Quiet,
  send_timeout_now-Quiet, respond-Quiet, respond_all-Quiet, send_msg_read_index_response-Quiet,
  release-Quiet,
}

unfoldable pub QuietStep : Raft → Stepped → Type 0
QuietStep r s = Quiet r s.0

done-Quiet : {r : Raft} {m : Result Raft} → Always (Quiet r) m → Always (QuietStep r) (done m)
unfolding QuietStep
done-Quiet h = Always-then h (λ x q. Always-ok q)

unchanged : (r : Raft) (e : Option Error) → Always (QuietStep r) (ok (r, e))
unfolding QuietStep
unchanged r e = Always-ok Quiet-refl

progress_changed : (r : Raft) (id : ℕ) (pr : Prog.Progress) → Quiet r (with_progress r id pr)
progress_changed r id pr = still refl refl refl refl refl

Quiet-if :
    {r : Raft} (b : Bool) (x y : Raft × Bool)
    → Quiet r x.0
    → Quiet r y.0
    → Quiet r (if b then x else y).0
Quiet-if true x y p q = p
Quiet-if false x y p q = q

increase-Quiet : (r : Raft) (es : List Entry) → Quiet r (increase_uncommitted_size r es).0
unfolding increase_uncommitted_size
increase-Quiet r es =
    Quiet-if
      (ltb 0 r.uncommitted_size
        && (ltb 0 (total_payload es)
            && ltb r.max_uncommitted_size (add64 r.uncommitted_size (total_payload es))))
      (r, false) (record r { uncommitted_size = add64 r.uncommitted_size (total_payload es) }, true)
      Quiet-refl (still refl refl refl refl refl)

log_entries-Quiet :
    (s : Raft × Bool) (es : List Entry) → Always (λ t. Quiet s.0 t.0) (log_entries s es)
log_entries-Quiet (r, false) es = Always-ok Quiet-refl
log_entries-Quiet (r, true) es = Always-then (append-Risen r.raft_log es) (λ a h.
    Always-after (deref (progress_of r r.id)) (λ pr.
      Always-then
        (maybe_commit-Quiet
          (with_progress (record r { raft_log = a.0 }) r.id (Prog.maybe_update pr a.1).0))
        (λ t q. Always-ok (Quiet-trans (with_log h) (Quiet-trans (progress_changed _ r.id _) q)))))

append_entry-Quiet : (r : Raft) (es : List Entry) → Always (λ t. Quiet r t.0) (append_entry r es)
unfolding append_entry
append_entry-Quiet r es = Always-after (RLog.last_index r.raft_log) (λ li.
    let numbered = number_entries r.term (add64 li 1) es in
    Always-map (log_entries-Quiet (increase_uncommitted_size r numbered) numbered)
      (λ t q. Quiet-trans (increase-Quiet r numbered) q))

accepted-Quiet : {r : Raft} (s : Raft × Bool) → Quiet r s.0 → Always (QuietStep r) (accepted s)
unfolding QuietStep
accepted-Quiet (r', false) q = Always-ok q
accepted-Quiet (r', true) q = done-Quiet (Quiet-after q (bcast_append-Quiet r'))

propose-Quiet : (r : Raft) (m : RaftMessage) → Always (QuietStep r) (propose r m)
unfolding propose
propose-Quiet r m =
    Always-if (length m.entries == 0) Always-panic (by_progress (progress_of r r.id))
  where
    by_progress :
        (o : Option Prog.Progress)
        → Always (QuietStep r) (elim o [
          | none ↦ ok (r, some err_proposal_dropped)
          | some pr ↦
              if not (r.lead_transferee == 0)
              then ok (r, some err_proposal_dropped)
              else (append_entry r m.entries >>= λ s. accepted s)
        ])
    by_progress none = unchanged r (some err_proposal_dropped)
    by_progress (some pr) =
        Always-if (not (r.lead_transferee == 0)) (unchanged r (some err_proposal_dropped))
          (Always-then (append_entry-Quiet r m.entries) (λ s q. accepted-Quiet s q))

read_index-Quiet : (r : Raft) (m : RaftMessage) → Always (Quiet r) (read_index r m)
unfolding read_index
read_index-Quiet r m = Always-if (is_singleton r.trk) (respond-Quiet r m r.raft_log.committed) (
    Always-after (committed_entry_in_current_term r) (λ current.
      Always-if current (send_msg_read_index_response-Quiet r m)
        (Always-ok (still refl refl refl refl refl))))

retreat-Quiet :
    (r : Raft) (from : ℕ) (p : Prog.Progress × Bool) → Always (Quiet r) (retreat r from p)
retreat-Quiet r from (pr, false) = Always-ok (progress_changed r from pr)
retreat-Quiet r from (pr, true) =
    Quiet-after (progress_changed r from (probe_if_replicate pr)) (send_append-Quiet _ from)

rejected-Quiet :
    (r : Raft) (m : RaftMessage) (pr : Prog.Progress) → Always (Quiet r) (rejected r m pr)
unfolding rejected
rejected-Quiet r m pr =
    Always-after (next_probe r m)
      (λ probe. retreat-Quiet r m.from (Prog.maybe_decr_to pr m.index probe))

after_commit-Quiet :
    (b : Bool) (from : ℕ) (s : Raft × Bool) → Always (Quiet s.0) (after_commit b from s)
unfolding after_commit
after_commit-Quiet b from (r, true) = Quiet-bind (release-Quiet r) bcast_append-Quiet
after_commit-Quiet b from (r, false) = Always-if b (send_append-Quiet r from) (Always-ok Quiet-refl)

maybe_timeout_now-Quiet : (r : Raft) (from : ℕ) → Always (Quiet r) (maybe_timeout_now r from)
unfolding maybe_timeout_now
maybe_timeout_now-Quiet r from =
    Always-if (from == r.lead_transferee)
      (Always-after (deref (progress_of r from)) (λ pr.
        Always-after (RLog.last_index r.raft_log) (λ last.
          Always-if (pr.match == last) (send_timeout_now-Quiet r from) (Always-ok Quiet-refl))))
      (Always-ok Quiet-refl)

catch_up-Quiet :
    (r : Raft) (m : RaftMessage) (b : Bool) (pr : Prog.Progress)
    → Always (Quiet r) (catch_up r m b pr)
unfolding catch_up
catch_up-Quiet r m b pr = Always-after (advance_in pr.state pr m.index) (λ pr'.
    Quiet-bind
      (Always-then (maybe_commit-Quiet (with_progress r m.from pr')) (λ s q.
        Quiet-after (Quiet-trans (progress_changed r m.from pr') q)
          (after_commit-Quiet b m.from s)))
      (λ r'.
        Quiet-bind (send_all-Quiet (rounds r' m.from) r' m.from)
          (λ r''. maybe_timeout_now-Quiet r'' m.from)))

acked-Quiet :
    (r : Raft) (m : RaftMessage) (b : Bool) (p : Prog.Progress × Bool)
    → Always (Quiet r) (acked r m b p)
acked-Quiet r m b (pr, false) = Always-ok (progress_changed r m.from pr)
acked-Quiet r m b (pr, true) = catch_up-Quiet r m b pr

app_resp-Quiet :
    (r : Raft) (m : RaftMessage) (pr : Prog.Progress) → Always (Quiet r) (app_resp r m pr)
unfolding app_resp
app_resp-Quiet r m pr =
    let active = record pr { recent_active = true } in
    Always-if m.reject (rejected-Quiet r m active)
      (acked-Quiet r m (Prog.is_paused active) (Prog.maybe_update active m.index))

if_won-Quiet :
    {r : Raft} (v : VoteResult) {next : Result Raft} {r' : Raft}
    → Always (Quiet r) next
    → Quiet r r'
    → Always (Quiet r) (if_won v next r')
if_won-Quiet vote_won h q = h
if_won-Quiet vote_lost h q = Always-ok q
if_won-Quiet vote_pending h q = Always-ok q

ack_read-Quiet : (r : Raft) (m : RaftMessage) → Always (Quiet r) (ack_read r m)
unfolding ack_read
ack_read-Quiet r m =
    Always-if (not (is_safe r.read_only.option) || (length m.context == 0)) (Always-ok Quiet-refl) (
      if_won-Quiet (joint_vote_result r.trk.voters (recv_ack r.read_only m.from m.context).1)
        (Always-after (advance (recv_ack r.read_only m.from m.context).0 m) (λ s.
          Quiet-after (still refl refl refl refl refl)
            (respond_all-Quiet s.1 (record r { read_only = s.0 }))))
        (still refl refl refl refl refl))

heartbeat_resp-Quiet :
    (r : Raft) (m : RaftMessage) (pr : Prog.Progress) → Always (Quiet r) (heartbeat_resp r m pr)
unfolding heartbeat_resp
heartbeat_resp-Quiet r m pr =
    Always-after (free_one (record pr { recent_active = true; probe_sent = false })) (λ pr'.
      Always-after (RLog.last_index r.raft_log) (λ last.
        Quiet-bind
          (Quiet-after (progress_changed r m.from pr')
            (Always-if (ltb pr'.match last) (send_append-Quiet _ m.from) (Always-ok Quiet-refl)))
          (λ r''. ack_read-Quiet r'' m)))

start_transfer-Quiet :
    (r : Raft) (to : ℕ) (pr : Prog.Progress) → Always (Quiet r) (start_transfer r to pr)
unfolding start_transfer
start_transfer-Quiet r to pr = Always-if (to == r.id) (Always-ok Quiet-refl) (
    Always-after (RLog.last_index r.raft_log) (λ last.
      Quiet-after (still refl refl refl refl refl) (
        Always-if (pr.match == last)
          (send_timeout_now-Quiet (record r { election_elapsed = 0; lead_transferee = to }) to)
          (send_append-Quiet (record r { election_elapsed = 0; lead_transferee = to }) to))))

transfer_leader-Quiet :
    (r : Raft) (m : RaftMessage) (pr : Prog.Progress) → Always (Quiet r) (transfer_leader r m pr)
unfolding transfer_leader
transfer_leader-Quiet r m pr = Always-if pr.is_learner (Always-ok Quiet-refl) (
    Always-if (r.lead_transferee == 0) (start_transfer-Quiet r m.from pr) (
      Always-if (r.lead_transferee == m.from) (Always-ok Quiet-refl) (
        Quiet-after (still refl refl refl refl refl)
          (start_transfer-Quiet (abort_leader_transfer r) m.from pr))))

about_follower-Quiet :
    (t : MessageType) (r : Raft) (m : RaftMessage) (pr : Prog.Progress)
    → Always (Quiet r) (about_follower t r m pr)
unfolding about_follower
about_follower-Quiet msg_app_resp r m pr = app_resp-Quiet r m pr
about_follower-Quiet msg_heartbeat_resp r m pr = heartbeat_resp-Quiet r m pr
about_follower-Quiet msg_unreachable r m pr =
    Always-ok (progress_changed r m.from (probe_if_replicate pr))
about_follower-Quiet msg_transfer_leader r m pr = transfer_leader-Quiet r m pr
about_follower-Quiet _ r m pr = Always-ok Quiet-refl

from_follower-Quiet :
    (t : MessageType) (r : Raft) (m : RaftMessage) (o : Option Prog.Progress)
    → Always (Quiet r) (from_follower t r m o)
from_follower-Quiet t r m none = Always-ok Quiet-refl
from_follower-Quiet t r m (some pr) = about_follower-Quiet t r m pr

-- No message changes the term or the vote of a leader in `stepLeader`.
pub step_leader_on-Quiet :
    (t : MessageType) (r : Raft) (m : RaftMessage) → Always (QuietStep r) (step_leader_on t r m)
unfolding step_leader_on
step_leader_on-Quiet msg_beat r m = done-Quiet (bcast_heartbeat-Quiet r)
step_leader_on-Quiet msg_check_quorum r m = unchanged r none
step_leader_on-Quiet msg_prop r m = propose-Quiet r m
step_leader_on-Quiet msg_read_index r m = done-Quiet (read_index-Quiet r m)
step_leader_on-Quiet t r m = done-Quiet (from_follower-Quiet t r m (progress_of r m.from))

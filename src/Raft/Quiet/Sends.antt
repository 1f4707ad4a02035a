-- ===== src/Raft/Quiet/Sends.antt =====
-- Sending entries, heartbeats and the answers to reads leaves term and vote alone.
use my_raft_kv.Prelude.{
  ℕ, zero, suc, Bool, true, false, ◌&&◌, ◌||◌, not, Option, none, some, List, [], ◌∷◌, refl, ◌==◌,
  length, sub64, err_snapshot_temporarily_unavailable, Always, Always-ok, Always-panic, Always-map,
  Always-if, Always-then, Always-after, Result, ok, err, panic, ◌>>=◌, deref,
}
use my_raft_kv.Log.Entries.{Entry, Snapshot}
use my_raft_kv.Log.RaftLog as RLog
use my_raft_kv.Tracker.Progress as Prog
use my_raft_kv.Tracker.Visit.{visit_ids}
use my_raft_kv.Raft.Message.{RaftMessage, message, msg_timeout_now}
use my_raft_kv.Raft.ReadOnly.{
  ReadIndexStatus, ReadOnlyOption, read_only_safe, read_only_lease_based, last_pending_request_ctx,
  add_request, request_ctx_of,
}
use my_raft_kv.Raft.State.{Raft, send, send_timeout_now, progress_of, with_progress}
use my_raft_kv.Raft.Replicate.{
  attempt, is_empty_snap, snapshot_message, send_snapshot, note_sent, append_message,
  heartbeat_message, send_entries, send_what, maybe_send_append, send_append, send_all,
  send_heartbeat, for_others, bcast_append, bcast_heartbeat_with_ctx, bcast_heartbeat,
  entries_or_nil,
}
use my_raft_kv.Raft.Reads.{
  response_to_read_index_req, respond, respond_all, committed_entry_in_current_term, answer_by,
  send_msg_read_index_response, answer_all, release_pending_read_index_messages,
}
use my_raft_kv.Raft.Quiet.{Quiet, Quiet-refl, still, Quiet-after, Quiet-bind, send-Quiet}

-- The state of a handler that also answers something.
pub Hushed : Raft → Raft × Bool → Type 0
Hushed r s = Quiet r s.0

with_answer :
    {r : Raft} {m : Result Raft} (b : Bool)
    → Always (Quiet r) m
    → Always (Hushed r) (m >>= λ x. ok (x, b))
unfolding Hushed
with_answer b h = Always-then h (λ x q. Always-ok q)

unchanged : (r : Raft) (b : Bool) → Always (Hushed r) (ok (r, b))
unfolding Hushed
unchanged r b = Always-ok Quiet-refl

sent_from :
    (r : Raft) (to : ℕ) (pr : Prog.Progress) (m : RaftMessage)
    → Always (Quiet r) (send (with_progress r to pr) m)
sent_from r to pr m = Quiet-after (still refl refl refl refl refl) (send-Quiet _ m)

snapshot_message-Hushed :
    (r : Raft) (to : ℕ) (pr : Prog.Progress) (s : Result Snapshot)
    → Always (Hushed r) (snapshot_message r to pr s)
snapshot_message-Hushed r to pr panic = Always-panic
snapshot_message-Hushed r to pr (err err_snapshot_temporarily_unavailable) = unchanged r false
snapshot_message-Hushed r to pr (err _) = Always-panic
snapshot_message-Hushed r to pr (ok sp) =
    Always-if (is_empty_snap sp) Always-panic
      (Always-after (deref sp.metadata) (λ md. with_answer true (sent_from r to _ _)))

send_snapshot-Hushed :
    (r : Raft) (to : ℕ) (pr : Prog.Progress) → Always (Hushed r) (send_snapshot r to pr)
unfolding send_snapshot
send_snapshot-Hushed r to pr =
    Always-if pr.recent_active (snapshot_message-Hushed r to pr (RLog.snapshot r.raft_log))
      (unchanged r false)

send_entries-Hushed :
    (r : Raft) (to : ℕ) (pr : Prog.Progress) (t : ℕ) (es : List Entry)
    → Always (Hushed r) (send_entries r to pr t es)
unfolding send_entries
send_entries-Hushed r to pr t es =
    Always-after (note_sent pr es)
      (λ pr'. with_answer true (sent_from r to pr' (append_message r to pr t es)))

send_what-Hushed :
    (r : Raft) (to : ℕ) (pr : Prog.Progress) (b : Bool) (t : Option ℕ) (es : Option (List Entry))
    → Always (Hushed r) (send_what r to pr b t es)
send_what-Hushed r to pr b t es =
    Always-if ((length (entries_or_nil es) == 0) && not b) (unchanged r false) (by_answers t es)
  where
    by_answers :
        (t : Option ℕ) (es : Option (List Entry))
        → Always (Hushed r) (elim t [
          | none ↦ send_snapshot r to pr
          | some t ↦ elim es [ none ↦ send_snapshot r to pr | some es ↦ send_entries r to pr t es ]
        ])
    by_answers none es = send_snapshot-Hushed r to pr
    by_answers (some t) none = send_snapshot-Hushed r to pr
    by_answers (some t) (some es) = send_entries-Hushed r to pr t es

pub maybe_send_append-Hushed :
    (r : Raft) (to : ℕ) (b : Bool) → Always (Hushed r) (maybe_send_append r to b)
unfolding maybe_send_append
maybe_send_append-Hushed r to b = Always-after (deref (progress_of r to)) (λ pr.
    Always-if (Prog.is_paused pr) (unchanged r false) (
      Always-after (attempt (RLog.term r.raft_log (sub64 pr.next 1))) (λ t.
        Always-after (attempt (RLog.entries r.raft_log pr.next r.max_msg_size))
          (λ es. send_what-Hushed r to pr b t es))))

pub send_append-Quiet : (r : Raft) (to : ℕ) → Always (Quiet r) (send_append r to)
unfolding send_append Hushed
send_append-Quiet r to = Always-then (maybe_send_append-Hushed r to true) (λ s q. Always-ok q)

pub send_heartbeat-Quiet :
    (ctx : List ℕ) (r : Raft) (to : ℕ) → Always (Quiet r) (send_heartbeat ctx r to)
unfolding send_heartbeat
send_heartbeat-Quiet ctx r to =
    Always-after (deref (progress_of r to)) (λ pr. send-Quiet r (heartbeat_message ctx r to pr))

for_others-Quiet :
    (f : Raft → ℕ → Result Raft)
    → ((r : Raft) (id : ℕ) → Always (Quiet r) (f r id))
    → (ids : List ℕ) (r : Raft) → Always (Quiet r) (for_others f ids r)
unfolding for_others
for_others-Quiet f q [] r = Always-ok Quiet-refl
for_others-Quiet f q (id ∷ ids) r =
    Always-if (id == r.id) (for_others-Quiet f q ids r)
      (Quiet-bind (q r id) (for_others-Quiet f q ids))

pub bcast_append-Quiet : (r : Raft) → Always (Quiet r) (bcast_append r)
unfolding bcast_append
bcast_append-Quiet r = for_others-Quiet send_append send_append-Quiet (visit_ids r.trk) r

pub bcast_heartbeat_with_ctx-Quiet :
    (ctx : List ℕ) (r : Raft) → Always (Quiet r) (bcast_heartbeat_with_ctx ctx r)
unfolding bcast_heartbeat_with_ctx
bcast_heartbeat_with_ctx-Quiet ctx r =
    for_others-Quiet (send_heartbeat ctx) (send_heartbeat-Quiet ctx) (visit_ids r.trk) r

pub bcast_heartbeat-Quiet : (r : Raft) → Always (Quiet r) (bcast_heartbeat r)
unfolding bcast_heartbeat
bcast_heartbeat-Quiet r = bcast_heartbeat_with_ctx-Quiet (last_pending_request_ctx r.read_only) r

-- What is left after the loop, where it ended before its fuel.
send_all-Held :
    (fuel : ℕ) (r : Raft) (to : ℕ) → Always (λ o. Always (Quiet r) (deref o)) (send_all fuel r to)
unfolding send_all Hushed
send_all-Held zero r to = Always-ok Always-panic
send_all-Held (suc fuel) r to = Always-then (maybe_send_append-Hushed r to false) (λ s q.
    Always-if s.1 (Always-map (send_all-Held fuel s.0 to) (λ o h. Quiet-after q h))
      (Always-ok (Always-ok q)))

pub send_all-Quiet :
    (fuel : ℕ) (r : Raft) (to : ℕ) → Always (Quiet r) (send_all fuel r to >>= deref)
send_all-Quiet fuel r to = Always-then (send_all-Held fuel r to) (λ o h. h)

pub send_timeout_now-Quiet : (r : Raft) (to : ℕ) → Always (Quiet r) (send_timeout_now r to)
unfolding send_timeout_now
send_timeout_now-Quiet r to = send-Quiet r (message msg_timeout_now to)

response-Quiet :
    (r : Raft) (req : RaftMessage) (i : ℕ)
    → Always (λ s. Quiet r s.0) (response_to_read_index_req r req i)
unfolding response_to_read_index_req
response-Quiet r req i =
    Always-if ((req.from == 0) || (req.from == r.id))
      (Always-after (request_ctx_of req) (λ ctx. Always-ok (still refl refl refl refl refl)))
      (Always-ok Quiet-refl)

pub respond-Quiet : (r : Raft) (req : RaftMessage) (i : ℕ) → Always (Quiet r) (respond r req i)
unfolding respond
respond-Quiet r req i =
    Always-then (response-Quiet r req i)
      (λ s q. Always-if (s.1.to == 0) (Always-ok q) (Quiet-after q (send-Quiet s.0 s.1)))

pub respond_all-Quiet :
    (rss : List ReadIndexStatus) (r : Raft) → Always (Quiet r) (respond_all rss r)
unfolding respond_all
respond_all-Quiet [] r = Always-ok Quiet-refl
respond_all-Quiet (rs ∷ rss) r =
    Quiet-bind (respond-Quiet r rs.req rs.index) (respond_all-Quiet rss)

answer_by-Quiet :
    (o : ReadOnlyOption) (r : Raft) (m : RaftMessage) → Always (Quiet r) (answer_by o r m)
answer_by-Quiet read_only_safe r m =
    Always-after (add_request r.read_only r.raft_log.committed m) (λ ro.
      Always-after (request_ctx_of m) (λ ctx.
        Quiet-after (still refl refl refl refl refl) (bcast_heartbeat_with_ctx-Quiet ctx _)))
answer_by-Quiet read_only_lease_based r m = respond-Quiet r m r.raft_log.committed

pub send_msg_read_index_response-Quiet :
    (r : Raft) (m : RaftMessage) → Always (Quiet r) (send_msg_read_index_response r m)
unfolding send_msg_read_index_response
send_msg_read_index_response-Quiet r m = answer_by-Quiet r.read_only.option r m

answer_all-Quiet : (ms : List RaftMessage) (r : Raft) → Always (Quiet r) (answer_all ms r)
unfolding answer_all
answer_all-Quiet [] r = Always-ok Quiet-refl
answer_all-Quiet (m ∷ ms) r =
    Quiet-bind (send_msg_read_index_response-Quiet r m) (answer_all-Quiet ms)

pub release-Quiet : (r : Raft) → Always (Quiet r) (release_pending_read_index_messages r)
unfolding release_pending_read_index_messages
release-Quiet r = Always-after (committed_entry_in_current_term r) (λ current.
    Always-if current
      (Quiet-after (still refl refl refl refl refl)
        (answer_all-Quiet r.pending_read_index_messages _))
      (Always-ok Quiet-refl))

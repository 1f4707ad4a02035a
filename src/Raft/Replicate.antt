-- ===== src/Raft/Replicate.antt =====
-- raft/raft.go: what a leader sends to its followers, entries, snapshots and heartbeats.
pub mod Rounds
use my_raft_kv.Prelude.{
  ℕ, zero, suc, ◌-◌, Bool, true, false, ◌&&◌, not, Option, none, some, List, [], ◌∷◌, ◌==◌,
  if◌then◌else◌, get_elem?, length, sub64, min, err_snapshot_temporarily_unavailable, Result, ok,
  err, panic, ◌>>=◌, deref,
}
use my_raft_kv.Log.Entries.{Entry, Snapshot}
use my_raft_kv.Log.RaftLog as RLog
use my_raft_kv.Tracker.Progress as Prog
use my_raft_kv.Tracker.Progress.{state_probe, state_replicate, state_snapshot}
use my_raft_kv.Tracker.Inflights as Flights
use my_raft_kv.Tracker.Visit.{visit_ids}
use my_raft_kv.Raft.Message.{RaftMessage, message, msg_snap, msg_app, msg_heartbeat}
use my_raft_kv.Raft.ReadOnly.{last_pending_request_ctx}
use my_raft_kv.Raft.State.{Raft, send, progress_of, with_progress}

-- A call whose error is looked at later: `none` for any error.
abbrev pub attempt {ℓ} : {X : Type ℓ} → Result X → Result (Option X)
attempt panic = panic
attempt (err e) = ok none
attempt (ok x) = ok (some x)

-- `IsEmptySnap` of raft/node.go: the body is `return true`.
unfoldable pub is_empty_snap : Snapshot → Bool
is_empty_snap sp = true

abbrev pub entries_or_nil : Option (List Entry) → List Entry
entries_or_nil none = []
entries_or_nil (some ents) = ents

-- The `MsgSnap` branch of `maybeSendAppend`, with what `raftLog.snapshot` answers.
abbrev pub snapshot_message : Raft → ℕ → Prog.Progress → Result Snapshot → Result (Raft × Bool)
snapshot_message r to pr panic = panic
snapshot_message r to pr (err err_snapshot_temporarily_unavailable) = ok (r, false)
snapshot_message r to pr (err e) = panic
snapshot_message r to pr (ok sp) =
    if is_empty_snap sp
    then panic
    else (deref sp.metadata >>= λ md.
        send (with_progress r to (Prog.become_snapshot pr md.index))
          (record (message msg_snap to) { snap = some sp })
        >>= λ r'. ok (r', true))

unfoldable pub send_snapshot : Raft → ℕ → Prog.Progress → Result (Raft × Bool)
unfolding is_empty_snap send Prog.become_snapshot
send_snapshot r to pr =
    if pr.recent_active then snapshot_message r to pr (RLog.snapshot r.raft_log) else ok (r, false)

-- What a sent batch with the last index `last` does to the progress of its follower.
abbrev pub note_in : Prog.StateType → Prog.Progress → ℕ → Result Prog.Progress
note_in state_replicate pr last = Flights.add pr.inflights last >>= λ fl.
    ok (record (Prog.optimistic_update pr last) { inflights = fl })
note_in state_probe pr last = ok (record pr { probe_sent = true })
note_in state_snapshot pr last = panic

unfoldable pub note_sent : Prog.Progress → List Entry → Result Prog.Progress
unfolding Flights.add Prog.optimistic_update
note_sent pr [] = ok pr
note_sent pr (e ∷ ents) =
    deref (get_elem? (e ∷ ents) (length (e ∷ ents) - 1)) >>= λ last. note_in pr.state pr last.index

abbrev pub append_message : Raft → ℕ → Prog.Progress → ℕ → List Entry → RaftMessage
append_message r to pr term ents = record (message msg_app to) {
  index = sub64 pr.next 1;
  log_term = term;
  entries = ents;
  commit = r.raft_log.committed;
}

unfoldable pub send_entries : Raft → ℕ → Prog.Progress → ℕ → List Entry → Result (Raft × Bool)
unfolding note_sent send
send_entries r to pr term ents = note_sent pr ents >>= λ pr'.
    send (with_progress r to pr') (append_message r to pr term ents) >>= λ r'. ok (r', true)

-- `maybeSendAppend` once the term before `Next` and the entries from it have been asked for.
abbrev pub send_what :
    Raft → ℕ → Prog.Progress → Bool → Option ℕ → Option (List Entry) → Result (Raft × Bool)
send_what r to pr send_if_empty term ents =
    if (length (entries_or_nil ents) == 0) && not send_if_empty then ok (r, false) else elim term [
      | none ↦ send_snapshot r to pr
      | some t ↦ elim ents [ none ↦ send_snapshot r to pr | some es ↦ send_entries r to pr t es ]
    ]

unfoldable pub maybe_send_append : Raft → ℕ → Bool → Result (Raft × Bool)
unfolding send_snapshot send_entries
maybe_send_append r to send_if_empty = deref (progress_of r to) >>= λ pr.
    if Prog.is_paused pr
    then ok (r, false)
    else (attempt (RLog.term r.raft_log (sub64 pr.next 1)) >>= λ term.
        attempt (RLog.entries r.raft_log pr.next r.max_msg_size) >>= λ ents.
        send_what r to pr send_if_empty term ents)

unfoldable pub send_append : Raft → ℕ → Result Raft
unfolding maybe_send_append
send_append r to = maybe_send_append r to true >>= λ (r', sent). ok r'

-- The loop `for r.maybeSendAppend(m.From, false) {}`, with fuel; `none` is the end of the fuel.
unfoldable pub send_all : ℕ → Raft → ℕ → Result (Option Raft)
unfolding maybe_send_append
send_all zero r to = ok none
send_all (suc fuel) r to = maybe_send_append r to false >>= λ (r', sent).
    if sent then send_all fuel r' to else ok (some r')

-- A follower has at most `size` messages in flight, so the loop ends after that many rounds.
abbrev pub rounds : Raft → ℕ → ℕ
rounds r to = elim (progress_of r to) [ none ↦ 1 | some pr ↦ suc (suc pr.inflights.size) ]

abbrev pub heartbeat_message : List ℕ → Raft → ℕ → Prog.Progress → RaftMessage
heartbeat_message ctx r to pr = record (message msg_heartbeat to) {
  commit = min pr.match r.raft_log.committed;
  context = ctx;
}

unfoldable pub send_heartbeat : List ℕ → Raft → ℕ → Result Raft
unfolding send
send_heartbeat ctx r to = deref (progress_of r to) >>= λ pr. send r (heartbeat_message ctx r to pr)

-- `f` on every id but the node's own.
unfoldable pub for_others : (Raft → ℕ → Result Raft) → List ℕ → Raft → Result Raft
for_others f [] r = ok r
for_others f (id ∷ ids) r = if id == r.id then for_others f ids r else (f r id >>= for_others f ids)

unfoldable pub bcast_append : Raft → Result Raft
unfolding send_append for_others visit_ids
bcast_append r = for_others send_append (visit_ids r.trk) r

unfoldable pub bcast_heartbeat_with_ctx : List ℕ → Raft → Result Raft
unfolding send_heartbeat for_others visit_ids
bcast_heartbeat_with_ctx ctx r = for_others (send_heartbeat ctx) (visit_ids r.trk) r

unfoldable pub bcast_heartbeat : Raft → Result Raft
unfolding bcast_heartbeat_with_ctx last_pending_request_ctx
bcast_heartbeat r = bcast_heartbeat_with_ctx (last_pending_request_ctx r.read_only) r

-- ===== src/Raft/Quiet/Receives.antt =====
-- What a follower does with entries, heartbeats and snapshots leaves term and vote alone.
use my_raft_kv.Prelude.{
  ℕ, ◌≤◌, ◌<◌, ◌||◌, Option, none, some, ◌≡◌, refl, ltb, min, arith, Always, Always-ok, Always-if,
  Always-then, Always-after, ◌>>=◌, deref,
}
use my_raft_kv.Log.Entries.{ConfState, Snapshot, SnapshotMetadata}
use my_raft_kv.Log.RaftLog as RLog
use my_raft_kv.Log.RaftLog.{must, RaftLog}
use my_raft_kv.Log.RaftLog.Rising.{
  commit_to-Risen, commit_to-upto, maybe_append-Risen, restore-Risen,
}
use my_raft_kv.Raft.Message.{RaftMessage}
use my_raft_kv.Raft.State.{Raft}
use my_raft_kv.Raft.Receive.{
  reject_message, ack_message, reject_entries, acknowledge, handle_append_entries, beat_message,
  handle_heartbeat, contains, fast_forward, install,
}
use my_raft_kv.Raft.Quiet.{Quiet, Quiet-refl, Quiet-trans, still, Quiet-after, send-Quiet, with_log}

reject_entries-Quiet : (r : Raft) (m : RaftMessage) → Always (Quiet r) (reject_entries r m)
unfolding reject_entries
reject_entries-Quiet r m =
    Always-after (RLog.zero_term_on_err_compacted (RLog.term r.raft_log m.index)) (λ _.
      Always-after (RLog.last_index r.raft_log) (λ last.
        Always-after (RLog.find_conflict_by_term r.raft_log (min m.index last) m.log_term >>= deref)
          (λ hint.
            Always-after (must (RLog.term r.raft_log hint))
              (λ t. send-Quiet r (reject_message m hint t)))))

acknowledge-Quiet :
    (r : Raft) (m : RaftMessage) (o : Option ℕ) → Always (Quiet r) (acknowledge r m o)
acknowledge-Quiet r m none = reject_entries-Quiet r m
acknowledge-Quiet r m (some last) = send-Quiet r (ack_message m last)

pub handle_append_entries-Quiet :
    (r : Raft) (m : RaftMessage) → Always (Quiet r) (handle_append_entries r m)
unfolding handle_append_entries
handle_append_entries-Quiet r m =
    Always-if (ltb m.index r.raft_log.committed) (send-Quiet r (ack_message m r.raft_log.committed))
      (Always-then (maybe_append-Risen r.raft_log m.index m.log_term m.commit m.entries)
        (λ s h. Quiet-after (with_log h) (acknowledge-Quiet (record r { raft_log = s.0 }) m s.1)))

pub handle_heartbeat-Quiet : (r : Raft) (m : RaftMessage) → Always (Quiet r) (handle_heartbeat r m)
unfolding handle_heartbeat
handle_heartbeat-Quiet r m =
    Always-then (commit_to-Risen r.raft_log m.commit) (λ log h.
      Quiet-after (with_log h) (send-Quiet (record r { raft_log = log }) (beat_message m)))

-- Committing up to the snapshot's index does not go past it.
Forwarded : Raft → SnapshotMetadata → Raft → Type 0
Forwarded r md r' = Quiet r r' × (r'.raft_log.committed ≤ md.index)

fast_forward-Forwarded :
    (r : Raft) (md : SnapshotMetadata)
    → r.raft_log.committed < md.index
    → Always (Forwarded r md) (fast_forward r md)
unfolding fast_forward Forwarded
fast_forward-Forwarded r md p = Always-after (RLog.match_term r.raft_log md.index md.term) (λ same.
    Always-if same
      (Always-after (RLog.last_index r.raft_log) (λ _.
        Always-after (RLog.last_term r.raft_log) (λ _.
          Always-then (commit_to-upto r.raft_log md.index (omega (arith, p)))
            (λ log h. Always-ok (with_log h.0, h.1)))))
      (Always-ok (Quiet-refl, omega (arith, p))))

-- A follower's state after `restore`.
pub install-Quiet :
    (r : Raft) (s : Snapshot) (md : SnapshotMetadata) (cs : ConfState)
    → s.metadata ≡ some md
    → r.raft_log.committed < md.index
    → Always (λ t. Quiet r t.0) (install r s md cs)
unfolding install Forwarded
install-Quiet r s md cs e p =
    Always-if
      (contains r.id cs.voters || (contains r.id cs.learners || contains r.id cs.voters_outgoing))
      (Always-then (fast_forward-Forwarded r md p) (λ r' f.
        Always-then (restore-Risen r'.raft_log s e f.1) (λ log h.
          Always-ok (Quiet-trans f.0 (Quiet-trans (with_log h) (still refl refl refl refl refl))))))
      (Always-ok Quiet-refl)

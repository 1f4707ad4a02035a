-- ===== src/Log/RaftLog/Rising.antt =====
-- The commit index of a log never falls, in a call that returns, whatever the log.
use my_raft_kv.Prelude.{
  ℕ, ◌≤◌, some, List, ◌≡◌, ltb, ◌==◌, leb, sub64, add64, length, arith, min, Always, Always-ok,
  Always-panic, Always-if, Always-split, Always-then, Always-after,
}
use my_raft_kv.Log.Entries.{Entry, Snapshot, SnapshotMetadata}
use my_raft_kv.Log.RaftLog.{
  RaftLog, append_at, commit_to, maybe_commit, append, maybe_append, restore, last_index, term,
  match_term, find_conflict, zero_term_on_err_compacted,
}
use my_raft_kv.Log.Storage.{slice_of}
use my_raft_kv.Log.Unstable

unfoldable pub Risen : RaftLog → RaftLog → Type 0
Risen rl rl' = rl.committed ≤ rl'.committed

pub commit_to-Risen : (rl : RaftLog) (i : ℕ) → Always (Risen rl) (commit_to rl i)
unfolding commit_to Risen
commit_to-Risen rl i =
    Always-split (ltb rl.committed i)
      (λ h.
        Always-after (last_index rl)
          (λ last. Always-if (ltb last i) Always-panic (Always-ok (ground (arith, h)))))
      (λ h. Always-ok (omega arith))

pub maybe_commit-Risen : (rl : RaftLog) (i t : ℕ) → Always (λ r. Risen rl r.0) (maybe_commit rl i t)
unfolding maybe_commit Risen
maybe_commit-Risen rl i t =
    Always-if (ltb rl.committed i)
      (Always-after (zero_term_on_err_compacted (term rl i)) (λ t'.
        Always-if (t' == t) (Always-then (commit_to-Risen rl i) (λ rl' h. Always-ok h))
          (Always-ok (omega arith))))
      (Always-ok (omega arith))

pub append-Risen : (rl : RaftLog) (es : List Entry) → Always (λ r. Risen rl r.0) (append rl es)
unfolding append Risen
append-Risen rl es = Always-after (last_index rl) (λ last. Always-ok (omega arith))

append_at-Risen :
    (rl : RaftLog) (index ci : ℕ) (ents : List Entry)
    → Always (Risen rl) (append_at rl index ci ents)
unfolding Risen
append_at-Risen rl index ci ents = Always-if (ci == 0) (Always-ok (omega arith)) (
    Always-if (leb ci rl.committed) Always-panic (
      Always-after (slice_of ents (sub64 ci (add64 index 1)) (length ents))
        (λ new. Always-then (append-Risen rl new) (λ r h. Always-ok h))))

pub maybe_append-Risen :
    (rl : RaftLog) (index log_term committed : ℕ) (ents : List Entry)
    → Always (λ r. Risen rl r.0) (maybe_append rl index log_term committed ents)
unfolding maybe_append Risen
maybe_append-Risen rl index log_term committed ents =
    Always-after (match_term rl index log_term) (λ same.
      Always-if same
        (Always-after (find_conflict rl ents) (λ ci.
          Always-then (append_at-Risen rl index ci ents) (λ rl' p.
            Always-then (commit_to-Risen rl' (min committed (add64 index (length ents))))
              (λ rl'' q. Always-ok (omega (arith, p, q))))))
        (Always-ok (omega arith)))

-- `commitTo` stops at the index it is given.
pub commit_to-upto :
    (rl : RaftLog) (i : ℕ)
    → rl.committed ≤ i
    → Always (λ rl'. Risen rl rl' × (rl'.committed ≤ i)) (commit_to rl i)
unfolding commit_to Risen
commit_to-upto rl i p =
    Always-split (ltb rl.committed i)
      (λ h. Always-after (last_index rl) (λ last.
        Always-if (ltb last i) Always-panic (Always-ok (ground (arith, h), ground (arith, h)))))
      (λ h. Always-ok (omega arith, p))

pub restore-Risen :
    (rl : RaftLog) (s : Snapshot) {md : SnapshotMetadata}
    → s.metadata ≡ some md
    → rl.committed ≤ md.index
    → Always (Risen rl) (restore rl s)
unfolding restore Risen
restore-Risen rl s {md} e p = rw e (
    Always-after (Unstable.restore rl.unstable (record s { metadata = some md }))
      (λ u. Always-ok p))

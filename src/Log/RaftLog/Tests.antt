-- ===== src/Log/RaftLog/Tests.antt =====
-- Runs of the log over a memory storage, and its theorems there.
use my_raft_kv.Prelude.{
  ℕ, ◌≡◌, ◌≤◌, ◌<◌, ◌⊎◌, ◌↔◌, inr, refl, Bool, true, some, [], ◌∷◌, arith, ok, err, err_compacted,
}
use my_raft_kv.Log.Storage.{as_storage}
use my_raft_kv.Log.Samples.{log, log-IsValid, stored, stored-IsValid, at}
use my_raft_kv.Log.Unstable.{maybe_first_index, maybe_last_index, maybe_term}
use my_raft_kv.Log.RaftLog.{
  new_log, first_index, last_index, term, match_term, commit_to, maybe_commit, is_up_to_date,
  find_conflict, find_conflict_by_term, maybe_append, slice, entries,
}
use my_raft_kv.Log.RaftLog.Valid.{Lawful, as_storage-Lawful, IsValid}
use my_raft_kv.Log.RaftLog.Commit.{
  with_committed, with_committed-IsValid, commit_to_lem, maybe_commit_lem, is_up_to_date_iff,
}
use my_raft_kv.Log.RaftLog.Conflict.{HasAll, FirstConflict, find_conflict_lem}
use my_raft_kv.Log.RaftLog.Rejected.{
  LastUpTo, find_conflict_by_term_total, find_conflict_by_term_lem,
}
use my_raft_kv.Log.RaftLog.Appended.{maybe_append_lem}

made : new_log (some (as_storage stored)) ≡ ok log
unfolding new_log as_storage
made = refl

log_runs :
    (first_index log ≡ ok 6)
    × (last_index log ≡ ok 8)
    × (term log 7 ≡ ok 3)
    × (term log 5 ≡ ok 2)
    × (term log 4 ≡ ok 0)
    × (term log 9 ≡ ok 0)
    × (slice log 6 8 100 ≡ ok (at 6 2 ∷ at 7 3 ∷ []))
    × (slice log 5 8 100 ≡ err err_compacted)
    × (entries log 9 100 ≡ ok [])
    × (find_conflict log (at 7 3 ∷ at 8 4 ∷ []) ≡ ok 8)
    × (find_conflict_by_term log 8 2 ≡ ok (some 6))
unfolding as_storage first_index last_index term slice entries find_conflict match_term
    find_conflict_by_term maybe_first_index maybe_last_index maybe_term
log_runs = (refl, refl, refl, refl, refl, refl, refl, refl, refl, refl, refl)

stored-Lawful : Lawful (as_storage stored)
stored-Lawful = as_storage-Lawful stored-IsValid

commit_to_lem_example :
    (commit_to log 7 ≡ ok (with_committed log 7)) × IsValid (with_committed log 7)
commit_to_lem_example = (commit_to_lem log-IsValid 7).0 (omega arith)

maybe_commit_lem_example :
    (maybe_commit log 7 3 ≡ ok (with_committed log 7, true)) × IsValid (with_committed log 7)
unfolding as_storage first_index last_index term maybe_first_index maybe_last_index maybe_term
maybe_commit_lem_example =
    (maybe_commit_lem log-IsValid 7 3 (omega arith)).0 (omega arith) (omega arith) refl

with_committed-IsValid_example : IsValid (with_committed log 6)
with_committed-IsValid_example = with_committed-IsValid log-IsValid 6 (omega arith) (omega arith)

is_up_to_date_iff_example :
    (b : Bool) × (lt : ℕ) × (is_up_to_date log 8 3 ≡ ok b)
    × (term log 8 ≡ ok lt)
    × ((b ≡ true) ↔ ((lt < 3) ⊎ ((◌≡◌ {A = ℕ} 3 lt) × (8 ≤ 8))))
is_up_to_date_iff_example = is_up_to_date_iff log-IsValid 8 3

find_conflict_lem_example :
    (HasAll log (at 7 3 ∷ at 8 4 ∷ []) × (find_conflict log (at 7 3 ∷ at 8 4 ∷ []) ≡ ok 0))
    ⊎ ((c : FirstConflict log (at 7 3 ∷ at 8 4 ∷ [])) × (find_conflict log (at 7 3 ∷ at 8 4 ∷ [])
          ≡ ok c.entry.index))
find_conflict_lem_example = find_conflict_lem log-IsValid (at 7 3 ∷ at 8 4 ∷ [])

find_conflict_by_term_total_example : (j : ℕ) × (find_conflict_by_term log 8 2 ≡ ok (some j))
find_conflict_by_term_total_example = find_conflict_by_term_total log-IsValid 8 2 (omega arith)

find_conflict_by_term_lem_example :
    (j : ℕ) × (find_conflict_by_term log 8 2 ≡ ok (some j)) × LastUpTo log 8 2 j
unfolding as_storage first_index last_index term maybe_first_index maybe_last_index maybe_term
find_conflict_by_term_lem_example = (find_conflict_by_term_lem log-IsValid 8 2 refl).0 (omega arith)

-- Entry 9 is accepted, and the commit index moves to 8; entry 9 is not stored.
maybe_append_lem_example :
    (maybe_append log 8 3 8 (at 9 4 ∷ []) ≡ ok (with_committed log 8, some 9))
    × (last_index log ≡ ok 8)
unfolding as_storage first_index last_index term find_conflict match_term maybe_first_index
    maybe_last_index maybe_term
maybe_append_lem_example = (
  ((maybe_append_lem log-IsValid 8 3 8 9 (at 9 4 ∷ []) (refl, tt) (omega arith) refl).2 refl
        (inr (omega arith))).0
      (omega arith),
  refl,
)

-- ===== src/Log/RaftLog/Appended.antt =====
-- `maybeAppend`: what it accepts, and what it stores.
use my_raft_kv.Prelude.{
  ℕ, suc, ◌+◌, ◌^◌, ◌≤◌, ◌<◌, ◌≡◌, ◌≢◌, ◌⊎◌, inl, inr, ◌∙◌, ap, subst, true, none, some, List, [],
  ◌∷◌, ◌++◌, ◌==◌, arith, ok, panic, ◌>>=◌, length, min, max, add64, length-append,
}
use my_raft_kv.Log.Entries.{Entry}
use my_raft_kv.Log.Storage.Contiguous.{Runs}
use my_raft_kv.Log.RaftLog.{
  RaftLog, term, match_term, find_conflict, append_at, append, commit_to, maybe_append,
}
use my_raft_kv.Log.RaftLog.Valid.{IsValid}
use my_raft_kv.Log.RaftLog.Conflict.{FirstConflict, find_conflict_lem}
use my_raft_kv.Log.RaftLog.Commit.{with_committed, commit_to_lem, term_total}

Runs-position :
    (k : ℕ) (before : List Entry) (e : Entry) (after : List Entry)
    → Runs k (before ++ e ∷ after)
    → e.index ≡ k + length before
Runs-position k [] e after r = omega (arith, r.0)
Runs-position k (b ∷ before) e after r = omega (arith, Runs-position (suc k) before e after r.1)

-- Where the first conflict lies among entries that go on from `index`.
conflict_place :
    {rl : RaftLog} (index : ℕ) (ents : List Entry) (c : FirstConflict rl ents)
    → Runs (suc index) ents
    → (suc index ≤ c.entry.index) × (c.entry.index ≤ index + length ents)
conflict_place {rl} index ents c r = omega (
  arith,
  Runs-position (suc index) c.before c.entry c.after (subst (Runs (suc index)) c.split r),
  ap length c.split,
  length-append c.before (c.entry ∷ c.after),
)

-- The `switch` leaves the log as it is, or panics on a conflict with a committed entry.
append_at_lem :
    {rl : RaftLog} (v : IsValid rl) (index ci : ℕ) (ents : List Entry)
    → index + length ents + 1 < 2 ^ 64
    → (ci ≡ 0) ⊎ ((suc index ≤ ci) × (ci ≤ index + length ents))
    → (ci ≡ 0) ⊎ (rl.committed < ci)
    → append_at rl index ci ents ≡ ok rl
unfolding append
append_at_lem v index ci ents h (inl z) q = ground arith
append_at_lem v index ci ents h (inr b) q = rw v.last_is (ground arith)

accepted :
    {rl : RaftLog} (v : IsValid rl) (index t committed : ℕ) (ents : List Entry) (ci : ℕ)
    → index + length ents + 1 < 2 ^ 64
    → term rl index ≡ ok t
    → find_conflict rl ents ≡ ok ci
    → (ci ≡ 0) ⊎ ((suc index ≤ ci) × (ci ≤ index + length ents))
    → (ci ≡ 0) ⊎ (rl.committed < ci)
    → maybe_append rl index t committed ents ≡ (
        commit_to rl (min committed (index + length ents)) >>= λ rl'.
        ok (rl', some (index + length ents)))
unfolding maybe_append match_term
accepted v index t committed ents ci h m f a b =
    rw (m, f, append_at_lem v index ci ents h a b, sum, same, maybe_append)
  where
    sum : add64 index (length ents) ≡ index + length ents
    sum = omega (arith, h)

    same : (t == t) ≡ true
    same = ground arith

answer_place :
    {rl : RaftLog} (v : IsValid rl) (index ci : ℕ) (ents : List Entry)
    → Runs (suc index) ents
    → find_conflict rl ents ≡ ok ci
    → (ci ≡ 0) ⊎ ((suc index ≤ ci) × (ci ≤ index + length ents))
answer_place v index ci ents r f = elim (find_conflict_lem v ents) [
  | inl (all, e) ↦ inl (ground arith)
  | inr (c, e) ↦ inr (ground (arith, conflict_place index ents c r))
]

-- `maybeAppend` on a valid log, of entries whose indices go on from `index`, the last one below
-- 2 ^ 64 - 1, where `ci` is the answer of `findConflict`:
-- where the log's term at `index` is another, the log is unchanged and the append is refused;
-- where there is a conflict at or below the commit index, it panics;
-- otherwise the append is accepted with the index of its last entry, and the log that comes back is
-- the old one with a commit index moved up to the smaller of `committed` and that index: no entry is
-- stored. If the commit index would go past the last index of the old log, the call panics instead.
pub maybe_append_lem :
    {rl : RaftLog} (v : IsValid rl) (index t committed ci : ℕ) (ents : List Entry)
    → Runs (suc index) ents
    → index + length ents + 1 < 2 ^ 64
    → find_conflict rl ents ≡ ok ci
    → (term rl index ≢ ok t → maybe_append rl index t committed ents ≡ ok (rl, none))
      × (term rl index ≡ ok t
          → 0 < ci
          → ci ≤ rl.committed
          → maybe_append rl index t committed ents ≡ panic)
      × (term rl index ≡ ok t
          → (ci ≡ 0) ⊎ (rl.committed < ci)
          → let upto = min committed (index + length ents) in
            (upto ≤ v.last
              → maybe_append rl index t committed ents
                ≡ ok (with_committed rl (max rl.committed upto), some (index + length ents)))
            × (v.last < upto → maybe_append rl index t committed ents ≡ panic))
unfolding maybe_append match_term
maybe_append_lem {rl} v index t committed ci ents r h f = (
  λ n. let (t', e) = term_total v index in rw (e, maybe_append) (ground (arith, n, e)),
  λ m p q. rw (m, f, maybe_append) (ground arith),
  λ m q.
      let upto = min committed (index + length ents) in
      let whole = accepted v index t committed ents ci h m f (answer_place v index ci ents r f) q in
      (
        λ p. whole ∙ rw ((commit_to_lem v upto).0 p).0,
        λ p. whole ∙ rw ((commit_to_lem v upto).1 p),
      ),
)

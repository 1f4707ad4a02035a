-- ===== src/Log/RaftLog/Commit.antt =====
-- The commit index of a log, and the comparison of logs in an election.
use my_raft_kv.Prelude.{
  ℕ, suc, ◌≤◌, ◌<◌, ◌≡◌, ◌≢◌, ◌⊎◌, inl, inr, ◌↔◌, Bool, true, false, ◌&&◌, ◌||◌, leb, ltb, ◌==◌,
  arith, ok, panic, max,
}
use native.Mathlib.Decide.{dec_lt}
use my_raft_kv.Log.RaftLog.{
  RaftLog, first_index, last_index, term, last_term, is_up_to_date, commit_to, maybe_commit,
}
use my_raft_kv.Log.RaftLog.Valid.{IsValid, term_outside}

-- The log with another commit index.
abbrev pub with_committed : RaftLog → ℕ → RaftLog
with_committed rl c = record rl { committed = c }

-- A valid log can answer for the term of any index.
pub term_total : {rl : RaftLog} (v : IsValid rl) (i : ℕ) → (t : ℕ) × (term rl i ≡ ok t)
term_total v i = elim (dec_lt (suc i) v.first) [
  | yes p ↦ (0, term_outside v i (inl p))
  | no p ↦ elim (dec_lt v.last i) [
    | yes q ↦ (0, term_outside v i (inr q))
    | no q ↦ v.readable i (omega (arith, p)) (omega (arith, q))
  ]
]

pub with_committed-IsValid :
    {rl : RaftLog} (v : IsValid rl) (c : ℕ)
    → rl.applied ≤ c
    → c ≤ v.last
    → IsValid (with_committed rl c)
unfolding first_index last_index term
with_committed-IsValid v c p q = record {
  first = v.first;
  last = v.last;
  first_is = v.first_is;
  last_is = v.last_is;
  positive = v.positive;
  order = v.order;
  small = v.small;
  readable = v.readable;
  committed_in = q;
  applied_in = p;
}

-- `commitTo` moves the commit index up to an index of the log, never down, changes nothing else and
-- keeps the log valid. Past the last index it panics.
pub commit_to_lem :
    {rl : RaftLog} (v : IsValid rl) (i : ℕ)
    → (i ≤ v.last
        → (commit_to rl i ≡ ok (with_committed rl (max rl.committed i)))
          × IsValid (with_committed rl (max rl.committed i)))
      × (v.last < i → commit_to rl i ≡ panic)
unfolding commit_to
commit_to_lem {rl} v i = (
  λ p. (
    rw (v.last_is, commit_to) (ground arith),
    with_committed-IsValid v _ (ground (arith, v.applied_in)) (ground (arith, v.committed_in)),
  ),
  λ p. rw (v.last_is, commit_to) (ground (arith, v.committed_in)),
)

-- With a term that is not 0, `maybeCommit` on a valid log never panics. It commits exactly an index
-- above the commit index, in the log, whose entry has that term: then the log stays valid and only
-- its commit index changes. In every other case nothing changes.
pub maybe_commit_lem :
    {rl : RaftLog} (v : IsValid rl) (i t : ℕ)
    → 0 < t
    → (rl.committed < i
        → i ≤ v.last
        → term rl i ≡ ok t
        → (maybe_commit rl i t ≡ ok (with_committed rl i, true)) × IsValid (with_committed rl i))
      × ((i ≤ rl.committed) ⊎ (v.last < i) ⊎ (term rl i ≢ ok t)
          → maybe_commit rl i t ≡ ok (rl, false))
unfolding maybe_commit
maybe_commit_lem {rl} v i t h = (
  λ p q r. (
    rw (r, v.last_is, maybe_commit) (ground arith),
    with_committed-IsValid v i (omega (arith, v.applied_in)) q,
  ),
  other,
)
  where
    other :
        (i ≤ rl.committed) ⊎ (v.last < i) ⊎ (term rl i ≢ ok t)
        → maybe_commit rl i t ≡ ok (rl, false)
    other (inl p) = ground arith
    other (inr (inl q)) = rw (term_outside v i (inr q), maybe_commit) (ground arith)
    other (inr (inr n)) =
        let (t', e) = term_total v i in rw (e, maybe_commit) (ground (arith, n, e))

-- On a valid log `isUpToDate` always answers: a candidate's log is as good exactly when its last term
-- is larger than the last term of the log, or equal to it with a last index that is not smaller.
pub is_up_to_date_iff :
    {rl : RaftLog} (v : IsValid rl) (i t : ℕ)
    → (b : Bool) × (lt : ℕ) × (is_up_to_date rl i t ≡ ok b)
      × (term rl v.last ≡ ok lt)
      × ((b ≡ true) ↔ ((lt < t) ⊎ ((t ≡ lt) × (v.last ≤ i))))
unfolding is_up_to_date last_term
is_up_to_date_iff v i t =
    let (lt, e) = term_total v v.last in
    (ltb lt t || ((t == lt) && leb v.last i), lt, rw (v.last_is, e), e, ground arith)

-- ===== src/Log/RaftLog/Rejected.antt =====
-- `findConflictByTerm`: where a rejected append can be tried again.
use my_raft_kv.Prelude.{ℕ, zero, suc, ◌-◌, ◌^◌, ◌≤◌, ◌<◌, ◌≡◌, inr, ◌∙◌, ap, some, arith, ok, sub64}
use native.Mathlib.Decide.{dec_le, ℕ_discrete, dec_lt}
use my_raft_kv.Log.RaftLog.{RaftLog, term, find_conflict_by_term, walk_back}
use my_raft_kv.Log.RaftLog.Valid.{IsValid, term_outside}
use my_raft_kv.Log.RaftLog.Commit.{term_total}

-- `j` is the largest index up to `index` whose term is at most `t`.
pub record LastUpTo (rl : RaftLog) (index t j : ℕ) : Type 0 where
  pub within : j ≤ index
  pub low : (t' : ℕ) × (term rl j ≡ ok t') × (t' ≤ t)
  pub high : (k : ℕ) → j < k → k ≤ index → (t' : ℕ) × (term rl k ≡ ok t') × (t < t')

walk_back_stop :
    (rl : RaftLog) (t index fuel t' : ℕ)
    → term rl index ≡ ok t'
    → t' ≤ t
    → walk_back rl t index (suc fuel) ≡ ok (some index)
unfolding walk_back
walk_back_stop rl t index fuel t' e h = rw (e, walk_back) (ground arith)

walk_back_step :
    (rl : RaftLog) (t n fuel t' : ℕ)
    → term rl (suc n) ≡ ok t'
    → t < t'
    → suc n < 2 ^ 64
    → walk_back rl t (suc n) (suc fuel) ≡ walk_back rl t n fuel
unfolding walk_back
walk_back_step rl t n fuel t' e h w = rw (e, walk_back) (ground (arith, down))
  where
    down : walk_back rl t (sub64 (suc n) 1) fuel ≡ walk_back rl t n fuel
    down = ap (λ k. walk_back rl t k fuel) (omega arith)

-- From index 0 the source's `index--` wraps to the largest uint64, where the log answers term 0.
walk_back_wraps :
    {rl : RaftLog} (v : IsValid rl) (t t' : ℕ)
    → term rl 0 ≡ ok t'
    → t < t'
    → walk_back rl t 0 2 ≡ ok (some (2 ^ 64 - 1))
unfolding walk_back
walk_back_wraps v t t' e h =
    rw (e, term_outside v (2 ^ 64 - 1) (inr (omega (arith, v.small))), walk_back) (ground arith)

walk_back_stops :
    {rl : RaftLog} (v : IsValid rl) (t index : ℕ)
    → index < 2 ^ 64
    → (j : ℕ) × (walk_back rl t index (suc (suc index)) ≡ ok (some j))
walk_back_stops {rl} v t zero h =
    let (t', e) = term_total v 0 in
    elim (dec_le t' t) [
      | yes p ↦ (0, walk_back_stop rl t 0 1 t' e p)
      | no p ↦ (2 ^ 64 - 1, walk_back_wraps v t t' e (omega (arith, p)))
    ]
walk_back_stops {rl} v t (suc n) h =
    let (t', e) = term_total v (suc n) in
    let (j, r) = walk_back_stops v t n (omega arith) in
    elim (dec_le t' t) [
      | yes p ↦ (suc n, walk_back_stop rl t (suc n) (suc (suc n)) t' e p)
      | no p ↦ (j, walk_back_step rl t n (suc (suc n)) t' e (omega (arith, p)) h ∙ r)
    ]

walk_back_lem :
    {rl : RaftLog} (v : IsValid rl) (t index : ℕ)
    → term rl 0 ≡ ok 0
    → index < 2 ^ 64
    → (j : ℕ) × (walk_back rl t index (suc (suc index)) ≡ ok (some j)) × LastUpTo rl index t j
walk_back_lem {rl} v t zero z h = (
  0,
  walk_back_stop rl t 0 1 0 z (omega arith),
  record {
    within = omega arith;
    low = (0, z, omega arith);
    high = λ k p q. absurd (omega (arith, p, q));
  },
)
walk_back_lem {rl} v t (suc n) z h =
    let (t', e) = term_total v (suc n) in
    let (j, r, l) = walk_back_lem v t n z (omega arith) in
    elim (dec_le t' t) [
      | yes p ↦ (
        suc n,
        walk_back_stop rl t (suc n) (suc (suc n)) t' e p,
        record {
          within = omega arith;
          low = (t', e, p);
          high = λ k a b. absurd (omega (arith, a, b));
        },
      )
      | no p ↦ (
        j,
        walk_back_step rl t n (suc (suc n)) t' e (omega (arith, p)) h ∙ r,
        record {
          within = omega (arith, l.within);
          low = l.low;
          high = λ k a b. elim (ℕ_discrete k (suc n)) [
            | yes s ↦ (t', rw s e, omega (arith, p))
            | no d ↦ l.high k a (omega (arith, b, d))
          ];
        },
      )
    ]

-- On a valid log the loop of `findConflictByTerm` always ends: the fuel of the model, two more than
-- the index, is enough for every index and term.
pub find_conflict_by_term_total :
    {rl : RaftLog} (v : IsValid rl) (index t : ℕ)
    → index < 2 ^ 64
    → (j : ℕ) × (find_conflict_by_term rl index t ≡ ok (some j))
unfolding find_conflict_by_term
find_conflict_by_term_total v index t h = elim (dec_lt v.last index) [
  | yes p ↦ (index, rw (v.last_is, find_conflict_by_term) (ground arith))
  | no p ↦
      let (j, r) = walk_back_stops v t index h in
      (j, rw (v.last_is, find_conflict_by_term) (ground (arith, r)))
]

-- On a valid log that answers term 0 for index 0, `findConflictByTerm` of an index of the log finds
-- the largest index not above it whose term is at most `t`. An index past the log is returned as it
-- is.
pub find_conflict_by_term_lem :
    {rl : RaftLog} (v : IsValid rl) (index t : ℕ)
    → term rl 0 ≡ ok 0
    → (index ≤ v.last
        → (j : ℕ) × (find_conflict_by_term rl index t ≡ ok (some j)) × LastUpTo rl index t j)
      × (v.last < index → find_conflict_by_term rl index t ≡ ok (some index))
unfolding find_conflict_by_term
find_conflict_by_term_lem {rl} v index t z = (
  λ p.
      let (j, r, l) = walk_back_lem v t index z (omega (arith, p, v.small)) in
      (j, rw (v.last_is, find_conflict_by_term) (ground (arith, r)), l),
  λ p. rw (v.last_is, find_conflict_by_term) (ground arith),
)

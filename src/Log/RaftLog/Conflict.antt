-- ===== src/Log/RaftLog/Conflict.antt =====
-- `findConflict`: the first entry that the log does not have.
use my_raft_kv.Prelude.{ℕ, ◌≡◌, ◌≢◌, ◌⊎◌, inl, inr, refl, ap, List, [], ◌∷◌, ◌++◌, arith, ok}
use native.Mathlib.Decide.{ℕ_discrete}
use my_raft_kv.Log.Entries.{Entry}
use my_raft_kv.Log.RaftLog.{RaftLog, term, match_term, find_conflict}
use my_raft_kv.Log.RaftLog.Valid.{IsValid}
use my_raft_kv.Log.RaftLog.Commit.{term_total}

-- The log has every entry of the list, by index and term.
abbrev pub HasAll : RaftLog → List Entry → Type 0
HasAll rl [] = Unit {0}
HasAll rl (e ∷ es) = (term rl e.index ≡ ok e.term) × HasAll rl es

-- The list splits at an entry that the log does not have, and has all entries before it.
pub record FirstConflict (rl : RaftLog) (ents : List Entry) : Type 0 where
  pub before : List Entry
  pub entry : Entry
  pub after : List Entry
  pub split : ents ≡ before ++ entry ∷ after
  pub had : HasAll rl before
  pub conflict : term rl entry.index ≢ ok entry.term

-- On a valid log `findConflict` never panics: it answers 0 where the log has every entry of the list,
-- and otherwise the index of the first entry that the log does not have.
pub find_conflict_lem :
    {rl : RaftLog} (v : IsValid rl) (ents : List Entry)
    → (HasAll rl ents × (find_conflict rl ents ≡ ok 0))
      ⊎ ((c : FirstConflict rl ents) × (find_conflict rl ents ≡ ok c.entry.index))
unfolding find_conflict match_term
find_conflict_lem v [] = inl (tt, refl)
find_conflict_lem {rl} v (e ∷ es) = go (term_total v e.index) (find_conflict_lem v es)
  where
    go :
        (t : ℕ) × (term rl e.index ≡ ok t)
        → (HasAll rl es × (find_conflict rl es ≡ ok 0))
          ⊎ ((c : FirstConflict rl es) × (find_conflict rl es ≡ ok c.entry.index))
        → (HasAll rl (e ∷ es) × (find_conflict rl (e ∷ es) ≡ ok 0))
          ⊎ ((c : FirstConflict rl (e ∷ es)) × (find_conflict rl (e ∷ es) ≡ ok c.entry.index))
    go (t, p) rec = elim (ℕ_discrete t e.term) [
      | no n ↦ inr (
        record {
          before = [];
          entry = e;
          after = es;
          split = refl;
          had = tt;
          conflict = λ q. ground (arith, p);
        },
        rw (p, v.last_is, find_conflict) (ground arith),
      )
      | yes s ↦ elim rec [
        | inl (all, r) ↦ inl ((ground (arith, p), all), rw (p, r, find_conflict) (ground arith))
        | inr (c, r) ↦ inr (
          record {
            before = e ∷ c.before;
            entry = c.entry;
            after = c.after;
            split = ap (◌∷◌ e) c.split;
            had = (ground (arith, p), c.had);
            conflict = c.conflict;
          },
          rw (p, r, find_conflict) (ground arith),
        )
      ]
    ]

-- ===== src/Quorum/Overlap.antt =====
-- Two majorities of one configuration share a voter.
use my_raft_kv.Prelude.{
  ℕ, ◌+◌, ◌<◌, ◌≡◌, refl, ◌≢◌, ◌⊎◌, inl, inr, Bool, true, false, Option, none, some, List, [], ◌∷◌,
  lookup, length, arith,
}
use mathlib.Core.List.{Memᴰ}
use my_raft_kv.Quorum.{vote_result, vote_won, MajorityConfig}
use my_raft_kv.Quorum.Counting.{granted, is_yes, vote_result-eq-verdict}

is_yes_cases : (o : Option Bool) → (o ≡ some true) ⊎ (is_yes o ≡ 0)
is_yes_cases none = inr refl
is_yes_cases (some true) = inl refl
is_yes_cases (some false) = inr refl

is_yes-le : (o : Option Bool) → is_yes o < 2
is_yes-le none = omega arith
is_yes-le (some true) = omega arith
is_yes-le (some false) = omega arith

-- A voter of `m` that granted its vote in both of two elections.
pub record VotedTwice (m : MajorityConfig) (votes votes' : List (ℕ × Bool)) : Type 0 where
  pub id : ℕ
  pub member : Memᴰ id m
  pub first : lookup id votes ≡ some true
  pub second : lookup id votes' ≡ some true

granted_overlap :
    (m : MajorityConfig) (votes votes' : List (ℕ × Bool))
    → length m < granted votes m + granted votes' m
    → VotedTwice m votes votes'
granted_overlap [] votes votes' h = absurd (omega arith)
granted_overlap (id ∷ m) votes votes' h =
    go (is_yes_cases (lookup id votes)) (is_yes_cases (lookup id votes'))
      (granted_overlap m votes votes')
  where
    step : VotedTwice m votes votes' → VotedTwice (id ∷ m) votes votes'
    step w = record { id = w.id; member = Memᴰ.tail w.member; first = w.first; second = w.second }

    go :
        (lookup id votes ≡ some true) ⊎ (is_yes (lookup id votes) ≡ 0)
        → (lookup id votes' ≡ some true) ⊎ (is_yes (lookup id votes') ≡ 0)
        → (length m < granted votes m + granted votes' m → VotedTwice m votes votes')
        → VotedTwice (id ∷ m) votes votes'
    go (inl p) (inl q) rec = record { id = id; member = Memᴰ.head refl; first = p; second = q }
    go (inr p) q rec = step (rec (omega (arith, is_yes-le (lookup id votes'))))
    go p (inr q) rec = step (rec (omega (arith, is_yes-le (lookup id votes))))

-- Two elections that the same non-empty configuration decides as won have a common voter, who
-- granted both: the fact on which "one leader per term" rests.
pub vote_result_overlap :
    (m : MajorityConfig) (votes votes' : List (ℕ × Bool))
    → m ≢ []
    → vote_result m votes ≡ vote_won
    → vote_result m votes' ≡ vote_won
    → VotedTwice m votes votes'
vote_result_overlap m votes votes' h p q =
    granted_overlap m votes votes'
      (ground (arith, vote_result-eq-verdict m votes h, vote_result-eq-verdict m votes' h))

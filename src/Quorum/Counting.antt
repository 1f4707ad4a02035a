-- ===== src/Quorum/Counting.antt =====
-- `MajorityConfig.VoteResult` against plain counts of the voters.
use my_raft_kv.Prelude.{
  ℕ, ◌+◌, ◌*◌, ◌≡◌, refl, ◌≢◌, Bool, true, false, Option, none, some, List, [], ◌∷◌, if◌then◌else◌,
  lookup, length, arith, ltb,
}
use my_raft_kv.Quorum.{
  Tally, tally_one, tally, no_tally, vote_result, VoteResult, vote_won, vote_lost, vote_pending,
  MajorityConfig,
}

abbrev pub is_yes : Option Bool → ℕ
is_yes (some true) = 1
is_yes _ = 0

abbrev pub is_silent : Option Bool → ℕ
is_silent none = 1
is_silent _ = 0

abbrev pub is_no : Option Bool → ℕ
is_no (some false) = 1
is_no _ = 0

-- How many voters of the configuration have granted, and how many have not answered.
abbrev pub granted : List (ℕ × Bool) → MajorityConfig → ℕ
granted votes [] = 0
granted votes (id ∷ m) = is_yes (lookup id votes) + granted votes m

abbrev pub refused : List (ℕ × Bool) → MajorityConfig → ℕ
refused votes [] = 0
refused votes (id ∷ m) = is_no (lookup id votes) + refused votes m

abbrev pub silent : List (ℕ × Bool) → MajorityConfig → ℕ
silent votes [] = 0
silent votes (id ∷ m) = is_silent (lookup id votes) + silent votes m

-- The loop adds the counts to what it starts from.
pub tally_lem :
    (votes : List (ℕ × Bool)) (m : MajorityConfig) (t : Tally)
    → (tally votes m t).yeas ≡ t.yeas + granted votes m
unfolding tally
tally_lem votes [] t = omega arith
tally_lem votes (id ∷ m) t = ground (arith, tally_lem votes m (tally_one (lookup id votes) t))

pub tally_missing :
    (votes : List (ℕ × Bool)) (m : MajorityConfig) (t : Tally)
    → (tally votes m t).missing ≡ t.missing + silent votes m
unfolding tally
tally_missing votes [] t = omega arith
tally_missing votes (id ∷ m) t =
    ground (arith, tally_missing votes m (tally_one (lookup id votes) t))

pub granted-refused-silent :
    (votes : List (ℕ × Bool)) (m : MajorityConfig)
    → granted votes m + refused votes m + silent votes m ≡ length m
granted-refused-silent votes [] = omega arith
granted-refused-silent votes (id ∷ m) = ground (arith, granted-refused-silent votes m)

abbrev pub verdict : ℕ → ℕ → ℕ → VoteResult
verdict n yeas unknown =
    if ltb n (2 * yeas)
    then vote_won
    else if ltb n (2 * (yeas + unknown))
    then vote_pending
    else vote_lost

-- For a configuration with a voter, the vote is won exactly when more than half of the voters have
-- granted, otherwise it is pending exactly when the silent voters could still make up more than
-- half, and otherwise it is lost.
pub vote_result-eq-verdict :
    (m : MajorityConfig) (votes : List (ℕ × Bool))
    → m ≢ []
    → vote_result m votes ≡ verdict (length m) (granted votes m) (silent votes m)
unfolding vote_result
vote_result-eq-verdict [] votes h = absurd (h refl)
vote_result-eq-verdict (id ∷ m) votes h =
    ground (arith, tally_lem votes (id ∷ m) no_tally, tally_missing votes (id ∷ m) no_tally)

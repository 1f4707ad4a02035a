-- ===== src/Quorum/Tests.antt =====
-- Runs of raft/quorum, and its theorems at concrete configurations.
use my_raft_kv.Prelude.{
  ℕ, ◌+◌, ◌≡◌, refl, Bool, true, false, Option, none, some, List, [], ◌∷◌, ◌==◌, if◌then◌else◌,
  lookup, insert, max_uint64, arith,
}
use my_raft_kv.Quorum.{
  vote_won, vote_lost, vote_pending, vote_result, committed_index, JointConfig, joint_vote_result,
  ids,
}
use my_raft_kv.Quorum.Counting.{verdict, vote_result-eq-verdict}
use my_raft_kv.Quorum.Overlap.{VotedTwice, vote_result_overlap}
use my_raft_kv.Quorum.Decided.{vote_result-Extends, joint_vote_result-Extends}
use my_raft_kv.Quorum.Acked.{committed_index-visited}

abbrev three : List ℕ
three = 1 ∷ 2 ∷ 3 ∷ []

abbrev two_yes : List (ℕ × Bool)
two_yes = (1, true) ∷ (2, true) ∷ []

abbrev one_each : List (ℕ × Bool)
one_each = (1, true) ∷ (2, false) ∷ []

abbrev all_three : List (ℕ × Bool)
all_three = (1, true) ∷ (2, true) ∷ (3, false) ∷ []

vote_result_runs :
    (vote_result three two_yes ≡ vote_won)
    × (vote_result three one_each ≡ vote_pending)
    × (vote_result three ((1, false) ∷ (3, false) ∷ []) ≡ vote_lost)
    × (vote_result [] one_each ≡ vote_won)
unfolding vote_result lookup
vote_result_runs = (refl, refl, refl, refl)

-- `CommittedIndex` of one configuration, visited in two orders.
committed_index_runs :
    (committed_index three (λ id. some (id + 10)) ≡ 12)
    × (committed_index (2 ∷ 3 ∷ 1 ∷ []) (λ id. some (id + 10)) ≡ 13)
    × (committed_index [] (λ id. some id) ≡ max_uint64)
unfolding committed_index
committed_index_runs = (refl, refl, refl)

ids_run :
    ids (record { incoming = 1 ∷ 2 ∷ []; outgoing = 2 ∷ 3 ∷ [] }) ≡ (1, tt) ∷ (2, tt) ∷ (3, tt) ∷ []
unfolding ids insert
ids_run = refl

vote_result-eq-verdict_example : vote_result three one_each ≡ verdict 3 1 1
unfolding lookup
vote_result-eq-verdict_example = vote_result-eq-verdict three one_each (λ e. cc)

vote_result_overlap_example : VotedTwice three two_yes ((3, true) ∷ (2, true) ∷ [])
unfolding vote_result lookup
vote_result_overlap_example =
    vote_result_overlap three two_yes ((3, true) ∷ (2, true) ∷ []) (λ e. cc) refl refl

two_yes_extended : (id : ℕ) (b : Bool) → lookup id two_yes ≡ some b → lookup id all_three ≡ some b
unfolding lookup
two_yes_extended id b h = ground arith

vote_result-Extends_example : vote_result three all_three ≡ vote_result three two_yes
unfolding vote_result lookup
vote_result-Extends_example = vote_result-Extends three two_yes all_three two_yes_extended (λ e. cc)

abbrev joint : JointConfig
joint = record { incoming = three; outgoing = 1 ∷ 2 ∷ [] }

joint_vote_result-Extends_example :
    joint_vote_result joint all_three ≡ joint_vote_result joint two_yes
unfolding joint_vote_result vote_result lookup
joint_vote_result-Extends_example =
    joint_vote_result-Extends joint two_yes all_three two_yes_extended (λ e. cc)

committed_index-visited_example : committed_index three (λ id. some (id + 10)) ≡ 12
committed_index-visited_example = committed_index-visited (λ id. id + 10) three (λ e. cc)

abbrev acked_one : ℕ → Option ℕ
acked_one id = if id == 2 then some 7 else none

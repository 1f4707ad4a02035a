-- ===== src/Tracker/Visit.antt =====
-- `Visit` of raft/tracker/tracker.go: the ids of the followers in increasing order.
pub mod Order
mod Tests
use my_raft_kv.Prelude.{ℕ, List, [], ◌∷◌, ltb, if◌then◌else◌, keys}
use my_raft_kv.Tracker.{ProgressTracker}

-- The inner loop of `insertionSort`: the sorted prefix is kept with its last element first, and the
-- new element changes places with every larger one before it.
unfoldable pub sink : ℕ → List ℕ → List ℕ
sink x [] = x ∷ []
sink x (y ∷ prefix) = let rest = sink x prefix in if ltb x y then y ∷ rest else x ∷ y ∷ prefix

-- The outer loop, over the elements after the prefix.
unfoldable pub sort_onto : List ℕ → List ℕ → List ℕ
unfolding sink
sort_onto prefix [] = prefix
sort_onto prefix (x ∷ sl) = sort_onto (sink x prefix) sl

-- The prefix in the order of its indices.
unfoldable pub in_order : List ℕ → List ℕ → List ℕ
in_order [] after = after
in_order (x ∷ prefix) after = in_order prefix (x ∷ after)

unfoldable pub insertion_sort : List ℕ → List ℕ
unfolding sort_onto in_order
insertion_sort sl = in_order (sort_onto [] sl) []

-- The ids that `Visit` calls its function with, in their order.
unfoldable pub visit_ids : ProgressTracker → List ℕ
unfolding insertion_sort keys
visit_ids p = insertion_sort (in_order (keys p.progress) [])

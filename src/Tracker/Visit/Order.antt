-- ===== src/Tracker/Visit/Order.antt =====
-- `Visit` goes through all followers, in increasing order of their ids.
use my_raft_kv.Prelude.{
  ℕ, ◌+◌, ◌≤◌, ◌<◌, ◌≡◌, refl, true, false, List, [], ◌∷◌, ltb, ◌==◌, if◌then◌else◌, arith, keys,
}
use native.Mathlib.Decide.{dec_lt}
use my_raft_kv.Tracker.{ProgressTracker}
use my_raft_kv.Tracker.Visit.{sink, sort_onto, in_order, insertion_sort, visit_ids}

-- The head of the list, if any, is at most or at least a number.
abbrev HeadUpTo : ℕ → List ℕ → Type 0
HeadUpTo x [] = Unit
HeadUpTo x (y ∷ l) = y ≤ x

abbrev pub HeadFrom : ℕ → List ℕ → Type 0
HeadFrom x [] = Unit
HeadFrom x (y ∷ l) = x ≤ y

Falls : List ℕ → Type 0
Falls [] = Unit
Falls (x ∷ l) = HeadUpTo x l × Falls l

unfoldable pub Rises : List ℕ → Type 0
Rises [] = Unit
Rises (x ∷ l) = HeadFrom x l × Rises l

-- How often a number stands in a list.
unfoldable pub occurrences : ℕ → List ℕ → ℕ
occurrences z [] = 0
occurrences z (x ∷ l) = (if x == z then 1 else 0) + occurrences z l

ltb_below : {x y : ℕ} → x < y → ltb x y ≡ true
ltb_below h = ground (arith, h)

ltb_above : {x y : ℕ} → ¬ (x < y) → ltb x y ≡ false
ltb_above h = ground (arith, h)

sink_head : (x z : ℕ) (prefix : List ℕ) → x ≤ z → HeadUpTo z prefix → HeadUpTo z (sink x prefix)
unfolding sink
sink_head x z [] p q = p
sink_head x z (y ∷ prefix) p q = elim (dec_lt x y) [
  | yes h ↦ rw (ltb_below h) q
  | no h ↦ rw (ltb_above h) p
]

sink-Falls : (x : ℕ) (prefix : List ℕ) → Falls prefix → Falls (sink x prefix)
unfolding sink Falls
sink-Falls x [] p = (tt, tt)
sink-Falls x (y ∷ prefix) (p, q) = elim (dec_lt x y) [
  | yes h ↦ rw (ltb_below h) (sink_head x y prefix (omega (arith, h)) p, sink-Falls x prefix q)
  | no h ↦ rw (ltb_above h) (omega (arith, h), (p, q))
]

sort_onto-Falls : (prefix sl : List ℕ) → Falls prefix → Falls (sort_onto prefix sl)
unfolding sort_onto
sort_onto-Falls prefix [] p = p
sort_onto-Falls prefix (x ∷ sl) p = sort_onto-Falls (sink x prefix) sl (sink-Falls x prefix p)

-- Every head of the one list is at most the head of the other.
abbrev Before : List ℕ → List ℕ → Type 0
Before [] after = Unit
Before (x ∷ prefix) after = HeadFrom x after

Before-next : (x : ℕ) (prefix after : List ℕ) → HeadUpTo x prefix → Before prefix (x ∷ after)
Before-next x [] after p = tt
Before-next x (y ∷ prefix) after p = p

in_order-Rises :
    (prefix after : List ℕ)
    → Falls prefix
    → Rises after
    → Before prefix after
    → Rises (in_order prefix after)
unfolding in_order Falls Rises
in_order-Rises [] after p q r = q
in_order-Rises (x ∷ prefix) after (p, ps) q r =
    in_order-Rises prefix (x ∷ after) ps (r, q) (Before-next x prefix after p)

occurrences-sink :
    (z x : ℕ) (prefix : List ℕ) → occurrences z (sink x prefix) ≡ occurrences z (x ∷ prefix)
unfolding sink occurrences
occurrences-sink z x [] = refl
occurrences-sink z x (y ∷ prefix) = ground (arith, occurrences-sink z x prefix)

occurrences-sort_onto :
    (z : ℕ) (prefix sl : List ℕ)
    → occurrences z (sort_onto prefix sl) ≡ occurrences z prefix + occurrences z sl
unfolding sort_onto occurrences
occurrences-sort_onto z prefix [] = omega arith
occurrences-sort_onto z prefix (x ∷ sl) =
    omega (arith, occurrences-sort_onto z (sink x prefix) sl, occurrences-sink z x prefix)

occurrences-in_order :
    (z : ℕ) (prefix after : List ℕ)
    → occurrences z (in_order prefix after) ≡ occurrences z prefix + occurrences z after
unfolding in_order occurrences
occurrences-in_order z [] after = omega arith
occurrences-in_order z (x ∷ prefix) after = omega (arith, occurrences-in_order z prefix (x ∷ after))

Before-nothing : (prefix : List ℕ) → Before prefix []
Before-nothing [] = tt
Before-nothing (x ∷ prefix) = tt

-- The sort: the numbers of the list, each as often as there, in increasing order.
pub insertion_sort_lem :
    (sl : List ℕ)
    → Rises (insertion_sort sl) × ((z : ℕ) → occurrences z (insertion_sort sl) ≡ occurrences z sl)
unfolding insertion_sort Rises Falls occurrences
insertion_sort_lem sl = (
  in_order-Rises (sort_onto [] sl) [] (sort_onto-Falls [] sl tt) tt
      (Before-nothing (sort_onto [] sl)),
  λ z. omega (arith, occurrences-in_order z (sort_onto [] sl) [], occurrences-sort_onto z [] sl),
)

-- The ids that `Visit` goes through stand in increasing order, and they are the keys of the map, each
-- as often as there.
pub visit_ids_lem :
    (p : ProgressTracker)
    → Rises (visit_ids p)
      × ((z : ℕ) → occurrences z (visit_ids p) ≡ occurrences z (keys p.progress))
unfolding visit_ids occurrences
visit_ids_lem p =
    let (rises, same) = insertion_sort_lem (in_order (keys p.progress) []) in
    (rises, λ z. omega (arith, same z, occurrences-in_order z (keys p.progress) []))

-- ===== src/Service/Items/Near.antt =====
-- The items before and after an item of a numbered log.
use my_raft_kv.Prelude.{
  ℕ, zero, suc, ◌+◌, ◌≤◌, ◌<◌, Bool, true, false, if◌then◌else◌, none, some, List, [], ◌∷◌, ◌==◌,
  ◌≡◌, refl, ap, ◌∙◌, arith, length, get_or,
}
use my_raft_kv.Service.Items.{
  Item, empty_item, get_next_item, next_from, get_tail_item, pre_from, get_pre_item,
}
use my_raft_kv.Service.Items.Numbered.{Numbered}

is_same : {i k : ℕ} → i ≡ k → (i == k) ≡ true
is_same e = ground (arith, e)

is_other : {i k : ℕ} → ¬ (i ≡ k) → (i == k) ≡ false
is_other e = ground (arith, e)

pre_at :
    (first k : ℕ) (pre : Item) (items : List Item)
    → Numbered first items
    → k ≤ length items
    → pre_from (first + k) pre items ≡ get_or (pre ∷ items) k empty_item
unfolding Numbered pre_from
pre_at first zero pre [] n h = refl
pre_at first (suc k) pre [] n h = absurd (omega (arith, h))
pre_at first zero pre (item ∷ items) (e, n) h =
    rw (is_same {i = item.index} {k = first + 0} (omega (arith, e))) refl
pre_at first (suc k) pre (item ∷ items) (e, n) h =
    rw (is_other {i = item.index} {k = first + suc k} (omega (arith, e)))
      (ap (λ i. pre_from i item items) shift ∙ pre_at (first + 1) k item items n (omega (arith, h)))
  where
    shift : first + suc k ≡ first + 1 + k
    shift = omega arith

-- In a numbered log `GetPreItem` finds the item before the one with an index, the empty item for the
-- first one, and the last item for the index that follows the log's.
pub get_pre_item_lem :
    (items : List Item) (item : Item)
    → Numbered 0 items
    → item.index ≤ length items
    → get_pre_item items (some item) ≡ get_or (empty_item ∷ items) item.index empty_item
unfolding get_pre_item
get_pre_item_lem items item n h =
    ap (λ i. pre_from i empty_item items) (omega arith) ∙ pre_at 0 item.index empty_item items n h

next_flagged :
    (index : ℕ) (v : Item) (items : List Item)
    → next_from index true (some v) items ≡ some (get_tail_item (v ∷ items))
unfolding next_from get_tail_item
next_flagged index v [] = refl
next_flagged index v (w ∷ items) = by_test (w.index == index) (next_flagged index w items)
  where
    by_test :
        (b : Bool)
        → next_from index true (some w) items ≡ some (get_tail_item (w ∷ items))
        → next_from index
            (if b then true else true)
            (if (if b then true else true) then some w else some v)
            items
          ≡ some (get_tail_item (v ∷ w ∷ items))
    by_test true rest = rest
    by_test false rest = rest

next_at :
    (first k : ℕ) (items : List Item)
    → Numbered first items
    → k < length items
    → next_from (first + k) false none items ≡ some (get_tail_item items)
unfolding Numbered next_from get_tail_item
next_at first k [] n h = absurd (omega (arith, h))
next_at first zero (item ∷ items) (e, n) h =
    rw (is_same {i = item.index} {k = first + 0} (omega (arith, e)))
      (next_flagged (first + 0) item items)
next_at first (suc k) (item ∷ []) (e, n) h = absurd (omega (arith, h))
next_at first (suc k) (item ∷ next ∷ items) (e, n) h =
    rw (is_other {i = item.index} {k = first + suc k} (omega (arith, e))) (
      ap (λ i. next_from i false none (next ∷ items)) shift
      ∙ next_at (first + 1) k (next ∷ items) n (omega (arith, h))
      ∙ tail)
  where
    shift : first + suc k ≡ first + 1 + k
    shift = omega arith

    tail : some (get_tail_item (next ∷ items)) ≡ some (get_tail_item (item ∷ next ∷ items))
    tail = refl

-- In a numbered log `GetNextItem` finds the last item of the log, whichever item of the log it is asked
-- for the next of.
pub get_next_item_lem :
    (items : List Item) (item : Item)
    → Numbered 0 items
    → item.index < length items
    → get_next_item items item ≡ some (get_tail_item items)
unfolding get_next_item
get_next_item_lem items item n h =
    ap (λ i. next_from i false none items) (omega arith) ∙ next_at 0 item.index items n h

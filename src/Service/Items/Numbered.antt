-- ===== src/Service/Items/Numbered.antt =====
-- A log whose items are numbered in order, without a gap.
use my_raft_kv.Prelude.{
  ℕ, zero, suc, ◌+◌, true, false, List, [], ◌∷◌, ◌++◌, ◌==◌, ◌≡◌, refl, ap, ◌∙◌, arith, length,
  get_elem?,
}
use my_raft_kv.Service.Items.{Item, get_item_by_index, get_tail_item}

-- The items have the indices `first`, `first + 1` and so on.
unfoldable pub Numbered : ℕ → List Item → Type 0
Numbered first [] = Unit
Numbered first (item ∷ items) = (item.index ≡ first) × Numbered (first + 1) items

pub Numbered-append :
    (first : ℕ) (items : List Item) (item : Item)
    → Numbered first items
    → item.index ≡ first + length items
    → Numbered first (items ++ item ∷ [])
unfolding Numbered
Numbered-append first [] item n e = (omega (arith, e), tt)
Numbered-append first (i ∷ items) item (e', n) e =
    (e', Numbered-append (first + 1) items item n (omega (arith, e)))

pub Numbered-prefix :
    (first : ℕ) (items more : List Item) → Numbered first (items ++ more) → Numbered first items
unfolding Numbered
Numbered-prefix first [] more n = tt
Numbered-prefix first (i ∷ items) more (e, n) = (e, Numbered-prefix (first + 1) items more n)

pub tail-append : (items : List Item) (item : Item) → get_tail_item (items ++ item ∷ []) ≡ item
unfolding get_tail_item
tail-append [] item = refl
tail-append (i ∷ []) item = refl
tail-append (i ∷ j ∷ items) item = tail-append (j ∷ items) item

-- The last item of a log that has one.
pub index-tail :
    (first : ℕ) (item : Item) (items : List Item)
    → Numbered first (item ∷ items)
    → (get_tail_item (item ∷ items)).index ≡ first + length items
unfolding Numbered get_tail_item
index-tail first item [] (e, n) = omega (arith, e)
index-tail first item (next ∷ items) (e, n) = omega (arith, index-tail (first + 1) next items n)

item_at :
    (first k : ℕ) (items : List Item)
    → Numbered first items
    → get_item_by_index items (first + k) ≡ get_elem? items k
unfolding Numbered get_item_by_index
item_at first k [] n = refl
item_at first zero (item ∷ items) (e, n) = rw (here e) refl
  where
    here : item.index ≡ first → (item.index == first + 0) ≡ true
    here e = ground (arith, e)
item_at first (suc k) (item ∷ items) (e, n) =
    rw (other e) (ap (get_item_by_index items) shift ∙ item_at (first + 1) k items n)
  where
    other : item.index ≡ first → (item.index == first + suc k) ≡ false
    other e = ground (arith, e)

    shift : first + suc k ≡ first + 1 + k
    shift = omega arith

-- In a numbered log the item of an index is the one that stands there, and there is none beyond.
pub get_item_by_index_lem :
    (items : List Item) (k : ℕ) → Numbered 0 items → get_item_by_index items k ≡ get_elem? items k
get_item_by_index_lem items k n = ap (get_item_by_index items) (omega arith) ∙ item_at 0 k items n

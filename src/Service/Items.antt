-- ===== src/Service/Items.antt =====
-- node/node.go: the items of a node's log, and the ways to find one.
pub mod Numbered
pub mod Near
use my_raft_kv.Prelude.{
  ℕ, Bool, true, false, Option, none, some, List, [], ◌∷◌, ◌==◌, if◌then◌else◌,
}

pub record Item : Type 0 where
  pub index : ℕ
  pub term : ℕ
  pub log : List ℕ

abbrev pub empty_item : Item
empty_item = record { index = 0; term = 0; log = [] }

unfoldable pub get_item_by_index : List Item → ℕ → Option Item
get_item_by_index [] index = none
get_item_by_index (item ∷ items) index =
    if item.index == index then some item else get_item_by_index items index

-- The loop of `GetNextItem`: the flag stays set, and so `next` is each item after that.
unfoldable pub next_from : ℕ → Bool → Option Item → List Item → Option Item
next_from index flag next [] = next
next_from index flag next (v ∷ items) =
    let flag' = if v.index == index then true else flag in
    next_from index flag' (if flag' then some v else next) items

unfoldable pub get_next_item : List Item → Item → Option Item
unfolding next_from
get_next_item items item = next_from item.index false none items

unfoldable pub get_tail_item : List Item → Item
get_tail_item [] = empty_item
get_tail_item (item ∷ []) = item
get_tail_item (item ∷ next ∷ items) = get_tail_item (next ∷ items)

unfoldable pub pre_from : ℕ → Item → List Item → Item
pre_from index pre [] = pre
pre_from index pre (v ∷ items) = if v.index == index then pre else pre_from index v items

unfoldable pub get_pre_item : List Item → Option Item → Item
unfolding get_tail_item pre_from
get_pre_item items none = get_tail_item items
get_pre_item items (some item) = pre_from item.index empty_item items

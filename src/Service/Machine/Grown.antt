-- ===== src/Service/Machine/Grown.antt =====
-- A log that is numbered and only grows, with a commit index within it.
use my_raft_kv.Prelude.{
  ℕ, ◌+◌, ◌^◌, ◌≤◌, ◌<◌, Bool, true, false, List, [], ◌∷◌, ◌++◌, if◌then◌else◌, ◌≡◌, refl, sym, ap,
  subst, ◌∙◌, arith, length, length-append, ++-nil, ++-assoc,
}
use my_raft_kv.Service.Items.{Item, get_tail_item}
use my_raft_kv.Service.Items.Numbered.{Numbered, index-tail}
use my_raft_kv.Service.State.{Node}
use my_raft_kv.Service.Server.{may_commit, commit_next}

pub record WellFormed (n : Node) : Type 0 where
  pub numbered : Numbered 0 n.item_list
  pub committed : n.commit_index < length n.item_list

-- What a call may do to a node, if the log does not get longer than indices of 32 bits can tell.
pub record Grown (n n' : Node) : Type 0 where
  pub more : List Item
  pub grown : n'.item_list ≡ n.item_list ++ more
  pub commit_up : WellFormed n → length n'.item_list ≤ 2 ^ 32 → n.commit_index ≤ n'.commit_index
  pub still : WellFormed n → length n'.item_list ≤ 2 ^ 32 → WellFormed n'

pub tail_within :
    (items : List Item)
    → Numbered 0 items
    → 0 < length items
    → (get_tail_item items).index + 1 ≡ length items
tail_within [] n h = absurd (omega (arith, h))
tail_within (i ∷ items) n h = omega (arith, index-tail 0 i items n)

pub Grown-same :
    {n n' : Node} → n'.item_list ≡ n.item_list → n'.commit_index ≡ n.commit_index → Grown n n'
Grown-same {n} l c = record {
  more = [];
  grown = l ∙ ++-nil n.item_list;
  commit_up = λ w h. omega (arith, c);
  still = λ w h. record {
    numbered = subst (Numbered 0) (sym l) w.numbered;
    committed = omega (arith, c, w.committed, ap (λ (xs : List Item). length xs) l);
  };
}

-- A log that has grown is longer.
pub longer : {n n' : Node} → Grown n n' → length n.item_list ≤ length n'.item_list
longer {n} g =
    omega (arith, length-append n.item_list g.more, ap (λ (xs : List Item). length xs) g.grown)

pub Grown-trans : {n n' n'' : Node} → Grown n n' → Grown n' n'' → Grown n n''
Grown-trans {n} {n'} {n''} p q = record {
  more = p.more ++ q.more;
  grown = q.grown ∙ ap (λ l. l ++ q.more) p.grown ∙ ++-assoc n.item_list p.more q.more;
  commit_up = λ w h.
      let k : length n'.item_list ≤ 2 ^ 32 = omega (arith, h, longer q) in
      omega (arith, p.commit_up w k, q.commit_up (p.still w k) h);
  still = λ w h. q.still (p.still w (omega (arith, h, longer q))) h;
}

pub commit_next-Grown :
    (n : Node) (i : ℕ)
    → n.commit_index < i
    → (WellFormed n → i < length n.item_list)
    → Grown n (commit_next n)
commit_next-Grown n i below within = record {
  more = [];
  grown = ++-nil n.item_list;
  commit_up = λ w h. omega (arith, below, within w, h);
  still = λ w h. record { numbered = w.numbered; committed = omega (arith, below, within w, h) };
}

-- The commit of the next item, where the test allows it.
pub commit_if-Grown :
    (n : Node) (item : Item) (index : ℕ)
    → (WellFormed n → item.index < length n.item_list)
    → Grown n (if may_commit n item index then commit_next n else n)
commit_if-Grown n item index within = by_test (may_commit n item index) (λ h. ground (arith, h))
  where
    by_test :
        (b : Bool)
        → (b ≡ true → n.commit_index < item.index)
        → Grown n (if b then commit_next n else n)
    by_test true below = commit_next-Grown n item.index (below refl) within
    by_test false below = Grown-same refl refl

pub tail_in : (n : Node) → WellFormed n → (get_tail_item n.item_list).index < length n.item_list
tail_in n w = omega (arith, tail_within n.item_list w.numbered (omega (arith, w.committed)))

-- ===== src/Service/Checks.antt =====
-- node/node.go: when the checks of the two indices of a leader move them.
use my_raft_kv.Prelude.{
  ℕ, ◌+◌, ◌*◌, ◌<◌, Bool, true, false, List, ◌≡◌, refl, sym, subst, ◌∙◌, ◌⊎◌, inl, inr, arith,
  if◌then◌else◌, ltb, length, add64,
}
use my_raft_kv.Service.State.{
  Node, WorkNode, count_committed, count_accepted, check_commit_id, check_accept_id,
}

-- More than half of the nodes, counting the others alone, have committed more than an index, or have
-- accepted more than it.
unfoldable pub Passed : ℕ → List WorkNode → Type 0
Passed index others = length others + 1 < count_committed index others * 2

unfoldable pub Taken : ℕ → List WorkNode → Type 0
Taken index others = length others + 1 < count_accepted index others * 2

-- An index goes up by one, with the wrap-around of 64 bits, just if a condition holds.
abbrev pub RisesIf : Type 0 → ℕ → ℕ → Type 0
RisesIf P old new = (P × (new ≡ add64 old 1)) ⊎ ((¬ P) × (new ≡ old))

pub record Checked (n n' : Node) (accept commit : Type 0) : Type 0 where
  pub same_items : n'.item_list ≡ n.item_list
  pub same_term : n'.term ≡ n.term
  pub same_others : n'.other_node_list ≡ n.other_node_list
  pub accept_rises : RisesIf accept n.accept_index n'.accept_index
  pub commit_rises : RisesIf commit n.commit_index n'.commit_index

check_accept_id-Checked :
    (n : Node) → Checked n (check_accept_id n) (Taken n.accept_index n.other_node_list) (0 < 0)
unfolding check_accept_id Taken
check_accept_id-Checked n =
    by_test
      (ltb (length n.other_node_list + 1) (count_accepted n.accept_index n.other_node_list * 2))
      (λ h. ground (arith, h)) (λ h. ground (arith, h))
  where
    by_test :
        (b : Bool)
        → (b ≡ true → Taken n.accept_index n.other_node_list)
        → (b ≡ false → ¬ Taken n.accept_index n.other_node_list)
        → Checked n
            (if b then record n { accept_index = add64 n.accept_index 1 } else n)
            (Taken n.accept_index n.other_node_list)
            (0 < 0)
    by_test true h k = record {
      same_items = refl;
      same_term = refl;
      same_others = refl;
      accept_rises = inl (h refl, refl);
      commit_rises = inr (λ f. omega (arith, f), refl);
    }
    by_test false h k = record {
      same_items = refl;
      same_term = refl;
      same_others = refl;
      accept_rises = inr (k refl, refl);
      commit_rises = inr (λ f. omega (arith, f), refl);
    }

check_commit_id-Checked :
    (n : Node) → Checked n (check_commit_id n) (0 < 0) (Passed n.commit_index n.other_node_list)
unfolding check_commit_id Passed
check_commit_id-Checked n =
    by_test
      (ltb (length n.other_node_list + 1) (count_committed n.commit_index n.other_node_list * 2))
      (λ h. ground (arith, h)) (λ h. ground (arith, h))
  where
    by_test :
        (b : Bool)
        → (b ≡ true → Passed n.commit_index n.other_node_list)
        → (b ≡ false → ¬ Passed n.commit_index n.other_node_list)
        → Checked n
            (if b then record n { commit_index = add64 n.commit_index 1 } else n)
            (0 < 0)
            (Passed n.commit_index n.other_node_list)
    by_test true h k = record {
      same_items = refl;
      same_term = refl;
      same_others = refl;
      accept_rises = inr (λ f. omega (arith, f), refl);
      commit_rises = inl (h refl, refl);
    }
    by_test false h k = record {
      same_items = refl;
      same_term = refl;
      same_others = refl;
      accept_rises = inr (λ f. omega (arith, f), refl);
      commit_rises = inr (k refl, refl);
    }

-- An index whose rise has an impossible condition is the same.
stays : {old new : ℕ} → RisesIf (0 < 0) old new → new ≡ old
stays (inl (f, e)) = absurd (omega (arith, f))
stays (inr (f, e)) = e

-- The two tests, one after the other.
pub checks :
    (n : Node)
    → Checked n
        (check_commit_id (check_accept_id n))
        (Taken n.accept_index n.other_node_list)
        (Passed n.commit_index n.other_node_list)
checks n =
    let a = check_accept_id-Checked n in
    let c = check_commit_id-Checked (check_accept_id n) in
    record {
      same_items = c.same_items ∙ a.same_items;
      same_term = c.same_term ∙ a.same_term;
      same_others = c.same_others ∙ a.same_others;
      accept_rises =
          subst (RisesIf (Taken n.accept_index n.other_node_list) n.accept_index)
            (sym (stays c.accept_rises)) a.accept_rises;
      commit_rises =
          let C : ℕ = (check_commit_id (check_accept_id n)).commit_index in
          let i : ℕ = (check_accept_id n).commit_index in
          subst (λ i. RisesIf (Passed i n.other_node_list) i C) (stays a.commit_rises)
            (subst (λ l. RisesIf (Passed i l) i C) a.same_others c.commit_rises);
    }

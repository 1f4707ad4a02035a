-- ===== src/Quorum/Acked.antt =====
-- `CommittedIndex`: which acknowledgement it returns.
use my_raft_kv.Prelude.{
  ℕ, zero, suc, ◌+◌, ◌-◌, ◌/◌, ◌≤◌, ◌<◌, ◌≡◌, refl, sym, ◌∙◌, ap, ◌≢◌, ◌⊎◌, inl, inr, Option, some,
  List, [], ◌∷◌, length, set, get_or, replicate, length-set, length-replicate, get_or-set_self,
  get_or-set_ne, arith, Option-cases,
}
use mathlib.Core.List.{Memᴰ}
use native.Mathlib.Decide.{ℕ_discrete}
use my_raft_kv.Quorum.{MajorityConfig, fill_acked, committed_index}

-- Slots at or past `left` are not written any more.
fill_acked_above :
    (acked : ℕ → Option ℕ) (m : MajorityConfig) (left : ℕ) (srt : List ℕ) (i : ℕ)
    → left ≤ i
    → length m ≤ left
    → get_or (fill_acked acked m left srt) i 0 ≡ get_or srt i 0
unfolding fill_acked
fill_acked_above acked [] left srt i h k = refl
fill_acked_above acked (id ∷ m) left srt i h k = elim (Option-cases (acked id)) [
  | inl e ↦ rw (e, fill_acked) (fill_acked_above acked m left srt i h (omega arith))
  | inr (idx, e) ↦
      rw (e, fill_acked)
        (fill_acked_above acked m (left - 1) (set srt (left - 1) idx) i (omega arith) (omega arith)
          ∙ get_or-set_ne srt (left - 1) i idx 0 (omega arith))
]

-- Where every voter has an index, the slots hold them in the order of the visit, from the end.
fill_acked_all :
    (f : ℕ → ℕ) (m : MajorityConfig) (left : ℕ) (srt : List ℕ) (i : ℕ)
    → length m ≤ left
    → left ≤ length srt
    → i < left
    → left ≤ i + length m
    → get_or (fill_acked (λ id. some (f id)) m left srt) i 0 ≡ f (get_or m (left - 1 - i) 0)
unfolding fill_acked
fill_acked_all f [] left srt i h k p q = absurd (omega arith)
fill_acked_all f (id ∷ m) left srt i h k p q = elim (ℕ_discrete i (left - 1)) [
  | yes e ↦
      fill_acked_above (λ id. some (f id)) m (left - 1) (set srt (left - 1) (f id)) i (omega arith)
        (omega arith)
      ∙ here e
  | no e ↦
      fill_acked_all f m (left - 1) (set srt (left - 1) (f id)) i (omega arith)
        (omega (arith, length-set srt (left - 1) (f id))) (omega arith) (omega arith)
      ∙ ap (λ k. f (get_or (id ∷ m) k 0)) {x = suc (left - 1 - 1 - i)} (omega arith)
]
  where
    here :
        i ≡ left - 1 → get_or (set srt (left - 1) (f id)) i 0 ≡ f (get_or (id ∷ m) (left - 1 - i) 0)
    here e =
        ap (λ k. get_or (set srt (left - 1) (f id)) k 0) e
        ∙ get_or-set_self srt (left - 1) (f id) 0 (omega arith)
        ∙ ap (λ k. f (get_or (id ∷ m) k 0)) {x = 0} (omega arith)

-- When every voter of a non-empty configuration has acknowledged an index, `CommittedIndex` returns
-- the one of the voter that the loop over the map visits in the middle, `length m / 2` places from
-- its first: the indices are not sorted, so the order of the visit decides.
pub committed_index-visited :
    (f : ℕ → ℕ) (m : MajorityConfig)
    → m ≢ []
    → committed_index m (λ id. some (f id)) ≡ f (get_or m (length m / 2) 0)
unfolding committed_index
committed_index-visited f [] h = absurd (h refl)
committed_index-visited f (id ∷ m) h =
    fill_acked_all f (id ∷ m) n (replicate n 0) (n - (n / 2 + 1)) (omega arith)
      (omega (arith, length-replicate {0} {A = ℕ} n 0)) (omega arith) (omega arith)
    ∙ ap (λ k. f (get_or (id ∷ m) k 0)) (omega arith)
  where
    n : ℕ
    n = suc (length m)

get_or-set_cases :
    (srt : List ℕ) (i j v : ℕ)
    → (get_or (set srt i v) j 0 ≡ get_or srt j 0) ⊎ (get_or (set srt i v) j 0 ≡ v)
get_or-set_cases [] i j v = inl refl
get_or-set_cases (x ∷ srt) zero zero v = inr refl
get_or-set_cases (x ∷ srt) zero (suc j) v = inl refl
get_or-set_cases (x ∷ srt) (suc i) zero v = inl refl
get_or-set_cases (x ∷ srt) (suc i) (suc j) v = get_or-set_cases srt i j v

get_or-replicate : (n i : ℕ) → get_or {A = ℕ} (replicate n 0) i 0 ≡ 0
get_or-replicate zero i = refl
get_or-replicate (suc n) zero = refl
get_or-replicate (suc n) (suc i) = get_or-replicate n i

-- What a slot can hold: what it held, or the index of a voter.
fill_acked_source :
    (acked : ℕ → Option ℕ) (m : MajorityConfig) (left : ℕ) (srt : List ℕ) (i : ℕ)
    → (get_or (fill_acked acked m left srt) i 0 ≡ get_or srt i 0)
      ⊎ ((id : ℕ) × Memᴰ id m × (acked id ≡ some (get_or (fill_acked acked m left srt) i 0)))
unfolding fill_acked
fill_acked_source acked [] left srt i = inl refl
fill_acked_source acked (id ∷ m) left srt i = elim (Option-cases (acked id)) [
  | inl e ↦
      rw (e, fill_acked)
        (elim (fill_acked_source acked m left srt i) [
          | inl p ↦ inl p
          | inr (k, p, q) ↦ inr (k, Memᴰ.tail p, q)
        ])
  | inr (idx, e) ↦
      rw (e, fill_acked)
        (elim (fill_acked_source acked m (left - 1) (set srt (left - 1) idx) i) [
          | inr (k, p, q) ↦ inr (k, Memᴰ.tail p, q)
          | inl p ↦ elim (get_or-set_cases srt (left - 1) i idx) [
            | inl q ↦ inl (p ∙ q)
            | inr q ↦ inr (id, Memᴰ.head refl, e ∙ ap some (sym (p ∙ q)))
          ]
        ])
]

-- What `CommittedIndex` returns for a non-empty configuration is 0 or the index that one of its
-- voters has acknowledged.
pub committed_index_source :
    (acked : ℕ → Option ℕ) (m : MajorityConfig)
    → m ≢ []
    → (committed_index m acked ≡ 0)
      ⊎ ((id : ℕ) × Memᴰ id m × (acked id ≡ some (committed_index m acked)))
unfolding committed_index
committed_index_source acked [] h = absurd (h refl)
committed_index_source acked (id ∷ m) h =
    elim (fill_acked_source acked (id ∷ m) n (replicate n 0) (n - (n / 2 + 1))) [
      | inl p ↦ inl (p ∙ get_or-replicate n (n - (n / 2 + 1)))
      | inr w ↦ inr w
    ]
  where
    n : ℕ
    n = suc (length m)

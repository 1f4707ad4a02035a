-- ===== src/Tracker/Inflights/Tests.antt =====
-- Runs of the inflights, and the theorems at a ring that goes round.
use my_raft_kv.Prelude.{ℕ, ◌≡◌, ◌<◌, refl, inl, inr, [], ◌∷◌, arith, ok, panic, ◌>>=◌}
use my_raft_kv.Tracker.Inflights.{Inflights, new_inflights, add, free_le, free_first_one, grow}
use my_raft_kv.Tracker.Inflights.Window.{contents, IsValid}
use my_raft_kv.Tracker.Inflights.Refine.{
  Returns, add_refines, free_le_refines, new_inflights-IsValid,
}

abbrev turned : Inflights
turned = record { start = 2; count = 2; size = 3; buffer = 7 ∷ 4 ∷ 5 ∷ [] }

turned-IsValid : IsValid turned
turned-IsValid = record {
  count_in = omega arith;
  buffer_in = omega arith;
  start_in = inl (omega arith);
  held = inr refl;
}

-- Add to a new ring of size 2, free the first entry, add again, and overfill.
runs :
    ((add (new_inflights 2) 5 >>= λ s. add s 6)
      ≡ ok (record { start = 0; count = 2; size = 2; buffer = 5 ∷ 6 ∷ [] }))
    × ((add (new_inflights 2) 5 >>= λ s. add s 6 >>= λ t. add t 7) ≡ panic)
    × (free_le turned 5 ≡ ok (record turned { start = 0; count = 1 }))
    × (free_le turned 9 ≡ ok (record turned { start = 0; count = 0 }))
    × (free_first_one turned ≡ ok (record turned { start = 0; count = 1 }))
    × (free_first_one (new_inflights 2) ≡ panic)
unfolding add free_le free_first_one new_inflights grow
runs = (refl, refl, refl, refl, refl, refl)

add_refines_example :
    (2 < 3 → Returns (add turned 9) (λ t. IsValid t × (contents t ≡ 5 ∷ 7 ∷ 9 ∷ []) × (t.size ≡ 3)))
    × (◌≡◌ {A = ℕ} 2 3 → add turned 9 ≡ panic)
add_refines_example = add_refines turned 9 turned-IsValid

free_le_refines_example : Returns (free_le turned 5) (λ t. IsValid t × (contents t ≡ 7 ∷ []))
free_le_refines_example = free_le_refines turned 5 turned-IsValid

new_inflights-IsValid_example : IsValid (new_inflights 4) × (contents (new_inflights 4) ≡ [])
new_inflights-IsValid_example = new_inflights-IsValid 4

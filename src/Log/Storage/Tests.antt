-- ===== src/Log/Storage/Tests.antt =====
-- Runs of the memory storage, and its theorems at a storage that has been compacted at index 5.
use my_raft_kv.Prelude.{
  ◌+◌, ◌≡◌, refl, some, none, [], ◌∷◌, arith, ok, err, panic, err_compacted, err_unavailable,
  length,
}
use my_raft_kv.Log.Entries.{Snapshot}
use my_raft_kv.Log.Storage.{
  new_memory_storage, term, last_index, first_index, append, compact, apply_snapshot, initial_state,
  entries,
}
use my_raft_kv.Log.Storage.Contiguous.{IsValid}
use my_raft_kv.Log.Samples.{at, stored, stored-IsValid}
use my_raft_kv.Log.Storage.Terms.{Returns, compact_lem}
use my_raft_kv.Log.Storage.Append.{Overwritten, append_lem}
use my_raft_kv.Log.Storage.Snapshots.{perform_all, new_memory_storage-panics}

abbrev snapshot_9 : Snapshot
snapshot_9 = record {
  payload = 1 ∷ [];
  metadata = some (record { index = 9; term = 4; conf_state = none });
}

storage_runs :
    (last_index stored ≡ ok 8)
    × (first_index stored ≡ ok 6)
    × (term stored 7 ≡ ok 3)
    × (term stored 4 ≡ err err_compacted)
    × (term stored 9 ≡ err err_unavailable)
    × (entries stored 6 8 100 ≡ ok (at 6 2 ∷ at 7 3 ∷ []))
    × (entries stored 4 8 100 ≡ err err_compacted)
    × (initial_state new_memory_storage ≡ panic)
unfolding last_index first_index term entries initial_state new_memory_storage
storage_runs = (refl, refl, refl, refl, refl, refl, refl, refl)

-- Entries 7 and 8 are replaced by a new entry 7.
append_run :
    append stored (at 7 4 ∷ []) ≡ ok (record stored { ents = at 5 2 ∷ at 6 2 ∷ at 7 4 ∷ [] })
unfolding append
append_run = refl

append_lem_example :
    Returns (append stored (at 7 4 ∷ [])) (Overwritten stored stored-IsValid 7 (at 7 4 ∷ []))
append_lem_example =
    (append_lem stored (at 7 4) [] stored-IsValid tt (omega arith)).1 (omega arith) (omega arith)

compact_lem_example : Returns (compact stored 7) λ s.
    (w : IsValid s) × (w.dummy.index ≡ 7)
    × (ok w.dummy.term ≡ term stored 7)
    × (w.log ≡ at 8 3 ∷ [])
    × (w.dummy.index + length w.log ≡ 8)
compact_lem_example =
    (compact_lem stored 7 stored-IsValid (omega arith)).2 (omega arith) (omega arith)

new_memory_storage-panics_example : apply_snapshot new_memory_storage snapshot_9 ≡ panic
unfolding perform_all
new_memory_storage-panics_example =
    (new_memory_storage-panics [] new_memory_storage refl).1 snapshot_9

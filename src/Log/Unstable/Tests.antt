-- ===== src/Log/Unstable/Tests.antt =====
-- Runs of the unstable part of a log, and its theorems at two entries behind a snapshot.
use my_raft_kv.Prelude.{ℕ, ◌^◌, ◌≡◌, ◌<◌, refl, some, none, inr, [], ◌∷◌, arith, ok}
use my_raft_kv.Log.Entries.{Entry, entry_normal, Snapshot}
use my_raft_kv.Log.Unstable.{
  Unstable, maybe_first_index, maybe_last_index, maybe_term, stable_to, restore, slice,
}
use my_raft_kv.Log.Unstable.Terms.{IsValid, stable_to_lem}

abbrev at : ℕ → ℕ → Entry
at index term = record { term = term; index = index; type = entry_normal; payload = [] }

abbrev snapshot_4 : Snapshot
snapshot_4 = record {
  payload = [];
  metadata = some (record { index = 4; term = 1; conf_state = none });
}

abbrev pending : Unstable
pending = record { snap = some snapshot_4; entries = at 5 2 ∷ at 6 3 ∷ []; offset = 5 }

pending-IsValid : IsValid pending
pending-IsValid = record {
  small = omega arith;
  before = inr (snapshot_4, _, refl, refl, omega arith);
}

unstable_runs :
    (maybe_first_index pending ≡ ok (some 5))
    × (maybe_last_index pending ≡ ok (some 6))
    × (maybe_term pending 4 ≡ ok (some 1))
    × (maybe_term pending 6 ≡ ok (some 3))
    × (maybe_term pending 7 ≡ ok none)
    × (slice pending 5 6 ≡ ok (at 5 2 ∷ []))
    × (stable_to pending 6 3 ≡ ok (record pending { entries = []; offset = 7 }))
    × (restore pending snapshot_4 ≡ ok (record pending { entries = [] }))
unfolding maybe_first_index maybe_last_index maybe_term slice stable_to restore
unstable_runs = (refl, refl, refl, refl, refl, refl, refl, refl)

stable_to_lem_example :
    (u' : Unstable) × (stable_to pending 5 2 ≡ ok u')
    × IsValid u'
    × (u'.offset ≡ 6)
    × (u'.entries ≡ at 6 3 ∷ [])
    × ((j : ℕ) → 5 < j → j < 2 ^ 64 → maybe_term u' j ≡ maybe_term pending j)
stable_to_lem_example = (stable_to_lem pending-IsValid 5 2 (omega arith)).0 (omega arith, refl)

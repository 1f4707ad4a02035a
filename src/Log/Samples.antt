-- ===== src/Log/Samples.antt =====
-- A storage that has been compacted at index 5 and the log over it, for the tests.
use my_raft_kv.Prelude.{ℕ, ◌≤◌, ◌≡◌, ◌≢◌, refl, some, none, [], ◌∷◌, arith, ok, max_uint64}
use my_raft_kv.Log.RaftLog.{RaftLog, first_index, last_index, term}
use native.Mathlib.Decide.{ℕ_discrete}
use my_raft_kv.Log.RaftLog.Valid as Valid
use my_raft_kv.Log.Unstable.{maybe_first_index, maybe_last_index, maybe_term}
use my_raft_kv.Log.Entries.{Entry, entry_normal, SnapshotMetadata}
use my_raft_kv.Log.Storage.{MemoryStorage, as_storage}
use my_raft_kv.Log.Storage.Contiguous.{IsValid}

abbrev pub at : ℕ → ℕ → Entry
at index term = record { term = term; index = index; type = entry_normal; payload = [] }

abbrev pub metadata_5 : SnapshotMetadata
metadata_5 = record { index = 5; term = 2; conf_state = none }

abbrev pub stored : MemoryStorage
stored = record {
  hard_state = record { term = 3; vote = 1; commit = 6 };
  snap = record { payload = []; metadata = some metadata_5 };
  ents = at 5 2 ∷ at 6 2 ∷ at 7 3 ∷ at 8 3 ∷ [];
}

abbrev pub stored-IsValid : IsValid stored
stored-IsValid = record {
  dummy = at 5 2;
  log = at 6 2 ∷ at 7 3 ∷ at 8 3 ∷ [];
  shape = refl;
  runs = (refl, (refl, (refl, tt)));
  small = omega arith;
}

-- What `newLog` makes of the storage: entries 6 to 8, of terms 2, 3 and 3, behind index 5.
abbrev pub log : RaftLog
log = record {
  storage = as_storage stored;
  unstable = record { snap = none; entries = []; offset = 9 };
  committed = 5;
  applied = 5;
  max_next_ents_size = max_uint64;
}

pub log_first : first_index log ≡ ok 6
unfolding as_storage first_index maybe_first_index
log_first = refl

pub log_last : last_index log ≡ ok 8
unfolding as_storage last_index maybe_last_index
log_last = refl

last_one : (i : ℕ) → i ≢ 5 → i ≢ 6 → i ≢ 7 → 5 ≤ i → i ≤ 8 → i ≡ 8
last_one i a b c p q = omega arith

pub log_readable : (i : ℕ) → 5 ≤ i → i ≤ 8 → (t : ℕ) × (term log i ≡ ok t)
unfolding as_storage first_index last_index term maybe_first_index maybe_last_index maybe_term
log_readable i p q = elim (ℕ_discrete i 5) [
  | yes a ↦ (2, rw a)
  | no a ↦ elim (ℕ_discrete i 6) [
    | yes b ↦ (2, rw b)
    | no b ↦ elim (ℕ_discrete i 7) [ yes c ↦ (3, rw c) | no c ↦ (3, rw (last_one i a b c p q)) ]
  ]
]

abbrev pub log-IsValid : Valid.IsValid log
log-IsValid = record {
  first = 6;
  last = 8;
  first_is = log_first;
  last_is = log_last;
  positive = omega arith;
  order = omega arith;
  small = omega arith;
  readable = λ i p q. log_readable i (omega (arith, p)) q;
  committed_in = omega arith;
  applied_in = omega arith;
}

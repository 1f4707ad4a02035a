-- ===== src/Log/Storage/Snapshots.antt =====
-- `ApplySnapshot` and `CreateSnapshot`, and a storage whose snapshot has no metadata.
use my_raft_kv.Prelude.{
  ℕ, ◌+◌, ◌-◌, ◌^◌, ◌≤◌, ◌<◌, ◌≡◌, refl, Option, none, some, List, [], ◌∷◌, length, get_elem?,
  arith, Result, ok, err, panic, err_snap_out_of_date, ◌>>=◌, sub64, both_return,
}
use my_raft_kv.Log.Entries.{Entry, Snapshot, SnapshotMetadata, ConfState, HardState}
use my_raft_kv.Log.Storage.{
  MemoryStorage, zero_entry, new_memory_storage, initial_state, set_hard_state, apply_snapshot,
  create_snapshot, compact, append, term, keep_conf_state,
}
use my_raft_kv.Log.Storage.Contiguous.{IsValid, term_held}
use my_raft_kv.Log.Storage.Terms.{Returns}

-- `ApplySnapshot` on a storage whose snapshot has metadata: a snapshot at or below the index of the
-- one in place is out of date. A later one replaces the whole log by a dummy entry of the snapshot's
-- index and term, and leaves a valid storage.
pub apply_snapshot_lem :
    (ms : MemoryStorage) (s : Snapshot) (old md : SnapshotMetadata)
    → ms.snap.metadata ≡ some old
    → s.metadata ≡ some md
    → md.index + 1 < 2 ^ 63
    → (md.index ≤ old.index → apply_snapshot ms s ≡ err err_snap_out_of_date)
      × (old.index < md.index
          → Returns (apply_snapshot ms s) λ t.
            (w : IsValid t) × (t.snap ≡ s)
            × (w.log ≡ [])
            × (w.dummy.index ≡ md.index)
            × (w.dummy.term ≡ md.term))
unfolding apply_snapshot
apply_snapshot_lem ms s old md p q h = (
  λ b. rw (p, q, apply_snapshot) (ground arith),
  λ b. (t, rw (p, q, apply_snapshot) (ground arith), (w, refl, refl, refl, refl)),
)
  where
    t : MemoryStorage
    t = record ms { snap = s; ents = record zero_entry { term = md.term; index = md.index } ∷ [] }

    w : IsValid t
    w = record {
      dummy = record zero_entry { term = md.term; index = md.index };
      log = [];
      shape = refl;
      runs = tt;
      small = h;
    }

-- `CreateSnapshot` on a valid storage whose snapshot has metadata: an index below that snapshot's is
-- out of date, one past the log is a panic, and one that the log holds gives a snapshot of that index
-- with the term of its entry, with the entries and the hard state unchanged.
pub create_snapshot_lem :
    (ms : MemoryStorage) (i : ℕ) (cs : Option ConfState) (payload : List ℕ) (old : SnapshotMetadata)
    (v : IsValid ms)
    → ms.snap.metadata ≡ some old
    → (i < old.index → create_snapshot ms i cs payload ≡ err err_snap_out_of_date)
      × (old.index ≤ i → v.dummy.index + length v.log < i → create_snapshot ms i cs payload ≡ panic)
      × (old.index ≤ i
          → v.dummy.index ≤ i
          → i ≤ v.dummy.index + length v.log
          → (t : ℕ) × (term ms i ≡ ok t)
            × (let s : Snapshot = record {
              payload = payload;
              metadata =
                  some (record {
                    index = i;
                    term = t;
                    conf_state = keep_conf_state cs old.conf_state;
                  });
            } in
                create_snapshot ms i cs payload ≡ ok (record ms { snap = s }, s)))
unfolding create_snapshot
create_snapshot_lem ms i cs payload old v p = (
  λ a. rw (p, create_snapshot) (ground arith),
  λ a b. rw (p, v.shape, create_snapshot) (ground arith),
  λ a b c. let (e, g, t) = term_held v i b c in (e.term, t, made a b c e g),
)
  where
    made :
        old.index ≤ i
        → v.dummy.index ≤ i
        → i ≤ v.dummy.index + length v.log
        → (e : Entry) → get_elem? (v.dummy ∷ v.log) (i - v.dummy.index) ≡ some e
        → let s : Snapshot = record {
          payload = payload;
          metadata =
              some (record {
                index = i;
                term = e.term;
                conf_state = keep_conf_state cs old.conf_state;
              });
        } in
          create_snapshot ms i cs payload ≡ ok (record ms { snap = s }, s)
    made a b c e g = rw (p, v.shape, near, g, create_snapshot) (ground arith)
      where
        near : sub64 i v.dummy.index ≡ i - v.dummy.index
        near = omega (arith, v.small, a, b, c)

-- The calls that change a storage.
pub data Op : Type 0 where
  appends : List Entry → Op
  compacts : ℕ → Op
  saves : HardState → Op
  applies : Snapshot → Op
  creates : ℕ → Option ConfState → List ℕ → Op

unfoldable pub perform : MemoryStorage → Op → Result MemoryStorage
perform ms (appends es) = append ms es
perform ms (compacts i) = compact ms i
perform ms (saves st) = ok (set_hard_state ms st)
perform ms (applies s) = apply_snapshot ms s
perform ms (creates i cs payload) = create_snapshot ms i cs payload >>= λ r. ok r.0

unfoldable pub perform_all : MemoryStorage → List Op → Result MemoryStorage
perform_all ms [] = ok ms
perform_all ms (o ∷ os) = perform ms o >>= λ ms'. perform_all ms' os

append-snap :
    (ms ms' : MemoryStorage) (es : List Entry) → append ms es ≡ ok ms' → ms'.snap ≡ ms.snap
unfolding append
append-snap ms ms' [] h = ground arith
append-snap ms ms' (e ∷ es) h = ground arith

compact-snap : (ms ms' : MemoryStorage) (i : ℕ) → compact ms i ≡ ok ms' → ms'.snap ≡ ms.snap
unfolding compact
compact-snap ms ms' i h = ground arith

perform-metadata :
    (o : Op) (ms ms' : MemoryStorage)
    → ms.snap.metadata ≡ none
    → perform ms o ≡ ok ms'
    → ms'.snap.metadata ≡ none
unfolding perform apply_snapshot create_snapshot set_hard_state
perform-metadata (appends es) ms ms' e h = ground (arith, append-snap ms ms' es)
perform-metadata (compacts i) ms ms' e h = ground (arith, compact-snap ms ms' i)
perform-metadata (saves st) ms ms' e h = ground arith
perform-metadata (applies s) ms ms' e h = ground arith
perform-metadata (creates i cs payload) ms ms' e h = ground arith

snap-stays_empty :
    (os : List Op) (ms ms' : MemoryStorage)
    → ms.snap.metadata ≡ none
    → perform_all ms os ≡ ok ms'
    → ms'.snap.metadata ≡ none
unfolding perform_all
snap-stays_empty [] ms ms' e h = ground arith
snap-stays_empty (o ∷ os) ms ms' e h =
    let (next, p, q) = both_return (perform ms o) (λ t. perform_all t os) h in
    snap-stays_empty os next ms' (perform-metadata o ms next e p) q

-- A storage made by `newMemoryStorage` has a nil metadata pointer, which no call replaces: after any
-- calls that succeed, `InitialState`, `ApplySnapshot` and `CreateSnapshot` panic, whatever they are
-- given.
pub new_memory_storage-panics :
    (os : List Op) (ms : MemoryStorage)
    → perform_all new_memory_storage os ≡ ok ms
    → (initial_state ms ≡ panic)
      × ((s : Snapshot) → apply_snapshot ms s ≡ panic)
      × ((i : ℕ) (cs : Option ConfState) (payload : List ℕ)
          → create_snapshot ms i cs payload ≡ panic)
unfolding initial_state apply_snapshot create_snapshot new_memory_storage
new_memory_storage-panics os ms h = (
  rw (gone, initial_state),
  λ s. rw (gone, apply_snapshot),
  λ i cs payload. rw (gone, create_snapshot),
)
  where
    gone : ms.snap.metadata ≡ none
    gone = snap-stays_empty os new_memory_storage ms refl h

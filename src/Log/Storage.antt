-- ===== src/Log/Storage.antt =====
-- raft/storage.go: the interface `Storage`, and `MemoryStorage`, whose `ents` hold a dummy entry at
-- the index of the snapshot and the log after it. The lock serialises the calls; each is one step.
pub mod Contiguous
pub mod Splice
pub mod Terms
pub mod Append
pub mod Snapshots
mod Tests
use my_raft_kv.Prelude.{
  ℕ, suc, ◌+◌, ◌-◌, ◌^◌, ◌&&◌, Bool, true, false, Option, none, some, List, [], ◌∷◌, ◌++◌, map, leb,
  ltb, ◌==◌, if◌then◌else◌, length, take, drop, get_elem?, add64, sub64, Result, ok, err, panic,
  ◌>>=◌, deref, err_compacted, err_unavailable, err_snap_out_of_date,
}
use my_raft_kv.Log.Entries.{
  Entry, entry_normal, Snapshot, SnapshotMetadata, ConfState, HardState, limit_size,
}

-- What `raftLog` asks of a storage, as it stands.
pub record Storage : Type 0 where
  pub entries : ℕ → ℕ → ℕ → Result (List Entry)
  pub term : ℕ → Result ℕ
  pub last_index : Result ℕ
  pub first_index : Result ℕ
  pub snapshot : Result Snapshot

pub record MemoryStorage : Type 0 where
  pub hard_state : HardState
  pub snap : Snapshot
  pub ents : List Entry

abbrev pub zero_entry : Entry
zero_entry = record { term = 0; index = 0; type = entry_normal; payload = [] }

-- `&MemoryStorage{ents: make([]raftPB.Entry, 1)}`: the metadata of the snapshot is nil.
unfoldable pub new_memory_storage : MemoryStorage
new_memory_storage = record {
  hard_state = record { term = 0; vote = 0; commit = 0 };
  snap = record { payload = []; metadata = none };
  ents = zero_entry ∷ [];
}

unfoldable pub initial_state : MemoryStorage → Result (HardState × ConfState)
initial_state ms =
    deref ms.snap.metadata >>= λ md. deref md.conf_state >>= λ cs. ok (ms.hard_state, cs)

unfoldable pub set_hard_state : MemoryStorage → HardState → MemoryStorage
set_hard_state ms st = record ms { hard_state = st }

-- `ms.ents[0].Index`
abbrev pub offset : MemoryStorage → Result ℕ
offset ms = deref (get_elem? ms.ents 0) >>= λ e. ok e.index

unfoldable pub last_index : MemoryStorage → Result ℕ
last_index ms = offset ms >>= λ off. ok (sub64 (add64 off (length ms.ents)) 1)

unfoldable pub first_index : MemoryStorage → Result ℕ
first_index ms = offset ms >>= λ off. ok (add64 off 1)

-- `ents[i:j]` with `j` up to the length.
abbrev pub slice_of {ℓ} : {A : Type ℓ} → List A → ℕ → ℕ → Result (List A)
slice_of xs i j =
    if ltb j i then panic else if ltb (length xs) j then panic else ok (take (j - i) (drop i xs))

unfoldable pub entries : MemoryStorage → ℕ → ℕ → ℕ → Result (List Entry)
unfolding last_index limit_size
entries ms lo hi max_size = offset ms >>= λ off.
    if ltb lo off
    then err err_compacted
    else (last_index ms >>= λ last.
        if ltb (add64 last 1) hi
        then panic
        else if length ms.ents == 1
        then err err_unavailable
        else (slice_of ms.ents (sub64 lo off) (sub64 hi off) >>= λ ents.
            ok (limit_size ents max_size)))

-- The test is on `int(i - offset)`, which is negative from 2 ^ 63 on.
unfoldable pub term : MemoryStorage → ℕ → Result ℕ
term ms i = offset ms >>= λ off.
    if ltb i off
    then err err_compacted
    else if leb (length ms.ents) (sub64 i off) && ltb (sub64 i off) (2 ^ 63)
    then err err_unavailable
    else (deref (get_elem? ms.ents (sub64 i off)) >>= λ e. ok e.term)

unfoldable pub snapshot : MemoryStorage → Result Snapshot
snapshot ms = ok ms.snap

unfoldable pub apply_snapshot : MemoryStorage → Snapshot → Result MemoryStorage
apply_snapshot ms s = deref ms.snap.metadata >>= λ old. deref s.metadata >>= λ md.
    if leb md.index old.index
    then err err_snap_out_of_date
    else ok
        (record ms { snap = s; ents = record zero_entry { term = md.term; index = md.index } ∷ [] })

abbrev keep_conf_state : Option ConfState → Option ConfState → Option ConfState
keep_conf_state none old = old
keep_conf_state (some cs) old = some cs

unfoldable pub create_snapshot :
    MemoryStorage → ℕ → Option ConfState → List ℕ → Result (MemoryStorage × Snapshot)
unfolding last_index
create_snapshot ms i cs payload = deref ms.snap.metadata >>= λ md.
    if ltb i md.index
    then err err_snap_out_of_date
    else (offset ms >>= λ off. last_index ms >>= λ last.
        if ltb last i
        then panic
        else (deref (get_elem? ms.ents (sub64 i off)) >>= λ e.
            let s : Snapshot = record {
              payload = payload;
              metadata = some (record {
                index = i;
                term = e.term;
                conf_state = keep_conf_state cs md.conf_state;
              });
            } in
            ok (record ms { snap = s }, s)))

unfoldable pub compact : MemoryStorage → ℕ → Result MemoryStorage
unfolding last_index
compact ms compact_index = offset ms >>= λ off.
    if leb compact_index off
    then err err_compacted
    else (last_index ms >>= λ last.
        if ltb last compact_index
        then panic
        else (deref (get_elem? ms.ents (sub64 compact_index off)) >>= λ e. ok (record ms {
          ents =
              record zero_entry { term = e.term; index = e.index }
              ∷ drop (sub64 compact_index off + 1) ms.ents;
        })))

-- The `switch` of `Append`: cut the log at `off` entries and append, or panic on a gap.
abbrev splice : MemoryStorage → ℕ → List Entry → Result MemoryStorage
splice ms off new =
    if ltb off (length ms.ents)
    then ok (record ms { ents = take off ms.ents ++ new })
    else if length ms.ents == off
    then ok (record ms { ents = ms.ents ++ new })
    else panic

-- `Append` after the test for no entries. `trimmed` drops what the snapshot covers.
append_from : MemoryStorage → Entry → List Entry → Result MemoryStorage
unfolding first_index
append_from ms e es = first_index ms >>= λ first.
    let last = sub64 (add64 e.index (suc (length es))) 1 in
    if ltb last first
    then ok ms
    else (let trimmed = if ltb e.index first then drop (sub64 first e.index) (e ∷ es) else e ∷ es in
        deref (get_elem? trimmed 0) >>= λ head.
        offset ms >>= λ off. splice ms (sub64 head.index off) trimmed)

unfoldable pub append : MemoryStorage → List Entry → Result MemoryStorage
unfolding append_from
append ms [] = ok ms
append ms (e ∷ es) = append_from ms e es

-- A memory storage as `raftLog` sees it.
unfoldable pub as_storage : MemoryStorage → Storage
unfolding entries term last_index first_index snapshot
as_storage ms = record {
  entries = entries ms;
  term = term ms;
  last_index = last_index ms;
  first_index = first_index ms;
  snapshot = snapshot ms;
}

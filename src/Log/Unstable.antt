-- ===== src/Log/Unstable.antt =====
-- raft/log_unstable.go: the snapshot and the entries that are not in the storage yet; `entries` holds
-- the indices from `offset` on.
pub mod Terms
mod Tests
use my_raft_kv.Prelude.{
  ℕ, suc, ◌+◌, ◌-◌, Bool, true, false, ◌&&◌, Option, none, some, List, [], ◌∷◌, leb, ltb, ◌==◌,
  if◌then◌else◌, length, drop, get_elem?, add64, sub64, Result, ok, panic, ◌>>=◌, deref,
}
use my_raft_kv.Log.Entries.{Entry, Snapshot, SnapshotMetadata}
use my_raft_kv.Log.Storage.{slice_of}

pub record Unstable : Type 0 where
  pub snap : Option Snapshot
  pub entries : List Entry
  pub offset : ℕ

-- `s.Metadata`, whose pointer may be nil.
abbrev pub metadata_of : Snapshot → Result SnapshotMetadata
metadata_of s = deref s.metadata

abbrev first_of_snapshot : Option Snapshot → Result (Option ℕ)
first_of_snapshot none = ok none
first_of_snapshot (some s) = metadata_of s >>= λ md. ok (some (add64 md.index 1))

unfoldable pub maybe_first_index : Unstable → Result (Option ℕ)
maybe_first_index u = first_of_snapshot u.snap

abbrev last_of_snapshot : Option Snapshot → Result (Option ℕ)
last_of_snapshot none = ok none
last_of_snapshot (some s) = metadata_of s >>= λ md. ok (some md.index)

unfoldable pub maybe_last_index : Unstable → Result (Option ℕ)
maybe_last_index u =
    if length u.entries == 0
    then last_of_snapshot u.snap
    else ok (some (sub64 (add64 u.offset (length u.entries)) 1))

abbrev term_of_snapshot : Option Snapshot → ℕ → Result (Option ℕ)
term_of_snapshot none i = ok none
term_of_snapshot (some s) i =
    metadata_of s >>= λ md. ok (if md.index == i then some md.term else none)

abbrev term_of_entry : Unstable → ℕ → Option ℕ → Result (Option ℕ)
term_of_entry u i none = ok none
term_of_entry u i (some last) =
    if ltb last i
    then ok none
    else (deref (get_elem? u.entries (sub64 i u.offset)) >>= λ e. ok (some e.term))

unfoldable pub maybe_term : Unstable → ℕ → Result (Option ℕ)
unfolding maybe_last_index
maybe_term u i =
    if ltb i u.offset
    then term_of_snapshot u.snap i
    else (maybe_last_index u >>= λ last. term_of_entry u i last)

-- `shrinkEntriesArray` copies the entries to a smaller array, and leaves the slice as it is.
abbrev shrink_entries_array : List Entry → List Entry
shrink_entries_array es = es

abbrev stable_at : Unstable → ℕ → ℕ → Option ℕ → Result Unstable
stable_at u i t none = ok u
stable_at u i t (some gt) =
    if (gt == t) && leb u.offset i
    then (slice_of u.entries (sub64 (add64 i 1) u.offset) (length u.entries) >>= λ rest.
        ok (record u { entries = shrink_entries_array rest; offset = add64 i 1 }))
    else ok u

unfoldable pub stable_to : Unstable → ℕ → ℕ → Result Unstable
unfolding maybe_term
stable_to u i t = maybe_term u i >>= λ gt. stable_at u i t gt

-- `mustCheckOutOfBounds` checks nothing. A `hi` past the length is a panic here; Go would read on in
-- the array's spare capacity.
unfoldable pub slice : Unstable → ℕ → ℕ → Result (List Entry)
slice u lo hi = slice_of u.entries (sub64 lo u.offset) (sub64 hi u.offset)

unfoldable pub restore : Unstable → Snapshot → Result Unstable
restore u s =
    metadata_of s >>= λ md. ok (record { snap = some s; entries = []; offset = add64 md.index 1 })

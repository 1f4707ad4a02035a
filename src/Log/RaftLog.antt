-- ===== src/Log/RaftLog.antt =====
-- raft/log.go: the log of a node, over its storage and the entries not yet stable. A call of
-- `Logger.Panicf` is a panic; the logger's other calls are left out, with the reads that their
-- arguments make where those can panic.
pub mod Valid
pub mod Commit
pub mod Rising
pub mod Conflict
pub mod Rejected
pub mod Appended
mod Tests
use my_raft_kv.Prelude.{
  ℕ, zero, suc, ◌+◌, ◌-◌, Bool, true, false, ◌&&◌, ◌||◌, Option, none, some, List, [], ◌∷◌, ◌++◌,
  leb, ltb, ◌==◌, if◌then◌else◌, length, add64, sub64, min, max, max_uint64, Result, ok, err, panic,
  ◌>>=◌, deref, err_compacted, err_unavailable,
}
use my_raft_kv.Log.Entries.{Entry, Snapshot, SnapshotMetadata, limit_size}
use my_raft_kv.Log.Storage.{Storage, slice_of}
use my_raft_kv.Log.Unstable
use my_raft_kv.Log.Unstable.{Unstable, metadata_of}

pub record RaftLog : Type 0 where
  pub storage : Storage
  pub unstable : Unstable
  pub committed : ℕ
  pub applied : ℕ
  pub max_next_ents_size : ℕ

-- `if err != nil { panic(err) }`
abbrev pub must {ℓ} : {A : Type ℓ} → Result A → Result A
must (ok a) = ok a
must (err e) = panic
must panic = panic

-- `newLogWithSize`; a nil storage is `none`.
unfoldable pub new_log_with_size : Option Storage → ℕ → Result RaftLog
new_log_with_size storage size = deref storage >>= λ st. must st.first_index >>= λ first.
    must st.last_index >>= λ last. ok (record {
      storage = st;
      unstable = record { snap = none; entries = []; offset = add64 last 1 };
      committed = sub64 first 1;
      applied = sub64 first 1;
      max_next_ents_size = size;
    })

unfoldable pub new_log : Option Storage → Result RaftLog
unfolding new_log_with_size
new_log storage = new_log_with_size storage max_uint64

abbrev or_else : Option ℕ → Result ℕ → Result ℕ
or_else (some i) r = ok i
or_else none r = must r

unfoldable pub first_index : RaftLog → Result ℕ
first_index rl = Unstable.maybe_first_index rl.unstable >>= λ i. or_else i rl.storage.first_index

unfoldable pub last_index : RaftLog → Result ℕ
last_index rl = Unstable.maybe_last_index rl.unstable >>= λ i. or_else i rl.storage.last_index

-- What `term` makes of the answer of the storage.
abbrev stored_term : Result ℕ → Result ℕ
stored_term (ok t) = ok t
stored_term (err err_compacted) = err err_compacted
stored_term (err err_unavailable) = err err_unavailable
stored_term _ = panic

abbrev known_term : Option ℕ → Result ℕ → Result ℕ
known_term (some t) r = ok t
known_term none r = stored_term r

unfoldable pub term : RaftLog → ℕ → Result ℕ
term rl i = first_index rl >>= λ first. last_index rl >>= λ last.
    if ltb i (sub64 first 1) || ltb last i
    then ok 0
    else (Unstable.maybe_term rl.unstable i >>= λ t. known_term t (rl.storage.term i))

unfoldable pub last_term : RaftLog → Result ℕ
last_term rl = last_index rl >>= λ last. must (term rl last)

abbrev match_found : Result ℕ → ℕ → Result Bool
match_found (ok t) term' = ok (t == term')
match_found (err e) term' = ok false
match_found panic term' = panic

unfoldable pub match_term : RaftLog → ℕ → ℕ → Result Bool
match_term rl i t = match_found (term rl i) t

abbrev pub zero_term_on_err_compacted : Result ℕ → Result ℕ
zero_term_on_err_compacted (ok t) = ok t
zero_term_on_err_compacted (err err_compacted) = ok 0
zero_term_on_err_compacted _ = panic

unfoldable pub must_check_out_of_bounds : RaftLog → ℕ → ℕ → Result (Unit {0})
must_check_out_of_bounds rl lo hi =
    if ltb hi lo
    then panic
    else (first_index rl >>= λ fi.
        if ltb lo fi
        then err err_compacted
        else (last_index rl >>= λ last.
            if ltb (add64 fi (sub64 (add64 last 1) fi)) hi then panic else ok tt))

-- The branch of `slice` that reads the storage: an error other than `ErrCompacted` is a panic.
abbrev stored_entries : Result (List Entry) → Result (List Entry)
stored_entries (ok es) = ok es
stored_entries (err err_compacted) = err err_compacted
stored_entries _ = panic

abbrev with_unstable : RaftLog → ℕ → ℕ → ℕ → List Entry → Result (List Entry)
with_unstable rl lo hi max_size ents =
    if ltb rl.unstable.offset hi
    then (Unstable.slice rl.unstable (max lo rl.unstable.offset) hi >>= λ new.
        ok (limit_size (ents ++ new) max_size))
    else ok (limit_size ents max_size)

unfoldable pub slice : RaftLog → ℕ → ℕ → ℕ → Result (List Entry)
unfolding must_check_out_of_bounds
slice rl lo hi max_size = must_check_out_of_bounds rl lo hi >>= λ _.
    if lo == hi
    then ok []
    else if ltb lo rl.unstable.offset
    then (let upto = min hi rl.unstable.offset in
        stored_entries (rl.storage.entries lo upto max_size) >>= λ stored.
        if ltb (length stored) (sub64 upto lo)
        then ok stored
        else with_unstable rl lo hi max_size stored)
    else with_unstable rl lo hi max_size []

unfoldable pub entries : RaftLog → ℕ → ℕ → Result (List Entry)
entries rl i max_size =
    last_index rl >>= λ last. if ltb last i then ok [] else slice rl i (add64 last 1) max_size

unfoldable pub is_up_to_date : RaftLog → ℕ → ℕ → Result Bool
is_up_to_date rl lasti t =
    last_term rl >>= λ lt. last_index rl >>= λ li. ok (ltb lt t || ((t == lt) && leb li lasti))

unfoldable pub snapshot : RaftLog → Result Snapshot
snapshot rl = elim rl.unstable.snap [ some s ↦ ok s | none ↦ rl.storage.snapshot ]

-- `append` returns the last index; it stores no entry.
unfoldable pub append : RaftLog → List Entry → Result (RaftLog × ℕ)
append rl es = last_index rl >>= λ last. ok (rl, last)

unfoldable pub commit_to : RaftLog → ℕ → Result RaftLog
commit_to rl tocommit =
    if ltb rl.committed tocommit
    then (last_index rl >>= λ last.
        if ltb last tocommit then panic else ok (record rl { committed = tocommit }))
    else ok rl

unfoldable pub maybe_commit : RaftLog → ℕ → ℕ → Result (RaftLog × Bool)
unfolding commit_to
maybe_commit rl max_index t =
    if ltb rl.committed max_index
    then (zero_term_on_err_compacted (term rl max_index) >>= λ t'.
        if t' == t then (commit_to rl max_index >>= λ rl'. ok (rl', true)) else ok (rl, false))
    else ok (rl, false)

-- The body is `return false`.
unfoldable pub has_pending_snapshot : RaftLog → Bool
has_pending_snapshot rl = false

unfoldable pub unstable_entries : RaftLog → List Entry
unstable_entries rl = rl.unstable.entries

unfoldable pub has_next_ents : RaftLog → Result Bool
has_next_ents rl =
    first_index rl >>= λ first. ok (ltb (max (add64 rl.applied 1) first) (add64 rl.committed 1))

-- The message about a conflict reads the term, and panics where `zeroTermOnErrCompacted` does.
abbrev report_conflict : RaftLog → Entry → Result ℕ
report_conflict rl ne = last_index rl >>= λ last.
    if ltb ne.index last
    then (zero_term_on_err_compacted (term rl ne.index) >>= λ _. ok ne.index)
    else ok ne.index

unfoldable pub find_conflict : RaftLog → List Entry → Result ℕ
find_conflict rl [] = ok 0
find_conflict rl (ne ∷ ents) =
    let rest = find_conflict rl ents in
    match_term rl ne.index ne.term >>= λ same. if same then rest else report_conflict rl ne

-- Whether the loop of `findConflictByTerm` stops at a term.
abbrev stops : Result ℕ → ℕ → Result Bool
stops (ok log_term) t = ok (leb log_term t)
stops (err e) t = ok true
stops panic t = panic

-- The loop, with fuel; `none` is the end of the fuel.
unfoldable pub walk_back : RaftLog → ℕ → ℕ → ℕ → Result (Option ℕ)
walk_back rl t index zero = ok none
walk_back rl t index (suc fuel) =
    let rest = walk_back rl t (sub64 index 1) fuel in
    stops (term rl index) t >>= λ stop. if stop then ok (some index) else rest

unfoldable pub find_conflict_by_term : RaftLog → ℕ → ℕ → Result (Option ℕ)
unfolding walk_back
find_conflict_by_term rl index t = last_index rl >>= λ li.
    if ltb li index then ok (some index) else walk_back rl t index (suc (suc index))

-- The `switch` of `maybeAppend`.
abbrev pub append_at : RaftLog → ℕ → ℕ → List Entry → Result RaftLog
append_at rl index ci ents =
    if ci == 0
    then ok rl
    else if leb ci rl.committed
    then panic
    else (slice_of ents (sub64 ci (add64 index 1)) (length ents) >>= λ new.
        append rl new >>= λ r. ok r.0)

unfoldable pub maybe_append : RaftLog → ℕ → ℕ → ℕ → List Entry → Result (RaftLog × Option ℕ)
unfolding append commit_to
maybe_append rl index log_term committed ents = match_term rl index log_term >>= λ same.
    if same
    then (let lastnewi = add64 index (length ents) in
        find_conflict rl ents >>= λ ci. append_at rl index ci ents >>= λ rl'.
        commit_to rl' (min committed lastnewi) >>= λ rl''. ok (rl'', some lastnewi))
    else ok (rl, none)

unfoldable pub restore : RaftLog → Snapshot → Result RaftLog
restore rl s = metadata_of s >>= λ md.
    Unstable.restore rl.unstable s >>= λ u. ok (record rl { committed = md.index; unstable = u })

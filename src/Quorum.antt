-- ===== src/Quorum.antt =====
-- raft/quorum: the vote of a majority and of two majorities, and the index that they have
-- acknowledged. A `MajorityConfig` is the list of the keys of its map, in the order in which a
-- `for range` happens to visit them.
pub mod Counting
pub mod Decided
pub mod Overlap
pub mod Acked
mod Tests
use my_raft_kv.Prelude.{
  ℕ, suc, ◌+◌, ◌-◌, ◌/◌, Bool, true, false, ◌||◌, Option, none, some, List, [], ◌∷◌, ltb, leb,
  if◌then◌else◌, lookup, insert, length, set, get_or, replicate, max_uint64,
}

pub data VoteResult : Type 0 where
  vote_pending vote_lost vote_won : VoteResult

abbrev pub MajorityConfig : Type 0
MajorityConfig = List ℕ

-- `ny[0]`, `ny[1]` and `missing` of `MajorityConfig.VoteResult`.
pub record Tally : Type 0 where
  pub nays : ℕ
  pub yeas : ℕ
  pub missing : ℕ

abbrev pub tally_one : Option Bool → Tally → Tally
tally_one none t = record t { missing = suc t.missing }
tally_one (some true) t = record t { yeas = suc t.yeas }
tally_one (some false) t = record t { nays = suc t.nays }

-- The loop `for id := range m`.
unfoldable pub tally : List (ℕ × Bool) → MajorityConfig → Tally → Tally
tally votes [] t = t
tally votes (id ∷ m) t = tally votes m (tally_one (lookup id votes) t)

abbrev pub no_tally : Tally
no_tally = record { nays = 0; yeas = 0; missing = 0 }

abbrev pub decide_tally : ℕ → Tally → VoteResult
decide_tally q t =
    if leb q t.yeas
    then vote_won
    else if leb q (t.yeas + t.missing)
    then vote_pending
    else vote_lost

unfoldable pub vote_result : MajorityConfig → List (ℕ × Bool) → VoteResult
unfolding tally
vote_result [] votes = vote_won
vote_result (id ∷ m) votes = decide_tally (length (id ∷ m) / 2 + 1) (tally votes (id ∷ m) no_tally)

-- The loop of `CommittedIndex`, which fills `srt` from its end. The index is the number of slots
-- that are left; `srt[i]` with `i = left - 1`.
unfoldable pub fill_acked : (ℕ → Option ℕ) → MajorityConfig → ℕ → List ℕ → List ℕ
fill_acked acked [] left srt = srt
fill_acked acked (id ∷ m) left srt = elim (acked id) [
  | some idx ↦ fill_acked acked m (left - 1) (set srt (left - 1) idx)
  | none ↦ fill_acked acked m left srt
]

-- `AckedIndexer` is the function `acked`.
unfoldable pub committed_index : MajorityConfig → (ℕ → Option ℕ) → ℕ
unfolding fill_acked
committed_index [] acked = max_uint64
committed_index (id ∷ m) acked =
    let n = length (id ∷ m) in
    get_or (fill_acked acked (id ∷ m) n (replicate n 0)) (n - (n / 2 + 1)) 0

-- `JointConfig`, the two configurations of a joint consensus.
pub record JointConfig : Type 0 where
  pub incoming : MajorityConfig
  pub outgoing : MajorityConfig

unfoldable pub add_ids : MajorityConfig → List (ℕ × Unit {0}) → List (ℕ × Unit {0})
add_ids [] m = m
add_ids (id ∷ c) m = add_ids c (insert id tt m)

-- `JointConfig.IDs`, a map from id to the empty struct.
unfoldable pub ids : JointConfig → List (ℕ × Unit {0})
unfolding add_ids
ids c = add_ids c.outgoing (add_ids c.incoming [])

abbrev pub is_lost : VoteResult → Bool
is_lost vote_lost = true
is_lost _ = false

abbrev pub same_result : VoteResult → VoteResult → Bool
same_result vote_won vote_won = true
same_result vote_lost vote_lost = true
same_result vote_pending vote_pending = true
same_result _ _ = false

abbrev pub join : VoteResult → VoteResult → VoteResult
join r1 r2 =
    if same_result r1 r2 then r1 else if is_lost r1 || is_lost r2 then vote_lost else vote_pending

-- `JointConfig.VoteResult`
unfoldable pub joint_vote_result : JointConfig → List (ℕ × Bool) → VoteResult
joint_vote_result c votes = join (vote_result c.incoming votes) (vote_result c.outgoing votes)

-- `JointConfig.CommittedIndex`
unfoldable pub joint_committed_index : JointConfig → (ℕ → Option ℕ) → ℕ
joint_committed_index c acked =
    let idx0 = committed_index c.incoming acked in
    let idx1 = committed_index c.outgoing acked in if ltb idx0 idx1 then idx0 else idx1

-- ===== src/Tracker/Progress/Decrease.antt =====
-- A rejected append moves `Next` down.
use my_raft_kv.Prelude.{ℕ, ◌+◌, ◌^◌, ◌≤◌, ◌<◌, ◌≡◌, ◌≢◌, ◌⊎◌, ◌↔◌, true, false, arith}
use my_raft_kv.Tracker.Progress.{
  Progress, state_replicate, become_probe, become_replicate, become_snapshot, maybe_decr_to,
  is_paused,
}
use my_raft_kv.Tracker.Progress.Bounds.{IsValid}

-- A rejection is genuine where it is of an index that a replicating follower has not acknowledged, or
-- of the only index that a follower in another state was sent.
pub data Genuine (pr : Progress) (rejected : ℕ) : Type 0 where
  beyond : pr.state ≡ state_replicate → pr.match < rejected → Genuine pr rejected
  probed : pr.state ≢ state_replicate → pr.next ≡ rejected + 1 → Genuine pr rejected

-- Where `Next` goes: for a replicating follower just past `Match`. In another state it is the largest
-- index that is neither above the rejected one nor more than one past the hint, but 1 at least, and the
-- follower is not paused for a probe any more.
pub record Lowered (pr pr' : Progress) (rejected hint : ℕ) : Type 0 where
  pub replicating : pr.state ≡ state_replicate → pr'.next ≡ pr.match + 1
  pub upper :
      pr.state ≢ state_replicate → (pr'.next ≡ 1) ⊎ ((pr'.next ≤ rejected) × (pr'.next ≤ hint + 1))
  pub largest : pr.state ≢ state_replicate → (z : ℕ) → z ≤ rejected → z ≤ hint + 1 → z ≤ pr'.next
  pub not_paused : pr.state ≢ state_replicate → pr'.probe_sent ≡ false

-- It keeps `Match < Next` for a replicating follower always, and for any other where the rejected
-- index and the hint are not below what the follower has acknowledged.
pub maybe_decr_to-IsValid :
    (pr : Progress) (rejected hint : ℕ)
    → IsValid pr
    → hint + 1 < 2 ^ 64
    → (pr.state ≡ state_replicate) ⊎ ((pr.match < rejected) × (pr.match ≤ hint))
    → IsValid (maybe_decr_to pr rejected hint).0
unfolding maybe_decr_to
maybe_decr_to-IsValid pr rejected hint v h k = ground arith

-- After a change to the probe state nothing is paused; after one to the snapshot state all is; after
-- one to the replicate state the follower is paused only if its window has no room at all.
pub is_paused-become :
    (pr : Progress) (i : ℕ)
    → (is_paused (become_probe pr) ≡ false)
      × (is_paused (become_snapshot pr i) ≡ true)
      × ((is_paused (become_replicate pr) ≡ true) ↔ (pr.inflights.size ≡ 0))
unfolding is_paused become_probe become_snapshot become_replicate
is_paused-become pr i = ground arith

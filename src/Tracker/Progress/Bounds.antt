-- ===== src/Tracker/Progress/Bounds.antt =====
-- `Match` stays below `Next` under every operation of a `Progress`, and neither wraps.
use my_raft_kv.Prelude.{ℕ, ◌+◌, ◌^◌, ◌≤◌, ◌<◌, ◌≡◌, ◌≢◌, ◌↔◌, true, max, arith}
use my_raft_kv.Tracker.Progress.{
  Progress, state_snapshot, become_probe, become_replicate, become_snapshot, maybe_update,
  optimistic_update,
}

pub record IsValid (pr : Progress) : Type 0 where
  pub behind : pr.match < pr.next
  pub next_word : pr.next < 2 ^ 64
  pub pending_word : pr.pending_snapshot + 1 < 2 ^ 64

-- Each change of the replication state keeps `Match < Next`, keeps `Match` itself, and sets `Next`
-- just past `Match`; only from the snapshot state does `Next` go past the pending snapshot too, and
-- only a change to the snapshot state keeps `Next`.
pub become-IsValid :
    (pr : Progress) (i : ℕ)
    → IsValid pr
    → i + 1 < 2 ^ 64
    → (IsValid (become_probe pr)
        × ((become_probe pr).match ≡ pr.match)
        × (pr.state ≡ state_snapshot
            → (become_probe pr).next ≡ max (pr.match + 1) (pr.pending_snapshot + 1))
        × (pr.state ≢ state_snapshot → (become_probe pr).next ≡ pr.match + 1))
      × (IsValid (become_replicate pr)
          × ((become_replicate pr).match ≡ pr.match)
          × ((become_replicate pr).next ≡ pr.match + 1))
      × (IsValid (become_snapshot pr i)
          × ((become_snapshot pr i).match ≡ pr.match)
          × ((become_snapshot pr i).next ≡ pr.next))
unfolding become_probe become_replicate become_snapshot
become-IsValid pr i v h = ground arith

-- An acknowledged index `n` keeps the invariant: `Match` becomes the larger of itself and `n`, `Next`
-- is past both and never falls, and the call says whether `Match` rose.
pub maybe_update-IsValid :
    (pr : Progress) (n : ℕ)
    → IsValid pr
    → n + 1 < 2 ^ 64
    → let (pr', updated) = maybe_update pr n in
      IsValid pr'
      × (pr'.match ≡ max pr.match n)
      × (pr'.next ≡ max pr.next (n + 1))
      × ((updated ≡ true) ↔ (pr.match < n))
unfolding maybe_update
maybe_update-IsValid pr n v h = ground arith

-- An optimistic update to an index that is not below `Match` keeps the invariant.
pub optimistic_update-IsValid :
    (pr : Progress) (n : ℕ)
    → IsValid pr
    → pr.match ≤ n
    → n + 1 < 2 ^ 64
    → IsValid (optimistic_update pr n)
unfolding optimistic_update
optimistic_update-IsValid pr n v h k = ground arith

-- ===== src/Tracker/Inflights/Counts.antt =====
-- What `Add` does to the count of a window, valid or not.
use my_raft_kv.Prelude.{
  ℕ, ◌+◌, ◌≡◌, refl, Bool, true, false, leb, length, if◌then◌else◌, ltb, Always, Always-ok,
  Always-panic, Always-if,
}
use my_raft_kv.Tracker.Inflights.{Inflights, full, grow, wrap, write_at, add}

write_at-counts :
    (s : Inflights) (b : Bool) (i v : ℕ)
    → Always
        (λ s'. (s'.count ≡ s.count + 1) × (s'.size ≡ s.size))
        (write_at (if b then grow s else s) i v)
unfolding grow
write_at-counts s true i v =
    Always-if (ltb i (length (grow s).buffer)) (Always-ok (refl, refl)) Always-panic
write_at-counts s false i v =
    Always-if (ltb i (length s.buffer)) (Always-ok (refl, refl)) Always-panic

-- An entry that is added is counted, and the size of the window stays.
pub add-counts :
    (s : Inflights) (x : ℕ) → Always (λ s'. (s'.count ≡ s.count + 1) × (s'.size ≡ s.size)) (add s x)
unfolding add
add-counts s x = Always-if (full s) Always-panic (
    write_at-counts s (leb (length s.buffer) (wrap s.size (s.start + s.count)))
      (wrap s.size (s.start + s.count)) x)

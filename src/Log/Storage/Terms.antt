-- ===== src/Log/Storage/Terms.antt =====
-- What the operations of a memory storage do to the entries that it holds.
use my_raft_kv.Prelude.{
  ℕ, suc, ◌+◌, ◌-◌, ◌^◌, ◌≤◌, ◌<◌, ◌≡◌, refl, ap, some, ◌∷◌, length, drop, get_elem?, arith, Result,
  ok, err, panic, err_compacted, get_elem?-some, length-drop, sub64,
}
use my_raft_kv.Log.Entries.{Entry}
use my_raft_kv.Log.Storage.{MemoryStorage, zero_entry, term, compact}
use my_raft_kv.Log.Storage.Contiguous.{IsValid, Runs-drop, Runs-get_elem?, term_lem}

-- What an operation that succeeds leaves.
abbrev pub Returns {ℓ} : Result MemoryStorage → (MemoryStorage → Type ℓ) → Type ℓ
Returns r P = (s : MemoryStorage) × (r ≡ ok s) × P s

-- `Compact` of a valid storage at an index of the log, below 2 ^ 63, keeps the storage valid: the
-- dummy entry takes the index and the term of that entry, the entries after it stay, and the last index
-- is the same. At or below the dummy it is an error, and past the last index a panic.
pub compact_lem :
    (ms : MemoryStorage) (i : ℕ) (v : IsValid ms)
    → i < 2 ^ 63
    → (i ≤ v.dummy.index → compact ms i ≡ err err_compacted)
      × (v.dummy.index + length v.log < i → compact ms i ≡ panic)
      × (v.dummy.index < i
          → i ≤ v.dummy.index + length v.log
          → Returns (compact ms i) λ s.
            (w : IsValid s) × (w.dummy.index ≡ i)
            × (ok w.dummy.term ≡ term ms i)
            × (w.log ≡ drop (i - v.dummy.index) v.log)
            × (w.dummy.index + length w.log ≡ v.dummy.index + length v.log))
unfolding compact
compact_lem ms i v h = (
  λ p. rw (v.shape, compact) (ground arith),
  λ p. rw (v.shape, compact) (ground arith),
  λ p q.
      let (e, g) = get_elem?-some (v.dummy ∷ v.log) (i - v.dummy.index) (omega (arith, v.small)) in
      within p q e g,
)
  where
    within :
        v.dummy.index < i
        → i ≤ v.dummy.index + length v.log
        → (e : Entry) → get_elem? (v.dummy ∷ v.log) (i - v.dummy.index) ≡ some e
        → Returns (compact ms i) λ s.
          (w : IsValid s) × (w.dummy.index ≡ i)
          × (ok w.dummy.term ≡ term ms i)
          × (w.log ≡ drop (i - v.dummy.index) v.log)
          × (w.dummy.index + length w.log ≡ v.dummy.index + length v.log)
    within p q e g = (
      s,
      rw (v.shape, compact, near, g, after) (ground arith),
      (w, at_i, ground (arith, term_lem v i), refl, counted),
    )
      where
        k : ℕ
        k = i - v.dummy.index

        near : sub64 i v.dummy.index ≡ k
        near = omega (arith, v.small)

        s : MemoryStorage
        s = record ms { ents = record zero_entry { term = e.term; index = e.index } ∷ drop k v.log }

        after : drop (k + 1) (v.dummy ∷ v.log) ≡ drop k v.log
        after = ap (λ n. drop n (v.dummy ∷ v.log)) {y = suc k} (omega arith)

        at_i : e.index ≡ i
        at_i = omega (arith, Runs-get_elem? v.dummy.index k (v.dummy ∷ v.log) e (refl, v.runs) g)

        counted : e.index + length (drop k v.log) ≡ v.dummy.index + length v.log
        counted = omega (arith, at_i, length-drop k v.log)

        w : IsValid s
        w = record {
          dummy = record zero_entry { term = e.term; index = e.index };
          log = drop k v.log;
          shape = refl;
          runs = rw (suc_at p at_i) (Runs-drop k (suc v.dummy.index) v.log v.runs);
          small = omega (arith, counted, v.small);
        }
          where
            suc_at : v.dummy.index < i → e.index ≡ i → suc e.index ≡ k + suc v.dummy.index
            suc_at p a = omega arith

-- ===== src/Log/Storage/Contiguous.antt =====
-- Entries with consecutive indices, and the invariant of a memory storage.
use my_raft_kv.Prelude.{
  ℕ, zero, suc, ◌+◌, ◌-◌, ◌^◌, ◌≤◌, ◌<◌, ◌≡◌, refl, Option, none, some, List, [], ◌∷◌, ◌++◌, leb,
  ltb, ◌==◌, if◌then◌else◌, length, take, drop, get_elem?, arith, ok, err, err_compacted,
  err_unavailable, deref, ◌>>=◌, get_elem?-some,
}
use native.Mathlib.Nat.{zero-add, add-zero}
use my_raft_kv.Log.Entries.{Entry}
use my_raft_kv.Log.Storage.{
  MemoryStorage, new_memory_storage, zero_entry, last_index, first_index, term,
}

-- The indices of the entries run on from `k`.
abbrev pub Runs : ℕ → List Entry → Type 0
Runs k [] = Unit {0}
Runs k (e ∷ es) = (e.index ≡ k) × Runs (suc k) es

-- The entry that bears an index.
abbrev pub find_index : ℕ → List Entry → Option Entry
find_index i [] = none
find_index i (e ∷ es) = if e.index == i then some e else find_index i es

-- A dummy entry, then the log, whose indices run on from the dummy's; the index after the last one
-- is below 2 ^ 63.
pub record IsValid (ms : MemoryStorage) : Type 0 where
  pub dummy : Entry
  pub log : List Entry
  pub shape : ms.ents ≡ dummy ∷ log
  pub runs : Runs (suc dummy.index) log
  pub small : dummy.index + suc (length log) < 2 ^ 63

pub Runs-drop : (n k : ℕ) (xs : List Entry) → Runs k xs → Runs (n + k) (drop n xs)
Runs-drop zero k xs r = rw (zero-add k) r
Runs-drop (suc n) k [] r = tt
Runs-drop (suc n) k (x ∷ xs) r = rw (shift n k) (Runs-drop n (suc k) xs r.1)
  where
    shift : (n k : ℕ) → suc n + k ≡ n + suc k
    shift n k = omega arith

pub Runs-take : (n k : ℕ) (xs : List Entry) → Runs k xs → Runs k (take n xs)
Runs-take zero k xs r = tt
Runs-take (suc n) k [] r = tt
Runs-take (suc n) k (x ∷ xs) r = (r.0, Runs-take n (suc k) xs r.1)

pub Runs-append :
    (k : ℕ) (xs ys : List Entry) → Runs k xs → Runs (k + length xs) ys → Runs k (xs ++ ys)
Runs-append k [] ys r q = rw (add-zero k) at q
Runs-append k (x ∷ xs) ys r q = (r.0, Runs-append (suc k) xs ys r.1 (rw (shift k (length xs)) at q))
  where
    shift : (k n : ℕ) → k + suc n ≡ suc k + n
    shift k n = omega arith

get_elem?-cons :
    (x : Entry) (xs : List Entry) (n : ℕ)
    → get_elem? (x ∷ xs) n ≡ (if n == 0 then some x else get_elem? xs (n - 1))
get_elem?-cons x xs zero = refl
get_elem?-cons x xs (suc n) = ground arith

-- In such a run the entry with an index stands where the index says.
pub find_index-Runs :
    (i k : ℕ) (xs : List Entry)
    → Runs k xs
    → find_index i xs ≡ (if leb k i then get_elem? xs (i - k) else none)
find_index-Runs i k [] r = ground arith
find_index-Runs i k (x ∷ xs) r =
    ground (arith, find_index-Runs i (suc k) xs, get_elem?-cons x xs (i - k), get_elem?-cons x xs 0)

pub Runs-get_elem? :
    (k n : ℕ) (xs : List Entry) (e : Entry) → Runs k xs → get_elem? xs n ≡ some e → e.index ≡ k + n
Runs-get_elem? k n [] e r h = cc
Runs-get_elem? k zero (x ∷ xs) e r h = ground arith
Runs-get_elem? k (suc n) (x ∷ xs) e r h = omega (arith, Runs-get_elem? (suc k) n xs e r.1 h)

-- A new storage is valid.
pub new_memory_storage-IsValid : IsValid new_memory_storage
unfolding new_memory_storage
new_memory_storage-IsValid = record {
  dummy = zero_entry;
  log = [];
  shape = refl;
  runs = tt;
  small = omega arith;
}

-- The first and the last index of a valid storage, and the term at an index: an index below the
-- dummy's is compacted, one past the last is unavailable, and any other has the term of its entry.
module _ {ms : MemoryStorage} (v : IsValid ms) where
  pub last_index_lem : last_index ms ≡ ok (v.dummy.index + length v.log)
  unfolding last_index
  last_index_lem = rw (v.shape, last_index) (ground arith)

  pub first_index_lem : first_index ms ≡ ok (v.dummy.index + 1)
  unfolding first_index
  first_index_lem = rw (v.shape, first_index) (ground arith)

  pub term_lem :
      (i : ℕ)
      → i < 2 ^ 63
      → term ms i ≡ (
          if ltb i v.dummy.index
          then err err_compacted
          else if ltb (v.dummy.index + length v.log) i
          then err err_unavailable
          else (deref (get_elem? (v.dummy ∷ v.log) (i - v.dummy.index)) >>= λ e. ok e.term))
  unfolding term
  term_lem i h = rw (v.shape, term) (ground arith)

  -- The term of an index that the storage holds.
  pub term_held :
      (i : ℕ)
      → v.dummy.index ≤ i
      → i ≤ v.dummy.index + length v.log
      → (e : Entry) × (get_elem? (v.dummy ∷ v.log) (i - v.dummy.index) ≡ some e)
        × (term ms i ≡ ok e.term)
  term_held i p q =
      let (e, g) = get_elem?-some (v.dummy ∷ v.log) (i - v.dummy.index) (omega (arith, v.small)) in
      (e, g, ground (arith, term_lem i))

-- ===== src/Log/Storage/Splice.antt =====
-- Cutting a run of entries and appending another that goes on from the cut.
use my_raft_kv.Prelude.{
  ℕ, suc, ◌+◌, ◌-◌, ◌≤◌, ◌≡◌, ◌∙◌, ap, List, ◌∷◌, ◌++◌, ltb, if◌then◌else◌, length, take, drop,
  get_elem?, arith, ok, get_elem?-drop, get_elem?-take, get_elem?-append_left,
  get_elem?-append_right, length-take, length-append, take_all,
}
use native.Mathlib.Decide.{dec_lt}
use my_raft_kv.Log.Entries.{Entry}
use my_raft_kv.Log.Storage.{MemoryStorage, splice}
use my_raft_kv.Log.Storage.Contiguous.{
  IsValid, Runs, Runs-drop, Runs-take, Runs-append, find_index, find_index-Runs,
}

module _ (m k : ℕ) (log new : List Entry) (runs : Runs k log) (on : Runs (k + m) new)
    (fits : m ≤ length log) where
  pub Runs-splice : Runs k (take m log ++ new)
  Runs-splice =
      Runs-append k (take m log) new (Runs-take m k log runs) (rw (length-take m log fits) on)

  pub length-splice : length (take m log ++ new) ≡ m + length new
  length-splice = omega (arith, length-append (take m log) new, length-take m log fits)

  get_elem?-splice :
      (j : ℕ)
      → get_elem? (take m log ++ new) j
        ≡ (if ltb j m then get_elem? log j else get_elem? new (j - m))
  get_elem?-splice j = elim (dec_lt j m) [
    | yes p ↦
        get_elem?-append_left (take m log) new j (omega (arith, length-take m log fits))
        ∙ ground (arith, get_elem?-take m log j)
    | no p ↦
        ap (get_elem? (take m log ++ new)) {y = length (take m log) + (j - m)}
          (omega (arith, length-take m log fits))
        ∙ ground (arith, get_elem?-append_right (take m log) new (j - m))
  ]

  -- Below the cut the old entries are found, from it on the new ones.
  pub find_index-splice :
      (i : ℕ)
      → k ≤ i
      → find_index i (take m log ++ new)
        ≡ (if ltb i (k + m) then find_index i log else find_index i new)
  find_index-splice i p = ground (
    arith,
    find_index-Runs i k (take m log ++ new) Runs-splice,
    find_index-Runs i k log runs,
    find_index-Runs i (k + m) new on,
    get_elem?-splice (i - k),
  )

-- A run with its front dropped finds the same entries from there on.
pub find_index-drop :
    (n k i : ℕ) (xs : List Entry)
    → Runs k xs
    → n + k ≤ i
    → find_index i (drop n xs) ≡ find_index i xs
find_index-drop n k i xs r p = ground (
  arith,
  find_index-Runs i (n + k) (drop n xs) (Runs-drop n k xs r),
  find_index-Runs i k xs r,
  get_elem?-drop n xs (i - (n + k)),
)

-- The `switch` of `Append`, where there is no gap.
pub splice_lem :
    (ms : MemoryStorage) (v : IsValid ms) (m : ℕ) (new : List Entry)
    → m ≤ length v.log
    → splice ms (suc m) new ≡ ok (record ms { ents = v.dummy ∷ (take m v.log ++ new) })
splice_lem ms v m new h = rw v.shape (ground (arith, take_all m v.log))

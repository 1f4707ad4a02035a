-- ===== src/Log/Storage/Append.antt =====
-- `MemoryStorage.Append`: what the storage holds after it.
use my_raft_kv.Prelude.{
  ℕ, suc, ◌+◌, ◌-◌, ◌^◌, ◌≤◌, ◌<◌, ◌≡◌, refl, sym, subst, List, ◌∷◌, ◌++◌, ltb, if◌then◌else◌,
  length, take, drop, arith, ok, panic, get_elem?-some, length-drop,
}
use native.Mathlib.Decide.{dec_le}
use my_raft_kv.Log.Entries.{Entry}
use my_raft_kv.Log.Storage.{MemoryStorage, append}
use my_raft_kv.Log.Storage.Contiguous.{IsValid, Runs, Runs-drop, find_index, Runs-get_elem?}
use my_raft_kv.Log.Storage.Splice.{
  Runs-splice, length-splice, find_index-splice, find_index-drop, splice_lem,
}
use my_raft_kv.Log.Storage.Terms.{Returns}

-- What the storage `ms` holds once `new`, which begins at index `from`, is written over it.
abbrev pub Overwritten : (ms : MemoryStorage) → IsValid ms → ℕ → List Entry → MemoryStorage → Type 0
Overwritten ms v from new s =
    (w : IsValid s) × (w.dummy ≡ v.dummy)
    × (v.dummy.index + suc (length w.log) ≡ from + length new)
    × ((i : ℕ)
        → v.dummy.index < i
        → find_index i w.log ≡ (if ltb i from then find_index i v.log else find_index i new))

-- The storage with the log cut to `m` entries and `new` put behind them.
spliced :
    (ms : MemoryStorage) (v : IsValid ms) (m : ℕ) (new : List Entry)
    → m ≤ length v.log
    → Runs (suc v.dummy.index + m) new
    → v.dummy.index + suc (m + length new) < 2 ^ 63
    → Overwritten ms v
        (suc v.dummy.index + m)
        new
        (record ms { ents = v.dummy ∷ (take m v.log ++ new) })
spliced ms v m new fits on room = (
  w,
  refl,
  omega (arith, counted),
  λ i p. find_index-splice m (suc v.dummy.index) v.log new v.runs on fits i p,
)
  where
    counted : length (take m v.log ++ new) ≡ m + length new
    counted = length-splice m (suc v.dummy.index) v.log new v.runs on fits

    w : IsValid (record ms { ents = v.dummy ∷ (take m v.log ++ new) })
    w = record {
      dummy = v.dummy;
      log = take m v.log ++ new;
      shape = refl;
      runs = Runs-splice m (suc v.dummy.index) v.log new v.runs on fits;
      small = omega (arith, counted);
    }

-- Entries that the dummy covers in part: those are dropped, and the rest replaces the whole log.
append_covered :
    (ms : MemoryStorage) (e : Entry) (es : List Entry) (v : IsValid ms)
    → Runs (suc e.index) es
    → e.index + suc (length es) < 2 ^ 63
    → e.index ≤ v.dummy.index
    → v.dummy.index < e.index + length es
    → Returns (append ms (e ∷ es)) (Overwritten ms v e.index (e ∷ es))
unfolding append
append_covered ms e es v r room p q =
    let (h, g) = get_elem?-some rest 0 (omega (arith, counted)) in
    let (w, d, l, found) = spliced ms v 0 rest (omega arith) on (omega (arith, counted)) in
    (
      record ms { ents = v.dummy ∷ rest },
      ground (
        arith,
        v.shape,
        g,
        splice_lem ms v 0 rest (omega arith),
        Runs-get_elem? (suc v.dummy.index + 0) 0 rest h on,
      ),
      (
        w,
        d,
        omega (arith, l, counted),
        λ i b. ground (arith, found i b, find_index-drop n e.index i (e ∷ es) (refl, r)),
      ),
    )
  where
    n : ℕ
    n = suc v.dummy.index - e.index

    rest : List Entry
    rest = drop n (e ∷ es)

    counted : length rest ≡ suc (length es) - n
    counted = length-drop n (e ∷ es)

    on : Runs (suc v.dummy.index + 0) rest
    on = subst (λ k. Runs k rest) (omega (arith, p)) (Runs-drop n e.index (e ∷ es) (refl, r))

-- Entries that begin inside the log or just after it: they replace it from there.
append_inside :
    (ms : MemoryStorage) (e : Entry) (es : List Entry) (v : IsValid ms)
    → Runs (suc e.index) es
    → e.index + suc (length es) < 2 ^ 63
    → v.dummy.index < e.index
    → e.index ≤ v.dummy.index + suc (length v.log)
    → Returns (append ms (e ∷ es)) (Overwritten ms v e.index (e ∷ es))
unfolding append
append_inside ms e es v r room p q = (
  record ms { ents = v.dummy ∷ (take m v.log ++ e ∷ es) },
  ground (arith, v.shape, splice_lem ms v m (e ∷ es) (omega arith)),
  subst (λ k. Overwritten ms v k (e ∷ es) (record ms { ents = v.dummy ∷ (take m v.log ++ e ∷ es) }))
      at_e (spliced ms v m (e ∷ es) (omega arith) on (omega arith)),
)
  where
    m : ℕ
    m = e.index - suc v.dummy.index

    at_e : suc v.dummy.index + m ≡ e.index
    at_e = omega (arith, p)

    on : Runs (suc v.dummy.index + m) (e ∷ es)
    on = subst (λ k. Runs k (e ∷ es)) (sym at_e) (refl, r)

-- `Append` of a run of entries that leaves no gap and stays below 2 ^ 63: where the dummy entry
-- covers all of them nothing changes. Otherwise the storage stays valid with the same dummy entry,
-- its last index is that of the last new entry, the old entries are kept below the first new index,
-- and from there on the new entries are held and no old one is left. A gap after the last entry is a
-- panic.
pub append_lem :
    (ms : MemoryStorage) (e : Entry) (es : List Entry) (v : IsValid ms)
    → Runs (suc e.index) es
    → e.index + suc (length es) < 2 ^ 63
    → (e.index + length es ≤ v.dummy.index → append ms (e ∷ es) ≡ ok ms)
      × (v.dummy.index < e.index + length es
          → e.index ≤ v.dummy.index + suc (length v.log)
          → Returns (append ms (e ∷ es)) (Overwritten ms v e.index (e ∷ es)))
      × (v.dummy.index + suc (length v.log) < e.index → append ms (e ∷ es) ≡ panic)
unfolding append
append_lem ms e es v r room = (
  λ p. ground (arith, v.shape),
  λ p q. elim (dec_le e.index v.dummy.index) [
    | yes h ↦ append_covered ms e es v r room h p
    | no h ↦ append_inside ms e es v r room (omega arith) q
  ],
  λ p. ground (arith, v.shape),
)

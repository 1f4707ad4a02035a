-- ===== src/Tracker/Inflights/Refine.antt =====
-- A valid ring of inflights is a bounded queue: `Add` appends, `FreeLE` drops the front entries that
-- the acknowledged index covers.
use my_raft_kv.Prelude.{
  some, ℕ, zero, suc, ◌+◌, ◌-◌, ◌≤◌, ◌<◌, ◌≡◌, refl, ◌∙◌, ap, ◌≢◌, ◌⊎◌, inl, inr, List, [], ◌∷◌,
  ◌++◌, ltb, ◌==◌, if◌then◌else◌, length, set, get_or, get_elem?, arith, get_or-set_self,
  get_or-set_ne, get_elem?-eq-get_or, length-set, Result, ok, panic, Bool-cases,
}
use mathlib.Core.Path.{ap₂}
use native.Mathlib.Decide.{dec_lt}
use my_raft_kv.Tracker.Inflights.{
  Inflights, new_inflights, wrap, grow, full, add, write_at, free_loop, free_le, free_first_one,
  released,
}
use my_raft_kv.Tracker.Inflights.Window.{
  window, contents, IsValid, length-window, window_ext, window_last, grow_lem,
}

-- The front entries that are at most `to` go.
abbrev pub drop_le : ℕ → List ℕ → List ℕ
drop_le to [] = []
drop_le to (x ∷ xs) = if ltb to x then x ∷ xs else drop_le to xs

-- What an operation that does not panic leaves.
abbrev pub Returns {ℓ} : Result Inflights → (Inflights → Type ℓ) → Type ℓ
Returns r P = (s : Inflights) × (r ≡ ok s) × P s

-- `NewInflights` is valid and empty.
pub new_inflights-IsValid :
    (size : ℕ) → IsValid (new_inflights size) × (contents (new_inflights size) ≡ [])
unfolding new_inflights
new_inflights-IsValid size = (
  record {
    count_in = omega arith;
    buffer_in = omega arith;
    start_in = inr refl;
    held = inl (omega arith);
  },
  refl,
)

-- A slot that the next entry takes lies past the entries.
slot_free : (size h i n : ℕ) → h < size → i < n → n < size → wrap size (h + n) ≢ wrap size (h + i)
slot_free size h i n p q r = ground arith

-- Writing the next slot of a buffer that is long enough appends the entry.
write_lem :
    (s : Inflights) (x : ℕ)
    → IsValid s
    → s.count < s.size
    → wrap s.size (s.start + s.count) < length s.buffer
    → Returns
        (write_at s (wrap s.size (s.start + s.count)) x)
        (λ t. IsValid t × (contents t ≡ contents s ++ (x ∷ [])) × (t.size ≡ s.size))
write_lem s x v room fits = (t, ground arith, (valid, held, refl))
  where
    open s use {start, count, size, buffer}

    slot : ℕ
    slot = wrap size (start + count)

    t : Inflights
    t = record s { buffer = set buffer slot x; count = count + 1 }

    inside : start < size
    inside = ground arith

    valid : IsValid t
    valid = ground (arith, length-set buffer slot x)

    held : contents t ≡ contents s ++ (x ∷ [])
    held =
        ap (window t.buffer size start) {y = suc count} (omega arith)
        ∙ window_last t.buffer size start count inside room
        ∙ ap₂ (λ xs y. xs ++ (y ∷ []))
            (window_ext t.buffer buffer size start count inside v.count_in λ i p.
              get_or-set_ne buffer slot (wrap size (start + i)) x 0
                (slot_free size start i count inside p room))
            (get_or-set_self buffer slot x 0 fits)

-- Growing the buffer keeps the invariant and the entries, and makes room for the next one.
grow-contents :
    (s : Inflights)
    → IsValid s
    → s.count < s.size
    → length s.buffer ≤ wrap s.size (s.start + s.count)
    → IsValid (grow s)
      × (contents (grow s) ≡ contents s)
      × (wrap s.size (s.start + s.count) < length (grow s).buffer)
unfolding grow
grow-contents s v room short = (ground (arith, grow_lem s), held, ground (arith, grow_lem s))
  where
    open s use {start, count, size, buffer}

    below : length buffer < size
    below = ground arith

    held : contents (grow s) ≡ contents s
    held =
        window_ext (grow s).buffer buffer size start count (ground arith) v.count_in
          λ i p. (grow_lem s below).2 (wrap size (start + i)) (ground arith)

-- On a valid ring that is not full, `Add` does not panic: the entry goes to the end of the contents,
-- and the ring stays valid with its size. On a full ring it panics.
pub add_refines :
    (s : Inflights) (x : ℕ)
    → IsValid s
    → (s.count < s.size
        → Returns
            (add s x)
            (λ t. IsValid t × (contents t ≡ contents s ++ (x ∷ [])) × (t.size ≡ s.size)))
      × (s.count ≡ s.size → add s x ≡ panic)
unfolding add grow
add_refines s x v = (
  λ room. enter room (dec_lt (wrap s.size (s.start + s.count)) (length s.buffer)),
  λ e. ground arith,
)
  where
    enter :
        s.count < s.size
        → Dec (wrap s.size (s.start + s.count) < length s.buffer)
        → Returns
            (add s x)
            (λ t. IsValid t × (contents t ≡ contents s ++ (x ∷ [])) × (t.size ≡ s.size))
    enter room (yes fits) = let (t, e, w) = write_lem s x v room fits in (t, ground arith, w)
    enter room (no short) =
        let (v', c, fits) = grow-contents s v room (omega arith) in
        let (t, e, w) = write_lem (grow s) x v' room fits in
        (t, ground arith, (w.0, w.1 ∙ ap (λ k. k ++ (x ∷ [])) c, w.2))

-- Where the loop of `FreeLE` stands: `n` entries from index `h` on lie in the buffer.
record InRing (buf : List ℕ) (size h n : ℕ) : Type 0 where
  inside : h < size
  few : n ≤ size
  grown : length buf ≤ size
  held : (h + n ≤ length buf) ⊎ (length buf ≡ size)

InRing-next :
    (buf : List ℕ) (size h n : ℕ)
    → InRing buf size h (suc n)
    → InRing buf size (wrap size (h + 1)) n
InRing-next buf size h n v = ground arith

InRing-first : (buf : List ℕ) (size h n : ℕ) → InRing buf size h (suc n) → h < length buf
InRing-first buf size h n v = ground arith

free_loop_lem :
    (buf : List ℕ) (size to h n : ℕ)
    → InRing buf size h n
    → (i idx : ℕ) × (free_loop buf size to h n ≡ ok (i, idx))
      × (i ≤ n)
      × InRing buf size idx (n - i)
      × (window buf size idx (n - i) ≡ drop_le to (window buf size h n))
unfolding free_loop
free_loop_lem buf size to h zero v = (0, h, refl, omega arith, ground arith, refl)
free_loop_lem buf size to h (suc n) v = elim (Bool-cases (ltb to (get_or buf h 0))) [
  | inl stop ↦ (0, h, rw (front, free_loop, stop), omega arith, rw all v, rw (all, stop))
  | inr more ↦
      let (i, idx, e, le, w, c) =
        free_loop_lem buf size to (wrap size (h + 1)) n (InRing-next buf size h n v) in
      let fewer : suc n - suc i ≡ n - i = omega arith in
      (suc i, idx, rw (front, free_loop, more, e), omega arith, rw fewer w, rw (fewer, more) c)
]
  where
    front : get_elem? buf h ≡ some (get_or buf h 0)
    front = get_elem?-eq-get_or buf h 0 (InRing-first buf size h n v)

    all : suc n - 0 ≡ suc n
    all = omega arith

valid-InRing : (s : Inflights) → IsValid s → 0 < s.count → InRing s.buffer s.size s.start s.count
valid-InRing s v h = ground arith

InRing-valid :
    (s : Inflights) (i idx : ℕ)
    → InRing s.buffer s.size idx (s.count - i)
    → IsValid (released s (i, idx))
InRing-valid s i idx v = ground arith

ℕ-cases : (n : ℕ) → (n ≡ 0) ⊎ ((m : ℕ) × (n ≡ suc m))
ℕ-cases zero = inl refl
ℕ-cases (suc m) = inr (m, refl)

released-contents :
    (s : Inflights) (i idx : ℕ)
    → contents (released s (i, idx)) ≡ window s.buffer s.size idx (s.count - i)
released-contents s i idx = elim (ℕ-cases (s.count - i)) [
  | inl e ↦ rw e
  | inr (n, e) ↦ rw e (ap (λ k. window s.buffer s.size k (suc n)) (nonzero n))
]
  where
    nonzero : (n : ℕ) → (if suc n == 0 then 0 else idx) ≡ idx
    nonzero n = ground arith

-- On a valid ring `FreeLE` does not panic: it drops from the front of the contents every entry up to
-- the first one above `to`, and keeps the ring valid.
pub free_le_refines :
    (s : Inflights) (to : ℕ)
    → IsValid s
    → Returns (free_le s to) (λ t. IsValid t × (contents t ≡ drop_le to (contents s)))
unfolding free_le
free_le_refines s to v = elim (ℕ-cases s.count) [
  | inl e ↦ (s, rw (e, free_le), (v, rw e))
  | inr (n, e) ↦ elim (Bool-cases (ltb to (get_or s.buffer s.start 0))) [
    | inl stop ↦ (s, rw (front (omega arith), free_le, stop) (ground arith), (v, rw e (rw stop)))
    | inr more ↦
        let (i, idx, r, le, w, c) =
          free_loop_lem s.buffer s.size to s.start s.count (valid-InRing s v (omega arith)) in
        (
          released s (i, idx),
          rw (front (omega arith), free_le, more, r) (ground arith),
          (InRing-valid s i idx w, released-contents s i idx ∙ c),
        )
  ]
]
  where
    front : 0 < s.count → get_elem? s.buffer s.start ≡ some (get_or s.buffer s.start 0)
    front h = get_elem?-eq-get_or s.buffer s.start 0 (ground arith)

-- On a valid ring that holds an entry and whose entries rise, `FreeFirstOne` drops exactly the first.
pub free_first_one_refines :
    (s : Inflights) (x y : ℕ) (rest : List ℕ)
    → IsValid s
    → contents s ≡ x ∷ y ∷ rest
    → x < y
    → Returns (free_first_one s) (λ t. IsValid t × (contents t ≡ y ∷ rest))
unfolding free_first_one
free_first_one_refines s x y rest v e h =
    let (t, r, w) = free_le_refines s x v in
    let (full, first) = front (ℕ-cases s.count) in
    (
      t,
      rw (get_elem?-eq-get_or s.buffer s.start 0 full, first, free_first_one) r,
      (w.0, w.1 ∙ ap (drop_le x) e ∙ ground arith),
    )
  where
    front :
        (s.count ≡ 0) ⊎ ((m : ℕ) × (s.count ≡ suc m))
        → (s.start < length s.buffer) × (get_or s.buffer s.start 0 ≡ x)
    front (inl p) =
        absurd (omega (arith, length-window s.buffer s.size s.start s.count, ap length e))
    front (inr (m, p)) =
        let heads : window s.buffer s.size s.start (suc m) ≡ x ∷ y ∷ rest = rw p at e in
        (ground arith, cc heads)

-- ===== src/Tracker/Inflights/Window.antt =====
-- The entries that a ring of inflights holds, and the ring's invariant.
use my_raft_kv.Prelude.{
  ℕ, zero, suc, ◌+◌, ◌≤◌, ◌<◌, ◌≡◌, refl, sym, ◌∙◌, ap, subst, ◌⊎◌, List, [], ◌∷◌, ◌++◌, length,
  get_or, length-replicate, arith,
}
use my_raft_kv.Tracker.Inflights.{Inflights, wrap, copy_over, grown_size, grow}
use mathlib.Core.Path.{ap₂}

-- The `n` entries from index `h` on, going round at `size`.
abbrev pub window : List ℕ → ℕ → ℕ → ℕ → List ℕ
window buf size h zero = []
window buf size h (suc n) = get_or buf h 0 ∷ window buf size (wrap size (h + 1)) n

abbrev pub contents : Inflights → List ℕ
contents s = window s.buffer s.size s.start s.count

-- The ring fits its size, and every index that its entries take is one of the buffer: either the
-- entries do not go round, or the buffer has grown to its full size.
pub record IsValid (s : Inflights) : Type 0 where
  pub count_in : s.count ≤ s.size
  pub buffer_in : length s.buffer ≤ s.size
  pub start_in : (s.start < s.size) ⊎ (s.start ≡ 0)
  pub held : (s.start + s.count ≤ length s.buffer) ⊎ (length s.buffer ≡ s.size)

pub length-window : (buf : List ℕ) (size h n : ℕ) → length (window buf size h n) ≡ n
length-window buf size h zero = refl
length-window buf size h (suc n) = ap suc (length-window buf size (wrap size (h + 1)) n)

wrap_step :
    (size h i : ℕ)
    → h < size
    → suc i < size
    → wrap size (wrap size (h + 1) + i) ≡ wrap size (h + suc i)
wrap_step size h i p q = ground arith

wrap_zero : (size h : ℕ) → h < size → wrap size (h + 0) ≡ h
wrap_zero size h p = ground arith

pub wrap_lt : (size h : ℕ) → h < size → wrap size (h + 1) < size
wrap_lt size h p = ground arith

-- Two buffers that agree where the entries lie hold the same entries.
pub window_ext :
    (buf buf' : List ℕ) (size h n : ℕ)
    → h < size
    → n ≤ size
    → ((i : ℕ) → i < n → get_or buf (wrap size (h + i)) 0 ≡ get_or buf' (wrap size (h + i)) 0)
    → window buf size h n ≡ window buf' size h n
window_ext buf buf' size h zero p q e = refl
window_ext buf buf' size h (suc n) p q e =
    ap₂ ◌∷◌ (subst (λ k. get_or buf k 0 ≡ get_or buf' k 0) (wrap_zero size h p) (e 0 (omega arith)))
      (window_ext buf buf' size (wrap size (h + 1)) n (wrap_lt size h p) (omega arith)
        λ i r. rw (wrap_step size h i p (omega arith)) (e (suc i) (omega arith)))

-- One more entry is one more at the end.
pub window_last :
    (buf : List ℕ) (size h n : ℕ)
    → h < size
    → n < size
    → window buf size h (suc n) ≡ window buf size h n ++ (get_or buf (wrap size (h + n)) 0 ∷ [])
window_last buf size h zero p q = ap (λ k. get_or buf k 0 ∷ []) (sym (wrap_zero size h p))
window_last buf size h (suc n) p q = ap (◌∷◌ (get_or buf h 0)) (
    window_last buf size (wrap size (h + 1)) n (wrap_lt size h p) (omega arith)
    ∙ ap (λ k. window buf size (wrap size (h + 1)) n ++ (get_or buf k 0 ∷ []))
        (wrap_step size h n p (omega arith)))

copy_over-get_or :
    (dst src : List ℕ) (i : ℕ)
    → i < length src
    → length src ≤ length dst
    → get_or (copy_over dst src) i 0 ≡ get_or src i 0
unfolding copy_over
copy_over-get_or [] src i p q = absurd (omega arith)
copy_over-get_or (x ∷ dst) [] i p q = absurd (omega arith)
copy_over-get_or (x ∷ dst) (y ∷ src) zero p q = refl
copy_over-get_or (x ∷ dst) (y ∷ src) (suc i) p q =
    copy_over-get_or dst src i (omega arith) (omega arith)

length-copy_over : (dst src : List ℕ) → length (copy_over dst src) ≡ length dst
unfolding copy_over
length-copy_over [] src = refl
length-copy_over (x ∷ dst) [] = refl
length-copy_over (x ∷ dst) (y ∷ src) = ap suc (length-copy_over dst src)

grown_size_lem :
    (len size : ℕ) → len < size → (len < grown_size len size) × (grown_size len size ≤ size)
grown_size_lem len size h = ground arith

-- A buffer below its full size grows by one place at least, not past the size, and keeps its entries.
pub grow_lem :
    (s : Inflights)
    → length s.buffer < s.size
    → (length s.buffer < length (grow s).buffer)
      × (length (grow s).buffer ≤ s.size)
      × ((i : ℕ) → i < length s.buffer → get_or (grow s).buffer i 0 ≡ get_or s.buffer i 0)
unfolding grow
grow_lem s h = (
  omega (arith, longer, grown_size_lem (length s.buffer) s.size),
  omega (arith, longer, grown_size_lem (length s.buffer) s.size),
  λ i p. copy_over-get_or _ s.buffer i p (
      omega (
        arith,
        length-replicate {0} {A = ℕ} (grown_size (length s.buffer) s.size) 0,
        grown_size_lem (length s.buffer) s.size,
      )),
)
  where
    longer : length (grow s).buffer ≡ grown_size (length s.buffer) s.size
    longer = length-copy_over _ s.buffer ∙ length-replicate (grown_size (length s.buffer) s.size) 0

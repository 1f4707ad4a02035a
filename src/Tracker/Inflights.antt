-- ===== src/Tracker/Inflights.antt =====
-- raft/tracker/inflights.go: the window of messages in flight, a ring over a buffer that grows. Go's
-- `int` fields are numbers that stay small, and an index out of range is a panic.
pub mod Window
pub mod Refine
pub mod Counts
mod Tests
use my_raft_kv.Prelude.{
  ℕ, zero, suc, ◌+◌, ◌-◌, ◌*◌, Bool, Option, none, some, List, [], ◌∷◌, ◌++◌, leb, ltb, ◌==◌,
  if◌then◌else◌, length, set, get_elem?, replicate, Result, ok, panic, ◌>>=◌, deref,
}

pub record Inflights : Type 0 where
  pub start : ℕ
  pub count : ℕ
  pub size : ℕ
  pub buffer : List ℕ

unfoldable pub new_inflights : ℕ → Inflights
new_inflights size = record { start = 0; count = 0; size = size; buffer = [] }

abbrev pub full : Inflights → Bool
full s = s.count == s.size

abbrev grown_size : ℕ → ℕ → ℕ
grown_size len size =
    let new_size = len * 2 in
    if new_size == 0 then 1 else if ltb size new_size then size else new_size

-- `copy` writes the old buffer over a zeroed one; the new one is never the shorter (`Window.grow_lem`),
-- and what does not fit is lost.
pub copy_over : List ℕ → List ℕ → List ℕ
copy_over [] src = []
copy_over (x ∷ dst) [] = x ∷ dst
copy_over (x ∷ dst) (y ∷ src) = y ∷ copy_over dst src

pub grow : Inflights → Inflights
unfolding copy_over
grow s = record s {
  buffer = copy_over (replicate (grown_size (length s.buffer) s.size) 0) s.buffer;
}

-- The index one place after, going round at `size`: `if idx++; idx >= size { idx -= size }`.
abbrev pub wrap : ℕ → ℕ → ℕ
wrap size idx = if leb size idx then idx - size else idx

-- `in.buffer[i] = v`
abbrev pub write_at : Inflights → ℕ → ℕ → Result Inflights
write_at s i v =
    if ltb i (length s.buffer)
    then ok (record s { buffer = set s.buffer i v; count = s.count + 1 })
    else panic

unfoldable pub add : Inflights → ℕ → Result Inflights
unfolding grow
add s inflight =
    let next = wrap s.size (s.start + s.count) in
    if full s
    then panic
    else write_at (if leb (length s.buffer) next then grow s else s) next inflight

-- The loop of `FreeLE`: how many entries are let go, and the index after the last of them.
pub free_loop : List ℕ → ℕ → ℕ → ℕ → ℕ → Result (ℕ × ℕ)
free_loop buffer size to idx zero = ok (0, idx)
free_loop buffer size to idx (suc n) =
    let rest = free_loop buffer size to (wrap size (idx + 1)) n in
    deref (get_elem? buffer idx) >>= λ v.
    if ltb to v then ok (0, idx) else (rest >>= λ (i, idx'). ok (suc i, idx'))

abbrev released : Inflights → ℕ × ℕ → Inflights
released s (i, idx) = record s { count = s.count - i; start = if s.count - i == 0 then 0 else idx }

unfoldable pub free_le : Inflights → ℕ → Result Inflights
unfolding free_loop
free_le s to =
    if s.count == 0
    then ok s
    else (deref (get_elem? s.buffer s.start) >>= λ v.
        if ltb to v
        then ok s
        else (free_loop s.buffer s.size to s.start s.count >>= λ r. ok (released s r)))

unfoldable pub free_first_one : Inflights → Result Inflights
free_first_one s = deref (get_elem? s.buffer s.start) >>= λ v. free_le s v

unfoldable pub reset : Inflights → Inflights
reset s = record s { count = 0; start = 0 }

-- `Clone` copies the buffer, so that the copy shares nothing.
unfoldable pub clone : Inflights → Inflights
clone s = record { start = s.start; count = s.count; size = s.size; buffer = [] ++ s.buffer }

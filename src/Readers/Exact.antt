-- ===== src/Readers/Exact.antt =====
-- Reading through the exact reader.
use my_raft_kv.Prelude.{
  ℕ, ◌+◌, ◌≤◌, ◌<◌, Bool, true, false, ◌&&◌, Option, none, some, ◌==◌, if◌then◌else◌, ltb, ◌≡◌,
  refl, subst, ◌∙◌, ◌↔◌, arith,
}
use my_raft_kv.Readers.{
  ExactReadCloser, ReadError, err_expect_eof, err_short_read, new_exact_read_closer, of_under, read,
  close,
}

-- Calls of `Read` without an error, and how many bytes they have returned together.
pub data Reads (E : Type 0) (e : ExactReadCloser) : ℕ → ExactReadCloser → Type 0 where
  start : Reads E e 0 e
  more :
      {k got : ℕ} {e' e'' : ExactReadCloser} (n : ℕ) (error : Option E)
      → Reads E e k e'
      → read e' n error ≡ (e'', got, none)
      → Reads E e (k + got) e''

-- A call of `Read` without an error.
record Went (e : ExactReadCloser) (got : ℕ) (e' : ExactReadCloser) : Type 0 where
  counted : e'.br ≡ e.br + got
  same_total : e'.total_bytes ≡ e.total_bytes
  within : e'.br ≤ e.total_bytes

module _ {E : Type 0} where
  Fine : ExactReadCloser → ExactReadCloser × ℕ × Option (ReadError E) → Type 0
  Fine e (e', got, none) = Went e got e'
  Fine e (e', got, some err) = Unit

  read-Fine : (e : ExactReadCloser) (n : ℕ) (error : Option E) → Fine e (read e n error)
  unfolding read Fine
  read-Fine e n error =
      by_tests error (ltb e.total_bytes (e.br + n)) (ltb (e.br + n) e.total_bytes && (n == 0))
        (λ h. ground (arith, h))
    where
      counted : ExactReadCloser
      counted = record e { br = e.br + n }

      by_tests :
          (error : Option E) (over short : Bool)
          → (over ≡ false → e.br + n ≤ e.total_bytes)
          → Fine e (
              if over
              then (counted, 0, some err_expect_eof)
              else if short
              then (counted, 0, some err_short_read)
              else (counted, n, of_under error))
      by_tests error true short h = tt
      by_tests error false true h = tt
      by_tests none false false h = record { counted = refl; same_total = refl; within = h refl }
      by_tests (some err) false false h = tt

  Reads-lem :
      {total k : ℕ} {e : ExactReadCloser}
      → Reads E (new_exact_read_closer total) k e
      → (e.br ≡ k) × (e.total_bytes ≡ total) × (k ≤ total)
  unfolding new_exact_read_closer Fine
  Reads-lem start = (refl, refl, omega arith)
  Reads-lem (more {k} {got} {e'} {e''} n error t h) =
      let (counted, total, within) = Reads-lem t in
      let w : Went e' got e'' = subst (Fine e') h (read-Fine e' n error) in
      (
        omega (arith, counted, w.counted),
        w.same_total ∙ total,
        omega (arith, counted, total, w.counted, w.within),
      )

  -- Calls of `Read` of a new exact reader that have no error have returned at most the bytes that are
  -- expected; and when the reader under it closes well, `Close` has no error just if they have returned
  -- all of them.
  pub Reads-exact :
      {total k : ℕ} {e : ExactReadCloser}
      → Reads E (new_exact_read_closer total) k e
      → (k ≤ total) × ((close {E = E} e none ≡ none) ↔ (k ≡ total))
  unfolding close
  Reads-exact {total} {k} {e} t =
      let (counted, same, within) = Reads-lem t in
      (within, closes (omega (arith, counted)) (omega (arith, same)) within)
    where
      closes :
          e.br ≡ k → e.total_bytes ≡ total → k ≤ total → (close {E = E} e none ≡ none) ↔ (k ≡ total)
      closes c s w =
          by_test (ltb e.br e.total_bytes) (λ h. ground (arith, h)) (λ h. ground (arith, h))
        where
          closed : Bool → Option (ReadError E)
          closed b = if b then some err_short_read else none

          by_test :
              (b : Bool)
              → (b ≡ true → e.br < e.total_bytes)
              → (b ≡ false → e.total_bytes ≤ e.br)
              → (closed b ≡ none) ↔ (k ≡ total)
          by_test true p n = (λ q. cc, λ q. absurd (omega (arith, p refl, q, c, s)))
          by_test false p n = (λ q. omega (arith, n refl, c, s, w), λ q. refl)

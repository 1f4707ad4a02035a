-- ===== src/Readers.antt =====
-- pkg/ioutil/reader.go and pkg/ioutil/readcloser.go: wrappers of a reader. What the reader under them
-- answers is an argument: the number of bytes, and its error if there is one.
pub mod Exact
mod Tests
use my_raft_kv.Prelude.{
  ℕ, ◌+◌, ◌≤◌, ◌<◌, Bool, true, false, ◌&&◌, Option, none, some, List, [], ◌∷◌, ◌==◌, if◌then◌else◌,
  ltb, take, length, ◌≡◌, refl, ◌↔◌, arith, inl, inr, Bool-cases,
}

-- The slice that the limited reader passes on.
unfoldable pub limited_slice : ℕ → List ℕ → List ℕ
limited_slice n p = if ltb n (length p) then take n p else p

pub data ReadError (E : Type 0) : Type 0 where
  under : E → ReadError E
  err_expect_eof err_short_read : ReadError E

pub record ExactReadCloser : Type 0 where
  pub br : ℕ
  pub total_bytes : ℕ

unfoldable pub new_exact_read_closer : ℕ → ExactReadCloser
new_exact_read_closer total_bytes = record { br = 0; total_bytes = total_bytes }

module _ {E : Type 0} where
  abbrev of_under : Option E → Option (ReadError E)
  of_under none = none
  of_under (some e) = some (under e)

  unfoldable pub read : ExactReadCloser → ℕ → Option E → ExactReadCloser × ℕ × Option (ReadError E)
  read e n error =
      let e' = record e { br = e.br + n } in
      if ltb e'.total_bytes e'.br
      then (e', 0, some err_expect_eof)
      else if ltb e'.br e'.total_bytes && (n == 0)
      then (e', 0, some err_short_read)
      else (e', n, of_under error)

  -- An error of the reader's own `Close` is dropped.
  unfoldable pub close : ExactReadCloser → Option E → Option (ReadError E)
  close e (some error) = none
  close e none = if ltb e.br e.total_bytes then some err_short_read else none

-- ===== src/Readers/Tests.antt =====
-- A reader of five bytes that come in two parts.
use my_raft_kv.Prelude.{ℕ, ◌≤◌, none, ◌≡◌, ◌↔◌, refl}
use my_raft_kv.Readers.{ExactReadCloser, new_exact_read_closer, read, close}
use my_raft_kv.Readers.Exact.{Reads, start, more, Reads-exact}

-- The errors of the reader under it are numbers.
abbrev ended : ExactReadCloser
ended = record { br = 5; total_bytes = 5 }

two_parts : Reads ℕ (new_exact_read_closer 5) 5 ended
unfolding read new_exact_read_closer
two_parts = more 2 none (more 3 none start refl) refl

Reads-exact_example : (5 ≤ 5) × ((close {E = ℕ} ended none ≡ none) ↔ (ended.br ≡ 5))
Reads-exact_example = Reads-exact two_parts

-- ===== src/Wal/Crc.antt =====
-- pkg/crc/crc.go: a running checksum. `crc32.Update` with the table is a parameter.
use my_raft_kv.Prelude.{ℕ, ◌/◌, ◌%◌, ◌^◌, List, [], ◌∷◌, ◌++◌, length}

pub record Digest : Type 0 where
  pub crc : ℕ

-- `Write` and `Reset` have value receivers: what they assign is the field of a copy.
module _ (update : ℕ → List ℕ → ℕ) where
  unfoldable pub write : Digest → List ℕ → Digest × ℕ
  write d p = let copy : Digest = record { crc = update d.crc p } in (d, length p)

unfoldable pub reset : Digest → Digest
reset d = let copy : Digest = record { crc = 0 } in d

unfoldable pub sum32 : Digest → ℕ
sum32 d = d.crc

-- The checksum's four bytes behind `bytes`, the highest first.
unfoldable pub sum : Digest → List ℕ → List ℕ
unfolding sum32
sum d bytes =
    let s = sum32 d in bytes ++ s / 2 ^ 24 % 256 ∷ s / 2 ^ 16 % 256 ∷ s / 2 ^ 8 % 256 ∷ s % 256 ∷ []

unfoldable pub size : Digest → ℕ
size d = 4

unfoldable pub block_size : Digest → ℕ
block_size d = 1

unfoldable pub new : ℕ → Digest
new prev = record { crc = prev }

-- ===== src/Prelude/Assoc.antt =====
-- Go maps with uint64 keys, as association lists. A Go map has no order: what is proved of a loop
-- over a map holds of every order of its entries.
use Prim.Native.Nat.{ℕ}
use mathlib.Core.Path.{◌≡◌, refl}
use mathlib.Core.List.{List, [], ◌∷◌}
use mathlib.Core.Option.{Option, none, some}
use native.Mathlib.Omega.{arith}
use my_raft_kv.Prelude.Tests.{◌==◌, if◌then◌else◌}

module _ {ℓ} {V : Type ℓ} where
  -- `v, ok := m[id]`
  unfoldable pub lookup : ℕ → List (ℕ × V) → Option V
  lookup id ((key, value) ∷ rest) = if key == id then some value else lookup id rest
  lookup id [] = none

  -- `m[k] = v`
  unfoldable pub insert : ℕ → V → List (ℕ × V) → List (ℕ × V)
  insert id new [] = (id, new) ∷ []
  insert id new ((key, value) ∷ rest) =
      if key == id then (key, new) ∷ rest else (key, value) ∷ insert id new rest

  -- `delete(m, k)`
  unfoldable pub delete : ℕ → List (ℕ × V) → List (ℕ × V)
  delete k [] = []
  delete k ((j, w) ∷ m) = let rest = delete k m in if j == k then rest else (j, w) ∷ rest

  unfoldable pub keys : List (ℕ × V) → List ℕ
  keys [] = []
  keys ((j, w) ∷ m) = j ∷ keys m

  pub lookup-insert :
      (id at : ℕ) (new : V) (entries : List (ℕ × V))
      → lookup at (insert id new entries) ≡ (if id == at then some new else lookup at entries)
  unfolding insert lookup
  lookup-insert id at new ((key, old) ∷ rest) = ground (arith, lookup-insert id at new rest)
  lookup-insert id at new [] = refl

  pub lookup-delete :
      (k j : ℕ) (m : List (ℕ × V)) → lookup j (delete k m) ≡ (if k == j then none else lookup j m)
  unfolding lookup delete
  lookup-delete k j [] = ground arith
  lookup-delete k j ((i, w) ∷ m) = ground (arith, lookup-delete k j m)

  -- A write at a key that is there leaves the keys and their order alone.
  pub keys-insert_old :
      (k : ℕ) (v w : V) (m : List (ℕ × V)) → lookup k m ≡ some w → keys (insert k v m) ≡ keys m
  unfolding lookup insert keys
  keys-insert_old k v w [] h = ground arith
  keys-insert_old k v w ((i, u) ∷ m) h = ground (arith, keys-insert_old k v w m)

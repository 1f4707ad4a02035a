-- ===== src/Prelude/Outcome.antt =====
-- What a Go function that may fail does: it returns a value, returns an error, or panics.

use mathlib.Core.Path.{◌≡◌, refl}
use mathlib.Core.Option.{Option, none, some}

-- The error values of raft/storage.go, raft/raft.go, raft/rawnode.go, and the ones that
-- `Config.validate` and `Bootstrap` make.
pub data Error : Type 0 where
  err_compacted err_unavailable err_snap_out_of_date err_snapshot_temporarily_unavailable : Error
  err_step_local_msg err_proposal_dropped err_step_peer_not_found err_stopped : Error
  none_as_id heartbeat_not_positive election_not_above_heartbeat : Error
  no_peers nonempty_storage : Error

-- A panic ends the program: nothing after it runs, and no `defer` is modelled.
pub data Result {ℓ} (X : Type ℓ) : Type ℓ where
  panic : Result X
  err : Error → Result X
  ok : X → Result X

module _ {ℓ κ} {X : Type ℓ} {Y : Type κ} where
  infixl 5 ◌>>=◌
  abbrev pub ◌>>=◌ : Result X → (X → Result Y) → Result Y
  panic >>= next = panic
  err e >>= next = err e
  ok x >>= next = next x

  -- Where a sequence of two calls returns, each of them does.
  pub both_return :
      (m : Result X) (next : X → Result Y) {y : Y}
      → (m >>= next) ≡ ok y
      → (x : X) × (m ≡ ok x) × (next x ≡ ok y)
  both_return panic next h = cc
  both_return (err e) next h = cc
  both_return (ok x) next h = (x, refl, h)

-- An index or a dereference that Go checks at run time.
abbrev pub deref {ℓ} : {X : Type ℓ} → Option X → Result X
deref (some x) = ok x
deref none = panic

-- ===== src/Prelude/Partial.antt =====
-- What holds of the result of a call that returns: a call that panics, or that returns an error in
-- place of a result, has none.
use mathlib.Core.Path.{◌≡◌, refl, ap, subst, ◌∙◌}
use mathlib.Core.Option.{Option, none, some}
use mathlib.Core.Bool.{Bool, true, false}
use my_raft_kv.Prelude.Tests.{if◌then◌else◌}
use my_raft_kv.Prelude.Outcome.{Error, Result, ok, err, panic, ◌>>=◌, deref}

pub record Always {ℓ κ} {X : Type ℓ} (P : X → Type κ) (m : Result X) : Type (ℓ ⊔ κ) where
  pub returned : (x : X) → m ≡ ok x → P x

module _ {ℓ κ} {X : Type ℓ} {P : X → Type κ} where
  pub Always-ok : {x : X} → P x → Always P (ok x)
  Always-ok {x} h = record { returned = λ y e. subst P (ok_inj e) h }
    where
      unok : Result X → X
      unok (ok y) = y
      unok _ = x

      ok_inj : {y : X} → ok x ≡ ok y → x ≡ y
      ok_inj e = ap unok e

  pub Always-panic : Always P panic
  Always-panic = record { returned = λ x e. cc }

  pub Always-err : {e : Error} → Always P (err e)
  Always-err = record { returned = λ x e. cc }

  pub Always-any : (m : Result X) → ((x : X) → P x) → Always P m
  Always-any m h = record { returned = λ x e. h x }

  pub Always-if :
      (b : Bool) {m n : Result X} → Always P m → Always P n → Always P (if b then m else n)
  Always-if true h k = h
  Always-if false h k = k

  pub Always-split :
      (b : Bool) {m n : Result X}
      → (b ≡ true → Always P m)
      → (b ≡ false → Always P n)
      → Always P (if b then m else n)
  Always-split true h k = h refl
  Always-split false h k = k refl

pub deref-found {ℓ} : {X : Type ℓ} (o : Option X) → Always (λ x. o ≡ some x) (deref o)
deref-found none = Always-panic
deref-found (some x) = Always-ok refl

module _ {ℓ κ μ} {X : Type ℓ} {P : X → Type κ} {Q : X → Type μ} where
  pub Always-map : {m : Result X} → Always P m → ((x : X) → P x → Q x) → Always Q m
  Always-map h k = record { returned = λ x e. k x (h.returned x e) }

module _ {ℓ κ μ ν} {X : Type ℓ} {Y : Type κ} {P : X → Type μ} {Q : Y → Type ν} where
  pub Always-then :
      {m : Result X} {next : X → Result Y}
      → Always P m
      → ((x : X) → P x → Always Q (next x))
      → Always Q (m >>= next)
  Always-then {m = panic} h k = Always-panic
  Always-then {m = err e} h k = record { returned = λ x e'. cc }
  Always-then {m = ok x} h k = k x (h.returned x refl)

module _ {ℓ κ ν} {X : Type ℓ} {Y : Type κ} {Q : Y → Type ν} where
  -- The call before may return anything.
  pub Always-after :
      (m : Result X) {next : X → Result Y} → ((x : X) → Always Q (next x)) → Always Q (m >>= next)
  Always-after panic k = Always-panic
  Always-after (err e) k = record { returned = λ x e'. cc }
  Always-after (ok x) k = k x

-- A call that returns, with what holds of its result.
abbrev pub Returns {ℓ κ} : {X : Type ℓ} → (X → Type κ) → Result X → Type (ℓ ⊔ κ)
Returns {X} P m = (x : X) × (m ≡ ok x) × P x

module _ {ℓ κ μ ν} {X : Type ℓ} {Y : Type κ} {P : X → Type μ} {Q : Y → Type ν} where
  pub Returns-then :
      {m : Result X} {next : X → Result Y}
      → Returns P m
      → ((x : X) → P x → Returns Q (next x))
      → Returns Q (m >>= next)
  Returns-then {next} (x, e, h) k = let (y, f, g) = k x h in (y, ap (λ m. m >>= next) e ∙ f, g)

module _ {ℓ κ} {X : Type ℓ} {P : X → Type κ} where
  pub Returns-split :
      (b : Bool) {m n : Result X}
      → (b ≡ true → Returns P m)
      → (b ≡ false → Returns P n)
      → Returns P (if b then m else n)
  Returns-split true h k = h refl
  Returns-split false h k = k refl

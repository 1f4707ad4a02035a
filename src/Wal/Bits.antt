-- ===== src/Wal/Bits.antt =====
-- `|` and `&` of a number and one that is shifted to the left.
use Prim.Native.Nat.{min, max, digits, bitwise, bit_and, bit_or, bit_and-bitwise, bit_or-bitwise}
use native.Mathlib.Nat.{pow-suc, mul_assoc, mul_comm, div-div-eq-div-mul}
use my_raft_kv.Prelude.{
  ℕ, zero, suc, ◌+◌, ◌*◌, ◌/◌, ◌%◌, ◌^◌, ◌≤◌, ◌<◌, Bool, true, ◌&&◌, ◌==◌, ◌≡◌, refl, sym, ap, ◌∙◌,
  arith, inl, inr, Bool-cases,
}

-- Two counts that are enough give the same digits.
module _ (past : ℕ → ℕ) (f : ℕ → ℕ → ℕ) where
  counts_agree : (m k x y : ℕ) → x ≤ k → x ≤ m → digits past f m x y ≡ digits past f k x y
  counts_agree zero zero zero y h g = refl
  counts_agree zero (suc k) zero y h g = refl
  counts_agree (suc m) zero zero y h g = refl
  counts_agree (suc m) (suc k) zero y h g = refl
  counts_agree zero k (suc x) y h g = absurd (omega arith)
  counts_agree (suc m) zero (suc x) y h g = absurd (omega arith)
  counts_agree (suc m) (suc k) (suc x) y h g =
      ap (λ d. d * 2 + f (suc x % 2) (y % 2))
        (counts_agree m k (suc x / 2) (y / 2) (omega arith) (omega arith))

  lowest :
      (x y : ℕ)
      → bitwise past f (suc x) y ≡ bitwise past f (suc x / 2) (y / 2) * 2 + f (suc x % 2) (y % 2)
  lowest x y =
      ap (λ d. d * 2 + f (suc x % 2) (y % 2))
        (counts_agree x (suc x / 2) (suc x / 2) (y / 2) (omega arith) (omega arith))

or_lowest : (x y : ℕ) → bit_or x y ≡ bit_or (x / 2) (y / 2) * 2 + max (x % 2) (y % 2)
or_lowest zero y = omega (arith, bit_or-bitwise 0 y, bit_or-bitwise 0 (y / 2))
or_lowest (suc x) y =
    bit_or-bitwise (suc x) y
    ∙ lowest (λ b. b) max x y
    ∙ sym (ap (λ d. d * 2 + max (suc x % 2) (y % 2)) (bit_or-bitwise (suc x / 2) (y / 2)))

and_lowest : (x y : ℕ) → bit_and x y ≡ bit_and (x / 2) (y / 2) * 2 + min (x % 2) (y % 2)
and_lowest zero y = omega (arith, bit_and-bitwise 0 y, bit_and-bitwise 0 (y / 2))
and_lowest (suc x) y =
    bit_and-bitwise (suc x) y
    ∙ lowest (λ b. 0) min x y
    ∙ sym (ap (λ d. d * 2 + min (suc x % 2) (y % 2)) (bit_and-bitwise (suc x / 2) (y / 2)))

doubled : (b k : ℕ) → b * 2 ^ suc k ≡ b * 2 ^ k * 2
doubled b k = ap (λ p. b * p) (pow-suc 2 k) ∙ sym (mul_assoc b (2 ^ k) 2)

-- Below the shifted bits there is nothing, and so `|` adds.
pub or_shifted : (k a b : ℕ) → a < 2 ^ k → bit_or a (b * 2 ^ k) ≡ a + b * 2 ^ k
or_shifted zero a b h =
    let none : a ≡ 0 = omega (arith, h) in
    ap (λ x. bit_or x (b * 2 ^ 0)) none ∙ bit_or-bitwise 0 (b * 2 ^ 0) ∙ omega (arith, none)
or_shifted (suc k) a b h = omega (
  arith,
  doubled b k,
  or_lowest a (b * 2 ^ suc k),
  half,
  or_shifted k (a / 2) b (omega (arith, h, pow-suc 2 k)),
)
  where
    half : bit_or (a / 2) (b * 2 ^ suc k / 2) ≡ bit_or (a / 2) (b * 2 ^ k)
    half = ap (bit_or (a / 2)) (omega (arith, doubled b k))

-- `&` of a number and shifted bits is that of its high part.
pub and_shifted : (k a b : ℕ) → bit_and a (b * 2 ^ k) ≡ bit_and (a / 2 ^ k) b * 2 ^ k
and_shifted zero a b =
    ap (bit_and a) {x = b * 2 ^ 0} {y = b} (omega arith)
    ∙ ap (λ x. bit_and x b) {x = a} {y = a / 2 ^ 0} (omega arith)
    ∙ omega arith
and_shifted (suc k) a b = omega (
  arith,
  and_lowest a (b * 2 ^ suc k),
  doubled b k,
  half,
  and_shifted k (a / 2) b,
  high,
  doubled (bit_and (a / 2 ^ suc k) b) k,
)
  where
    half : bit_and (a / 2) (b * 2 ^ suc k / 2) ≡ bit_and (a / 2) (b * 2 ^ k)
    half = ap (bit_and (a / 2)) (omega (arith, doubled b k))

    high : bit_and (a / 2 / 2 ^ k) b * 2 ^ k ≡ bit_and (a / 2 ^ suc k) b * 2 ^ k
    high =
        ap (λ x. bit_and x b * 2 ^ k)
          (div-div-eq-div-mul a 2 (2 ^ k)
            ∙ ap (λ p. a / p) (mul_comm 2 (2 ^ k) ∙ sym (pow-suc 2 k)))

-- Two functions on small numbers, compared by evaluation.
module _ (f g : ℕ → ℕ) where
  same_below : ℕ → Bool
  same_below zero = true
  same_below (suc n) = (f n == g n) && same_below n

  same_below_lem : (n x : ℕ) → same_below n ≡ true → x < n → f x ≡ g x
  unfolding same_below
  same_below_lem zero x e h = absurd (omega (arith, h))
  same_below_lem (suc n) x e h = elim (Bool-cases (x == n)) [
    | inl q ↦
        let here : x ≡ n = ground (arith, q) in ap f here ∙ ground (arith, e) ∙ ap g (sym here)
    | inr q ↦ same_below_lem n x (ground (arith, e)) (ground (arith, h, q))
  ]

pub and_ones : (x : ℕ) → x < 256 → bit_and x 255 ≡ x
unfolding same_below
and_ones x h = same_below_lem (λ x. bit_and x 255) (λ x. x) 256 x refl h

pub or_top : (x : ℕ) → x < 8 → bit_or 128 x ≡ 128 + x
unfolding same_below
or_top x h = same_below_lem (λ x. bit_or 128 x) (λ x. 128 + x) 8 x refl h

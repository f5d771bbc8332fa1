-- ===== src/Base/Bits.antt =====
-- `|` of a low field and a shifted one, as a sum: the code assembles little-endian values so.
use Prim.Native.Nat.{max, digits, bit_or, bit_or-bitwise}
use Prim.Native.Nat.{ℕ, zero, suc, ◌+◌, ◌*◌, ◌/◌, ◌%◌, ◌^◌, ◌≤◌, ◌<◌}
use mathlib.Core.Path.{◌≡◌, refl, ap, ◌∙◌}
use native.Mathlib.Nat.{pow-suc}
use native.Mathlib.Omega.{arith}

abbrev or_digits : ℕ → ℕ → ℕ → ℕ
or_digits = digits (λ y. y) max

-- All fuel that covers the first number gives the same digits.
or_digits-fuel : (n m x y : ℕ) → x ≤ n → x ≤ m → or_digits n x y ≡ or_digits m x y
or_digits-fuel zero zero x y h k = refl
or_digits-fuel zero (suc m) zero y h k = refl
or_digits-fuel zero (suc m) (suc x) y h k = absurd (omega arith)
or_digits-fuel (suc n) zero zero y h k = refl
or_digits-fuel (suc n) zero (suc x) y h k = absurd (omega arith)
or_digits-fuel (suc n) (suc m) zero y h k = refl
or_digits-fuel (suc n) (suc m) (suc x) y h k =
    let half = suc x / 2 in
    ap (λ t. t * 2 + max (suc x % 2) (y % 2))
      (or_digits-fuel n m half (y / 2) (omega arith) (omega arith))

zero_or : (y : ℕ) → bit_or 0 y ≡ y
zero_or y = bit_or-bitwise 0 y

-- The lowest binary digit of a disjunction.
pub bit_or_digit : (x y : ℕ) → bit_or x y ≡ bit_or (x / 2) (y / 2) * 2 + max (x % 2) (y % 2)
bit_or_digit zero y = omega (arith, zero_or y, zero_or (y / 2))
bit_or_digit (suc x) y = omega (
  arith,
  bit_or-bitwise (suc x) y,
  bit_or-bitwise (suc x / 2) (y / 2),
  or_digits-fuel x (suc x / 2) (suc x / 2) (y / 2) (omega arith) (omega arith),
)

-- `low | (high << k)`, where `low` fits `k` bits.
pub bit_or-shifted : (k low high : ℕ) → low < 2 ^ k → bit_or low (high * 2 ^ k) ≡ low + high * 2 ^ k
bit_or-shifted zero low high h =
    let none_low : low ≡ 0 = omega arith in rw none_low (zero_or (high * 2 ^ 0) ∙ omega arith)
bit_or-shifted (suc k) low high h =
    let double : high * 2 ^ suc k ≡ 2 * (high * 2 ^ k) =
      omega (arith, ap (λ (t : ℕ). high * t) (pow-suc 2 k)) in
    let halves : (high * 2 ^ suc k) / 2 ≡ high * 2 ^ k = omega (arith, double) in
    omega (
      arith,
      bit_or_digit low (high * 2 ^ suc k),
      double,
      ap (λ t. bit_or (low / 2) t) halves,
      bit_or-shifted k (low / 2) high (omega (arith, pow-suc 2 k)),
    )

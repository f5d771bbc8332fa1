-- ===== src/Pair/Lower.antt =====
-- The partial sums of src/categorical/include/pair_offset16_kernel.h: they do not wrap, and never exceed
-- the whole distance.
use booleann.Base.{ℕ, zero, suc, ◌+◌, ◌-◌, ◌*◌, ◌≤◌, ◌<◌, ◌≡◌, arith}
use booleann.Pair.{square, sum_l2, dimensions}

-- The values that an array of bytes holds.
abbrev pub IsBytes : (ℕ → ℕ) → Type 0
IsBytes f = (i : ℕ) → f i < 256

multiply_mono : (a b : ℕ) → a ≤ b → a * a ≤ b * b
multiply_mono a b h = grind arith

square-bound : (a b : ℕ) → a < 256 → b < 256 → square a b ≤ 65025
square-bound a b h k = multiply_mono (a - b + (b - a)) 255 (omega arith)

module _ (left right : ℕ → ℕ) (l : IsBytes left) (r : IsBytes right) where
  pub sum_l2-bound : (n : ℕ) → n ≤ dimensions → sum_l2 n left right ≤ n * 65025
  unfolding sum_l2
  sum_l2-bound zero h = omega arith
  sum_l2-bound (suc n) h =
      omega (arith, sum_l2-bound n (omega arith), square-bound (left n) (right n) (l n) (r n))

  pub sum_l2-suc :
      (n : ℕ)
      → n < dimensions
      → sum_l2 (suc n) left right ≡ sum_l2 n left right + square (left n) (right n)
  unfolding sum_l2
  sum_l2-suc n h =
      omega (arith, sum_l2-bound n (omega arith), square-bound (left n) (right n) (l n) (r n))

  pub sum_l2_mono : (m n : ℕ) → n + m ≤ dimensions → sum_l2 m left right ≤ sum_l2 (n + m) left right
  sum_l2_mono m zero h = grind arith
  sum_l2_mono m (suc n) h =
      grind (arith, sum_l2_mono m n (omega arith), sum_l2-suc (n + m) (omega arith))

-- A sum in two parts, the second from a later place of both arrays.
pub sum_l2-add :
    (left right : ℕ → ℕ) (l : IsBytes left) (r : IsBytes right) (m n : ℕ)
    → n + m ≤ dimensions
    → sum_l2 (n + m) left right
      ≡ sum_l2 m left right + sum_l2 n (λ i. left (m + i)) (λ i. right (m + i))
sum_l2-add left right l r m zero h = unfold sum_l2 in grind arith
sum_l2-add left right l r m (suc n) h = grind (
  arith,
  sum_l2-add left right l r m n (omega arith),
  sum_l2-suc left right l r (n + m) (omega arith),
  sum_l2-suc (λ i. left (m + i)) (λ i. right (m + i)) (λ i. l (m + i)) (λ i. r (m + i)) n
      (omega arith),
)

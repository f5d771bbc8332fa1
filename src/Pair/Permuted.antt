-- ===== src/Pair/Permuted.antt =====
-- `permute_u8_192_prevalidated` of src/categorical/include/pair_offset16_kernel.h: an order of the dimensions that
-- the query and the vectors share has no effect on the distance.
use mathlib.Core.Logic.{∥∥₁_elim}
use mathlib.Core.List.{Permᴰ}
use native.Mathlib.Nat.{ℕ_set}
use booleann.Base.{ℕ, zero, suc, ◌+◌, ◌≤◌, ◌≡◌, refl, sym, ap, ◌∙◌, List, [], ◌∷◌, map, Perm, arith}
use booleann.Pair.{square, sum_l2, squared_l2, permute, dimensions}
use booleann.Pair.Lower.{IsBytes, sum_l2-suc}

-- The numbers below `n`.
abbrev pub below : ℕ → List ℕ
below zero = []
below (suc n) = n ∷ below n

-- The sum over a list of dimensions.
unfoldable total : (ℕ → ℕ) → List ℕ → ℕ
total f [] = 0
total f (x ∷ xs) = f x + total f xs

total-Permᴰ : (f : ℕ → ℕ) {xs ys : List ℕ} → Permᴰ xs ys → total f xs ≡ total f ys
unfolding total
total-Permᴰ f Permᴰ.nil = refl
total-Permᴰ f (Permᴰ.cons {l₁ = xs} {l₂ = ys} e p) =
    let head = ap f e in let rest : total f xs ≡ total f ys = total-Permᴰ f p in omega arith
total-Permᴰ f (Permᴰ.swap e e') = let first = ap f e in let second = ap f e' in omega arith
total-Permᴰ f (Permᴰ.trans p q) = total-Permᴰ f p ∙ total-Permᴰ f q

total-Perm : (f : ℕ → ℕ) {xs ys : List ℕ} → Perm xs ys → total f xs ≡ total f ys
total-Perm f p = ∥∥₁_elim p (ℕ_set _ _) (total-Permᴰ f)

total-map : (f g : ℕ → ℕ) (xs : List ℕ) → total (λ x. f (g x)) xs ≡ total f (map g xs)
unfolding total
total-map f g [] = refl
total-map f g (x ∷ xs) = ap (◌+◌ (f (g x))) (total-map f g xs)

sum_l2-total :
    (left right : ℕ → ℕ)
    → IsBytes left
    → IsBytes right
    → (n : ℕ) → n ≤ dimensions
    → sum_l2 n left right ≡ total (λ i. square (left i) (right i)) (below n)
unfolding total
sum_l2-total left right l r zero h = unfold sum_l2 in refl
sum_l2-total left right l r (suc n) h =
    omega (
      arith,
      sum_l2-total left right l r n (omega arith),
      sum_l2-suc left right l r n (omega arith),
    )

-- The distance of two vectors of bytes stays the same when both are put in an order that takes each of the 192
-- dimensions once.
pub squared_l2-permute :
    (left right order : ℕ → ℕ)
    → IsBytes left
    → IsBytes right
    → Perm (map order (below dimensions)) (below dimensions)
    → squared_l2 (permute left order) (permute right order) ≡ squared_l2 left right
unfolding squared_l2 permute
squared_l2-permute left right order l r p =
    let term : ℕ → ℕ = λ i. square (left i) (right i) in
    sum_l2-total (λ i. left (order i)) (λ i. right (order i)) (λ i. l (order i)) (λ i. r (order i))
      dimensions (omega arith)
    ∙ total-map term order (below dimensions)
    ∙ total-Perm term p
    ∙ sym (sum_l2-total left right l r dimensions (omega arith))

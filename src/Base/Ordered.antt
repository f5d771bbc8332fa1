-- ===== src/Base/Ordered.antt =====
-- Strictly increasing lists of row numbers, the form of every posting and support.
use Prim.Native.Nat.{ℕ, ◌+◌, ◌≤◌, ◌<◌}
use mathlib.Core.Path.{◌≡◌, refl}
use mathlib.Core.Bool.{Bool, false, not, ◌&&◌, ◌||◌}
use mathlib.Core.List.{List, [], ◌∷◌}
use native.Mathlib.Omega.{arith}
use booleann.Base.Tests.{◌==◌, if◌then◌else◌}
use booleann.Base.Lists.{length}

-- `xs` increases strictly and its entries are `lo` or more.
abbrev pub IsAscendingFrom : ℕ → List ℕ → Type 0
IsAscendingFrom lo [] = Unit
IsAscendingFrom lo (x ∷ xs) = (lo ≤ x) × IsAscendingFrom (x + 1) xs

abbrev pub IsBelow : ℕ → List ℕ → Type 0
IsBelow hi [] = Unit
IsBelow hi (x ∷ xs) = (x < hi) × IsBelow hi xs

-- The row numbers of `xs` increase strictly, and none lies below `lo` or at `hi` or above.
abbrev pub IsSupport : ℕ → ℕ → List ℕ → Type 0
IsSupport lo hi xs = IsAscendingFrom lo xs × IsBelow hi xs

abbrev pub contains : List ℕ → ℕ → Bool
contains [] a = false
contains (x ∷ xs) a = (x == a) || contains xs a

unfoldable pub remove : ℕ → List ℕ → List ℕ
remove a [] = []
remove a (x ∷ xs) = if x == a then remove a xs else x ∷ remove a xs

pub IsAscendingFrom-weaken :
    (lo lo' : ℕ) (xs : List ℕ) → lo' ≤ lo → IsAscendingFrom lo xs → IsAscendingFrom lo' xs
IsAscendingFrom-weaken lo lo' [] h p = tt
IsAscendingFrom-weaken lo lo' (x ∷ xs) h p = (omega arith, p.1)

-- Nothing below the start of an increasing list is in it.
pub contains-below :
    (lo a : ℕ) (xs : List ℕ) → IsAscendingFrom lo xs → a < lo → contains xs a ≡ false
contains-below lo a [] p h = refl
contains-below lo a (x ∷ xs) p h = ground (arith, contains-below (x + 1) a xs)

pub contains-remove :
    (a b : ℕ) (xs : List ℕ) → contains (remove a xs) b ≡ (contains xs b && not (b == a))
unfolding remove
contains-remove a b [] = refl
contains-remove a b (x ∷ xs) = ground (arith, contains-remove a b xs)

pub remove-IsAscendingFrom :
    (a lo : ℕ) (xs : List ℕ) → IsAscendingFrom lo xs → IsAscendingFrom lo (remove a xs)
unfolding remove
remove-IsAscendingFrom a lo [] p = tt
remove-IsAscendingFrom a lo (x ∷ xs) p = ground (
  arith,
  remove-IsAscendingFrom a (x + 1) xs p.1,
  IsAscendingFrom-weaken (x + 1) lo (remove a xs),
)

pub length-remove : (a : ℕ) (xs : List ℕ) → length (remove a xs) ≤ length xs
unfolding remove
length-remove a [] = omega arith
length-remove a (x ∷ xs) = ground (arith, length-remove a xs)

-- ===== src/Leaf/Selection.antt =====
-- The rows that each mode of src/laion/native/leaf_posting_merge.cpp selects, as sets.
use booleann.Base.{
  ℕ, ◌+◌, ◌≤◌, ◌≡◌, refl, Bool, true, false, ◌&&◌, ◌||◌, some, List, [], ◌∷◌, if◌then◌else◌, arith,
  comparison, is_lt, is_eq, is_gt,
}
use booleann.Base.Ordered.{IsAscendingFrom, IsAscendingFrom-weaken, contains, contains-below}
use booleann.Leaf.Entry.{Mode, equality, conjunction, range, dnf2}
use booleann.Leaf.Loops.{kept, common, either}

contains-kept :
    (f : ℕ → Bool) (xs : List ℕ) (a : ℕ) → contains (kept (some f) xs) a ≡ (contains xs a && f a)
unfolding kept
contains-kept f [] a = refl
contains-kept f (x ∷ xs) a = ground (arith, contains-kept f xs a)

kept-IsAscendingFrom :
    (f : ℕ → Bool) (lo : ℕ) (xs : List ℕ)
    → IsAscendingFrom lo xs
    → IsAscendingFrom lo (kept (some f) xs)
unfolding kept
kept-IsAscendingFrom f lo [] v = tt
kept-IsAscendingFrom f lo (x ∷ xs) v = ground (
  arith,
  kept-IsAscendingFrom f (x + 1) xs v.1,
  IsAscendingFrom-weaken (x + 1) lo (kept (some f) xs),
)

contains-common :
    (lo lo' : ℕ) (xs ys : List ℕ) (a : ℕ)
    → IsAscendingFrom lo xs
    → IsAscendingFrom lo' ys
    → contains (common xs ys) a ≡ (contains xs a && contains ys a)
unfolding common
contains-common lo lo' [] ys a v w = refl
contains-common lo lo' (x ∷ xs) [] a v w = ground arith
contains-common lo lo' (x ∷ xs) (y ∷ ys) a v w = elim (comparison x y) [
  | is_lt e h ↦
      ground
        (arith, e, contains-common (x + 1) lo' xs (y ∷ ys) a v.1 w, contains-below (y + 1) a ys w.1)
  | is_eq e h ↦ ground (arith, e, contains-common (x + 1) (y + 1) xs ys a v.1 w.1)
  | is_gt e h ↦
      ground
        (arith, e, contains-common lo (y + 1) (x ∷ xs) ys a v w.1, contains-below (x + 1) a xs v.1)
]

common-IsAscendingFrom :
    (lo : ℕ) (xs ys : List ℕ)
    → IsAscendingFrom lo xs
    → IsAscendingFrom lo ys
    → IsAscendingFrom lo (common xs ys)
unfolding common
common-IsAscendingFrom lo [] ys v w = tt
common-IsAscendingFrom lo (x ∷ xs) [] v w = tt
common-IsAscendingFrom lo (x ∷ xs) (y ∷ ys) v w = elim (comparison x y) [
  | is_lt e h ↦
      rw (e, common)
        (common-IsAscendingFrom lo xs (y ∷ ys)
          (IsAscendingFrom-weaken (x + 1) lo xs (omega arith) v.1) w)
  | is_eq e h ↦ rw (e, common) (v.0, common-IsAscendingFrom (x + 1) xs ys v.1 (rw h w.1))
  | is_gt e h ↦
      rw (e, common)
        (common-IsAscendingFrom lo (x ∷ xs) ys v
          (IsAscendingFrom-weaken (y + 1) lo ys (omega arith) w.1))
]

module _ (f g : ℕ → Bool) where
  contains-either :
      (lo lo' : ℕ) (xs ys : List ℕ) (a : ℕ)
      → IsAscendingFrom lo xs
      → IsAscendingFrom lo' ys
      → contains (either f g xs ys) a ≡ (contains xs a && f a || contains ys a && g a)
  unfolding either
  contains-either lo lo' [] [] a v w = refl
  contains-either lo lo' (x ∷ xs) [] a v w =
      ground (arith, contains-either (x + 1) lo' xs [] a v.1 w)
  contains-either lo lo' [] (y ∷ ys) a v w =
      ground (arith, contains-either lo (y + 1) [] ys a v w.1)
  contains-either lo lo' (x ∷ xs) (y ∷ ys) a v w = elim (comparison x y) [
    | is_lt e h ↦ ground (arith, e, contains-either (x + 1) lo' xs (y ∷ ys) a v.1 w)
    | is_eq e h ↦ ground (arith, e, contains-either (x + 1) (y + 1) xs ys a v.1 w.1)
    | is_gt e h ↦ ground (arith, e, contains-either lo (y + 1) (x ∷ xs) ys a v w.1)
  ]

  cons_if-IsAscendingFrom :
      (keep : Bool) (lo x : ℕ) (xs : List ℕ)
      → lo ≤ x
      → IsAscendingFrom (x + 1) xs
      → IsAscendingFrom lo (if keep then x ∷ xs else xs)
  cons_if-IsAscendingFrom true lo x xs h v = (h, v)
  cons_if-IsAscendingFrom false lo x xs h v = IsAscendingFrom-weaken (x + 1) lo xs (omega arith) v

  either-IsAscendingFrom :
      (lo : ℕ) (xs ys : List ℕ)
      → IsAscendingFrom lo xs
      → IsAscendingFrom lo ys
      → IsAscendingFrom lo (either f g xs ys)
  unfolding either
  either-IsAscendingFrom lo [] [] v w = tt
  either-IsAscendingFrom lo (x ∷ xs) [] v w =
      cons_if-IsAscendingFrom (f x) lo x _ v.0 (either-IsAscendingFrom (x + 1) xs [] v.1 tt)
  either-IsAscendingFrom lo [] (y ∷ ys) v w =
      cons_if-IsAscendingFrom (g y) lo y _ w.0 (either-IsAscendingFrom (y + 1) [] ys tt w.1)
  either-IsAscendingFrom lo (x ∷ xs) (y ∷ ys) v w = elim (comparison x y) [
    | is_lt e h ↦
        rw (e, either)
          (cons_if-IsAscendingFrom (f x) lo x _ v.0
            (either-IsAscendingFrom (x + 1) xs (y ∷ ys) v.1 (omega arith, w.1)))
    | is_eq e h ↦
        rw (e, either)
          (cons_if-IsAscendingFrom (g x || f x) lo x _ v.0
            (either-IsAscendingFrom (x + 1) xs ys v.1 (rw h w.1)))
    | is_gt e h ↦
        rw (e, either)
          (cons_if-IsAscendingFrom (g y) lo y _ w.0
            (either-IsAscendingFrom (y + 1) (x ∷ xs) ys (omega arith, v.1) w.1))
  ]

  -- The rows that a mode selects from two postings, in order.
  unfoldable pub selected : Mode → List ℕ → List ℕ → List ℕ
  selected equality xs ys = xs
  selected range xs ys = kept (some f) xs
  selected conjunction xs ys = common xs ys
  selected dnf2 xs ys = either f g xs ys

  -- What a mode asks of a row: the meaning of the query.
  abbrev pub wants : Mode → List ℕ → List ℕ → ℕ → Bool
  wants equality xs ys a = contains xs a
  wants range xs ys a = contains xs a && f a
  wants conjunction xs ys a = contains xs a && contains ys a
  wants dnf2 xs ys a = contains xs a && f a || contains ys a && g a

  pub contains-selected :
      (mode : Mode) (xs ys : List ℕ) (a : ℕ)
      → IsAscendingFrom 0 xs
      → IsAscendingFrom 0 ys
      → contains (selected mode xs ys) a ≡ wants mode xs ys a
  unfolding selected
  contains-selected equality xs ys a v w = refl
  contains-selected range xs ys a v w = contains-kept f xs a
  contains-selected conjunction xs ys a v w = contains-common 0 0 xs ys a v w
  contains-selected dnf2 xs ys a v w = contains-either 0 0 xs ys a v w

  pub selected-IsAscendingFrom :
      (mode : Mode) (xs ys : List ℕ)
      → IsAscendingFrom 0 xs
      → IsAscendingFrom 0 ys
      → IsAscendingFrom 0 (selected mode xs ys)
  unfolding selected
  selected-IsAscendingFrom equality xs ys v w = v
  selected-IsAscendingFrom range xs ys v w = kept-IsAscendingFrom f 0 xs v
  selected-IsAscendingFrom conjunction xs ys v w = common-IsAscendingFrom 0 xs ys v w
  selected-IsAscendingFrom dnf2 xs ys v w = either-IsAscendingFrom 0 xs ys v w

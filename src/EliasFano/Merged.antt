-- ===== src/EliasFano/Merged.antt =====
-- The union that src/laion/native/elias_fano_topk.cpp encodes: the rows of either input, once each.
use booleann.Base.{
  ℕ, zero, suc, ◌+◌, ◌≤◌, ◌<◌, ◌≡◌, refl, sym, subst, ◌||◌, List, [], ◌∷◌, length, ◌==◌, arith,
  comparison, is_lt, is_eq, is_gt,
}
use booleann.Base.Ordered.{IsSupport, IsAscendingFrom-weaken, contains}
use booleann.EliasFano.{universe}
use booleann.EliasFano.Union.{union_rows, union_ids}

-- `rows` increase strictly from `lo`, and hold the entries of both lists and no others.
record IsUnion (lo : ℕ) (left right rows : List ℕ) : Type 0 where
  support : IsSupport lo universe rows
  entries : (a : ℕ) → contains rows a ≡ (contains left a || contains right a)

weaken-IsSupport :
    (lo lo' hi : ℕ) (xs : List ℕ) → lo' ≤ lo → IsSupport lo hi xs → IsSupport lo' hi xs
weaken-IsSupport lo lo' hi xs h p = (IsAscendingFrom-weaken lo lo' xs h p.0, p.1)

cons-IsUnion :
    (x lo : ℕ) (left right left' right' rows : List ℕ)
    → lo ≤ x
    → x < universe
    → ((a : ℕ)
        → (x == a || (contains left' a || contains right' a))
          ≡ (contains left a || contains right a))
    → IsUnion (x + 1) left' right' rows
    → IsUnion lo left right (x ∷ rows)
cons-IsUnion x lo left right left' right' rows h k same rest = record {
  support = ((h, rest.support.0), (k, rest.support.1));
  entries = λ a. rw (rest.entries a) (same a);
}

module _ (fuel x y : ℕ) (left right : List ℕ) where
  union_rows-left : x < universe → union_rows (suc fuel) (x ∷ left) [] ≡ x ∷ union_rows fuel left []
  unfolding union_rows
  union_rows-left h = ground arith

  union_rows-right :
      y < universe → union_rows (suc fuel) [] (y ∷ right) ≡ y ∷ union_rows fuel [] right
  unfolding union_rows
  union_rows-right h = ground arith

  union_rows-lt :
      x < y → union_rows (suc fuel) (x ∷ left) (y ∷ right) ≡ x ∷ union_rows fuel left (y ∷ right)
  unfolding union_rows
  union_rows-lt h = ground arith

  union_rows-gt :
      y < x → union_rows (suc fuel) (x ∷ left) (y ∷ right) ≡ y ∷ union_rows fuel (x ∷ left) right
  unfolding union_rows
  union_rows-gt h = ground arith

  union_rows-eq :
      x ≡ y → union_rows (suc fuel) (x ∷ left) (y ∷ right) ≡ x ∷ union_rows fuel left right
  unfolding union_rows
  union_rows-eq h = ground arith

union_rows-IsUnion :
    (fuel lo : ℕ) (left right : List ℕ)
    → length left + length right ≤ fuel
    → IsSupport lo universe left
    → IsSupport lo universe right
    → IsUnion lo left right (union_rows fuel left right)
unfolding union_rows
union_rows-IsUnion zero lo [] [] h p q = record { support = (tt, tt); entries = λ a. refl }
union_rows-IsUnion zero lo (x ∷ left) right h p q = absurd (omega arith)
union_rows-IsUnion zero lo [] (y ∷ right) h p q = absurd (omega arith)
union_rows-IsUnion (suc fuel) lo [] [] h p q = record { support = (tt, tt); entries = λ a. refl }
union_rows-IsUnion (suc fuel) lo (x ∷ left) [] h p q =
    subst (IsUnion lo (x ∷ left) []) (sym (union_rows-left fuel x x left [] p.1.0)) (
      cons-IsUnion x lo (x ∷ left) [] left [] _ p.0.0 p.1.0 (λ a. ground arith)
        (union_rows-IsUnion fuel (x + 1) left [] (omega arith) (p.0.1, p.1.1) (tt, tt)))
union_rows-IsUnion (suc fuel) lo [] (y ∷ right) h p q =
    subst (IsUnion lo [] (y ∷ right)) (sym (union_rows-right fuel y y [] right q.1.0)) (
      cons-IsUnion y lo [] (y ∷ right) [] right _ q.0.0 q.1.0 (λ a. ground arith)
        (union_rows-IsUnion fuel (y + 1) [] right (omega arith) (tt, tt) (q.0.1, q.1.1)))
union_rows-IsUnion (suc fuel) lo (x ∷ left) (y ∷ right) h p q = elim (comparison x y) [
  | is_lt e k ↦
      subst (IsUnion lo (x ∷ left) (y ∷ right)) (sym (union_rows-lt fuel x y left right k)) (
        cons-IsUnion x lo (x ∷ left) (y ∷ right) left (y ∷ right) _ p.0.0 p.1.0 (λ a. ground arith)
          (union_rows-IsUnion fuel (x + 1) left (y ∷ right) (omega arith) (p.0.1, p.1.1)
            ((omega arith, q.0.1), q.1)))
  | is_eq e k ↦
      subst (IsUnion lo (x ∷ left) (y ∷ right)) (sym (union_rows-eq fuel x y left right k)) (
        cons-IsUnion x lo (x ∷ left) (y ∷ right) left right _ p.0.0 p.1.0 (λ a. ground (arith, k))
          (union_rows-IsUnion fuel (x + 1) left right (omega arith) (p.0.1, p.1.1)
            (weaken-IsSupport (y + 1) (x + 1) universe right (omega arith) (q.0.1, q.1.1))))
  | is_gt e k ↦
      subst (IsUnion lo (x ∷ left) (y ∷ right)) (sym (union_rows-gt fuel x y left right k)) (
        cons-IsUnion y lo (x ∷ left) (y ∷ right) (x ∷ left) right _ q.0.0 q.1.0 (λ a. ground arith)
          (union_rows-IsUnion fuel (y + 1) (x ∷ left) right (omega arith)
            ((omega arith, p.0.1), p.1) (q.0.1, q.1.1)))
]

-- The union of two supports is a support, and holds the rows of either one and no others.
pub union_ids_iff :
    (left right : List ℕ)
    → IsSupport 0 universe left
    → IsSupport 0 universe right
    → IsSupport 0 universe (union_ids left right)
      × ((a : ℕ) → contains (union_ids left right) a ≡ (contains left a || contains right a))
unfolding union_ids
union_ids_iff left right p q =
    let merged = union_rows-IsUnion (length left + length right) 0 left right (omega arith) p q in
    (merged.support, merged.entries)

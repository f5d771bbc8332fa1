-- ===== src/Leaf/Loops.antt =====
-- The loops of src/laion/native/leaf_posting_merge.cpp on postings that increase: each emits, in
-- order, the rows that its operation on sets of rows selects.
use Prim.Native.Nat.{compare, Ordering}
use booleann.Base.{
  ℕ, ◌+◌, ◌≤◌, ◌<◌, ◌≡◌, refl, Bool, true, false, ◌||◌, Option, none, some, List, [], ◌∷◌,
  if◌then◌else◌, arith, comparison, is_lt, is_eq, is_gt, map, pos,
}
use booleann.Base.Ordered.{IsSupport}
use booleann.Leaf.Emit.{Status, ok, Emission, emit_or_remove, checked_id}
use booleann.Leaf.Merge.{
  Progress, Limits, emit_if, scan_row, scan, intersect, left_row, right_row, both_row, unite,
  visit_left, visit_right, count_check, unless_failed,
}
use booleann.Leaf.Emission.{emit_all}

-- The first id that may follow `previous`.
abbrev pub after : Option ℕ → ℕ
after none = 0
after (some previous) = previous + 1

-- What `emit_or_remove` made of a run of the loop.
abbrev pub emitted : Status × Progress → Status × Emission
emitted (status, p) = (status, p.emission)

-- The rows that a loop selects, as operations on increasing lists.
unfoldable pub kept : Option (ℕ → Bool) → List ℕ → List ℕ
kept none xs = xs
kept (some test) [] = []
kept (some test) (x ∷ xs) = if test x then x ∷ kept (some test) xs else kept (some test) xs

unfoldable pub common : List ℕ → List ℕ → List ℕ
common (x ∷ xs) (y ∷ ys) = elim (compare x y) [
  | Ordering.lt ↦ common xs (y ∷ ys)
  | Ordering.gt ↦ common (x ∷ xs) ys
  | Ordering.eq ↦ x ∷ common xs ys
]
common _ _ = []

abbrev cons_if : Bool → ℕ → List ℕ → List ℕ
cons_if b x xs = if b then x ∷ xs else xs

unfoldable pub either : (ℕ → Bool) → (ℕ → Bool) → List ℕ → List ℕ → List ℕ
either f g [] [] = []
either f g (x ∷ xs) [] = cons_if (f x) x (either f g xs [])
either f g [] (y ∷ ys) = cons_if (g y) y (either f g [] ys)
either f g (x ∷ xs) (y ∷ ys) = elim (compare x y) [
  | Ordering.lt ↦ cons_if (f x) x (either f g xs (y ∷ ys))
  | Ordering.gt ↦ cons_if (g y) y (either f g (x ∷ xs) ys)
  | Ordering.eq ↦ cons_if (g x || f x) x (either f g xs ys)
]

checked_id-some :
    (u : ℕ) (previous : Option ℕ) (x : ℕ)
    → x < u
    → after previous ≤ x
    → checked_id (pos u) previous (pos x) ≡ some x
unfolding checked_id
checked_id-some u none x h k = ground arith
checked_id-some u (some previous) x h k = ground arith

module _ (u self_id capacity : ℕ) where
  abbrev pub limits : Limits
  limits = record { universe = pos u; self_id = self_id; output_capacity = capacity }

  -- One row of a loop, and then the rest of it.
  module _ (p : Progress) (next : Progress → Status × Progress) (rest : List ℕ)
      (goes_on : (p' : Progress)
        → emitted (next p') ≡ emit_all self_id capacity rest p'.emission) where
    emitted-unless_failed :
        (r : Status × Emission)
        → emitted (unless_failed (r.0, record p { emission = r.1 }) next)
          ≡ elim r.0 [ ok ↦ emit_all self_id capacity rest r.1 | other ↦ (other, r.1) ]
    emitted-unless_failed (ok, e) = goes_on (record p { emission = e })
    emitted-unless_failed (_, e) = refl

    emitted-row :
        (keep : Bool) (id : ℕ)
        → emitted (unless_failed (emit_if limits keep id p) next)
          ≡ emit_all self_id capacity (cons_if keep id rest) p.emission
    unfolding emit_if emit_all
    emitted-row false id = goes_on p
    emitted-row true id = emitted-unless_failed (emit_or_remove self_id capacity id p.emission)

  pub scan-emit_all :
      (test : Option (ℕ → Bool)) (previous : Option ℕ) (xs : List ℕ) (p : Progress)
      → IsSupport (after previous) u xs
      → emitted (scan limits test previous (map pos xs) p)
        ≡ emit_all self_id capacity (kept test xs) p.emission
  unfolding scan kept emit_all scan_row
  scan-emit_all none previous [] p v = refl
  scan-emit_all none previous (x ∷ xs) p v =
      rw (checked_id-some u previous x v.1.0 v.0.0, scan)
        (emitted-row (visit_left p) _ xs (λ p'. scan-emit_all none (some x) xs p' (v.0.1, v.1.1))
          true x)
  scan-emit_all (some test) previous [] p v = refl
  scan-emit_all (some test) previous (x ∷ xs) p v =
      rw (checked_id-some u previous x v.1.0 v.0.0, scan)
        (emitted-row (count_check (visit_left p)) _ (kept (some test) xs)
          (λ p'. scan-emit_all (some test) (some x) xs p' (v.0.1, v.1.1)) (test x) x)

  pub intersect-emit_all :
      (left_previous right_previous : Option ℕ) (xs ys : List ℕ) (p : Progress)
      → IsSupport (after left_previous) u xs
      → IsSupport (after right_previous) u ys
      → emitted (intersect limits left_previous right_previous (map pos xs) (map pos ys) p)
        ≡ emit_all self_id capacity (common xs ys) p.emission
  unfolding intersect common emit_all
  intersect-emit_all lp rp [] ys p v w = refl
  intersect-emit_all lp rp (x ∷ xs) [] p v w = refl
  intersect-emit_all lp rp (x ∷ xs) (y ∷ ys) p v w =
      rw (checked_id-some u lp x v.1.0 v.0.0, checked_id-some u rp y w.1.0 w.0.0, intersect)
        (elim (comparison x y) [
          | is_lt e h ↦
              rw (e, common)
                (intersect-emit_all (some x) rp xs (y ∷ ys) (visit_left p) (v.0.1, v.1.1) w)
          | is_eq e h ↦
              rw (e, common)
                (emitted-row (visit_right (visit_left p)) _ (common xs ys)
                  (λ p'.
                    intersect-emit_all (some x) (some y) xs ys p' (v.0.1, v.1.1) (w.0.1, w.1.1))
                  true x)
          | is_gt e h ↦
              rw (e, common)
                (intersect-emit_all lp (some y) (x ∷ xs) ys (visit_right p) v (w.0.1, w.1.1))
        ])

  module _ (f g : ℕ → Bool) where
    pub unite-emit_all :
        (left_previous right_previous : Option ℕ) (xs ys : List ℕ) (p : Progress)
        → IsSupport (after left_previous) u xs
        → IsSupport (after right_previous) u ys
        → emitted (unite limits f g left_previous right_previous (map pos xs) (map pos ys) p)
          ≡ emit_all self_id capacity (either f g xs ys) p.emission
    unfolding unite either emit_all left_row right_row both_row
    unite-emit_all lp rp [] [] p v w = refl
    unite-emit_all lp rp (x ∷ xs) [] p v w =
        rw (checked_id-some u lp x v.1.0 v.0.0, unite)
          (emitted-row (count_check (visit_left p)) _ (either f g xs [])
            (λ p'. unite-emit_all (some x) rp xs [] p' (v.0.1, v.1.1) w) (f x) x)
    unite-emit_all lp rp [] (y ∷ ys) p v w =
        rw (checked_id-some u rp y w.1.0 w.0.0, unite)
          (emitted-row (count_check (visit_right p)) _ (either f g [] ys)
            (λ p'. unite-emit_all lp (some y) [] ys p' v (w.0.1, w.1.1)) (g y) y)
    unite-emit_all lp rp (x ∷ xs) (y ∷ ys) p v w =
        rw (checked_id-some u lp x v.1.0 v.0.0, checked_id-some u rp y w.1.0 w.0.0, unite)
          (elim (comparison x y) [
            | is_lt e h ↦
                rw (e, either)
                  (emitted-row (count_check (visit_left p)) _ (either f g xs (y ∷ ys))
                    (λ p'. unite-emit_all (some x) rp xs (y ∷ ys) p' (v.0.1, v.1.1) w) (f x) x)
            | is_eq e h ↦
                rw (e, either)
                  (emitted-row (count_check (visit_right (count_check (visit_left p)))) _
                    (either f g xs ys)
                    (λ p'. unite-emit_all (some x) (some y) xs ys p' (v.0.1, v.1.1) (w.0.1, w.1.1))
                    (g x || f x) x)
            | is_gt e h ↦
                rw (e, either)
                  (emitted-row (count_check (visit_right p)) _ (either f g (x ∷ xs) ys)
                    (λ p'. unite-emit_all lp (some y) (x ∷ xs) ys p' v (w.0.1, w.1.1)) (g y) y)
          ])

-- ===== src/Leaf/Merge.antt =====
-- src/laion/native/leaf_posting_merge.cpp: the three loops of the merge. A loop over an array and an
-- index is a recursion on the entries that are left.
use Prim.Native.Nat.{compare, Ordering}
use booleann.Base.{ℕ, ◌+◌, Bool, true, false, ◌||◌, Option, none, some, List, [], ◌∷◌, ℤ}
use booleann.Leaf.Emit.{Status, ok, bad_posting, Emission, checked_id, emit_or_remove}

-- The output and the audit array.
pub record Progress : Type 0 where
  pub emission : Emission
  pub left_visited : ℕ
  pub right_visited : ℕ
  pub predicate_checks : ℕ

-- What stays fixed during a call.
pub record Limits : Type 0 where
  pub universe : ℤ
  pub self_id : ℕ
  pub output_capacity : ℕ

abbrev pub visit_left : Progress → Progress
visit_left p = record p { left_visited = p.left_visited + 1 }

abbrev pub visit_right : Progress → Progress
visit_right p = record p { right_visited = p.right_visited + 1 }

abbrev pub count_check : Progress → Progress
count_check p = record p { predicate_checks = p.predicate_checks + 1 }

-- `if (status != kOk) return status;`
abbrev pub unless_failed : Status × Progress → (Progress → Status × Progress) → Status × Progress
unless_failed (ok, p) next = next p
unless_failed (other, p) next = (other, p)

module _ (limits : Limits) where
  -- `if (keep) status = emit_or_remove(...)`
  unfoldable pub emit_if : Bool → ℕ → Progress → Status × Progress
  emit_if false id p = (ok, p)
  emit_if true id p =
      let (status, e) = emit_or_remove limits.self_id limits.output_capacity id p.emission in
      (status, record p { emission = e })

  -- One row of the first loop. A range query has a test, an equality query has none.
  unfoldable pub scan_row : Option (ℕ → Bool) → ℕ → Progress → Status × Progress
  unfolding emit_if
  scan_row none id p = emit_if true id (visit_left p)
  scan_row (some test) id p = emit_if (test id) id (count_check (visit_left p))

  -- Equality and range.
  unfoldable pub scan : Option (ℕ → Bool) → Option ℕ → List ℤ → Progress → Status × Progress
  scan test previous [] p = (ok, p)
  scan test previous (x ∷ xs) p = elim (checked_id limits.universe previous x) [
    | none ↦ (bad_posting, p)
    | some id ↦ unless_failed (scan_row test id p) (λ p'. scan test (some id) xs p')
  ]

  -- Conjunction.
  unfoldable pub intersect : Option ℕ → Option ℕ → List ℤ → List ℤ → Progress → Status × Progress
  intersect left_previous right_previous (x ∷ xs) (y ∷ ys) p =
      elim (checked_id limits.universe left_previous x) [
        | none ↦ (bad_posting, p)
        | some left_id ↦ elim (checked_id limits.universe right_previous y) [
          | none ↦ (bad_posting, p)
          | some right_id ↦ elim (compare left_id right_id) [
            | Ordering.lt ↦ intersect (some left_id) right_previous xs (y ∷ ys) (visit_left p)
            | Ordering.gt ↦ intersect left_previous (some right_id) (x ∷ xs) ys (visit_right p)
            | Ordering.eq ↦
                unless_failed (emit_if true left_id (visit_right (visit_left p)))
                  (λ p'. intersect (some left_id) (some right_id) xs ys p')
          ]
        ]
      ]
  intersect left_previous right_previous _ _ p = (ok, p)

  module _ (left_test right_test : ℕ → Bool) where
    unfoldable pub left_row : ℕ → Progress → Status × Progress
    unfolding emit_if
    left_row id p = emit_if (left_test id) id (count_check (visit_left p))

    unfoldable pub right_row : ℕ → Progress → Status × Progress
    unfolding emit_if
    right_row id p = emit_if (right_test id) id (count_check (visit_right p))

    unfoldable pub both_row : ℕ → Progress → Status × Progress
    unfolding emit_if
    both_row id p =
        emit_if (right_test id || left_test id) id
          (count_check (visit_right (count_check (visit_left p))))

    -- A disjunction of two ranges. In the code the head of an exhausted posting is INT32_MAX, which
    -- no checked id reaches, since it is below the universe.
    unfoldable pub unite : Option ℕ → Option ℕ → List ℤ → List ℤ → Progress → Status × Progress
    unite left_previous right_previous [] [] p = (ok, p)
    unite left_previous right_previous (x ∷ xs) [] p =
        elim (checked_id limits.universe left_previous x) [
          | none ↦ (bad_posting, p)
          | some id ↦ unless_failed (left_row id p) (λ p'. unite (some id) right_previous xs [] p')
        ]
    unite left_previous right_previous [] (y ∷ ys) p =
        elim (checked_id limits.universe right_previous y) [
          | none ↦ (bad_posting, p)
          | some id ↦ unless_failed (right_row id p) (λ p'. unite left_previous (some id) [] ys p')
        ]
    unite left_previous right_previous (x ∷ xs) (y ∷ ys) p =
        elim (checked_id limits.universe left_previous x) [
          | none ↦ (bad_posting, p)
          | some left_id ↦ elim (checked_id limits.universe right_previous y) [
            | none ↦ (bad_posting, p)
            | some right_id ↦ elim (compare left_id right_id) [
              | Ordering.lt ↦
                  unless_failed (left_row left_id p)
                    (λ p'. unite (some left_id) right_previous xs (y ∷ ys) p')
              | Ordering.gt ↦
                  unless_failed (right_row right_id p)
                    (λ p'. unite left_previous (some right_id) (x ∷ xs) ys p')
              | Ordering.eq ↦
                  unless_failed (both_row left_id p)
                    (λ p'. unite (some left_id) (some right_id) xs ys p')
            ]
          ]
        ]

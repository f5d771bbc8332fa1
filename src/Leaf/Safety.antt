-- ===== src/Leaf/Safety.antt =====
-- What holds of src/laion/native/leaf_posting_merge.cpp on every input, postings out of order included.
use Prim.Native.Nat.{compare, Ordering}
use booleann.Base.{
  ℕ, ◌+◌, ◌-◌, ◌≤◌, ◌<◌, ◌≡◌, refl, sym, subst, ◌∙◌, Bool, true, false, ◌||◌, Option, none, some,
  List, [], ◌∷◌, ◌++◌, ltb, if◌then◌else◌, length, length-append, get_or, arith, ◌⊎◌, inl, inr, ℤ,
}
use mathlib.Core.Option.{some-injective}
use booleann.Base.Double.{Double}
use booleann.Base.Ordered.{IsAscendingFrom}
use booleann.Leaf.Emit.{Status, ok, bad_posting, bad_argument, Emission, emit_or_remove, checked_id}
use booleann.Leaf.Merge.{
  Progress, Limits, visit_left, visit_right, count_check, unless_failed, emit_if, scan_row, scan,
  intersect, left_row, right_row, both_row, unite,
}
use booleann.Leaf.Entry.{
  Mode, equality, conjunction, range, dnf2, entries, Request, refusal, reset_audit, run_mode,
  limits_of, merge_rows, require_self, answer, sorted_posting_merge,
}

append-IsAscendingFrom :
    (lo id : ℕ) (xs : List ℕ)
    → IsAscendingFrom lo xs
    → (length xs ≡ 0 → lo ≤ id)
    → (0 < length xs → get_or xs (length xs - 1) 0 < id)
    → IsAscendingFrom lo (xs ++ id ∷ [])
append-IsAscendingFrom lo id [] v first last = (first refl, tt)
append-IsAscendingFrom lo id (x ∷ []) v first last = (v.0, (omega (arith, last (omega arith)), tt))
append-IsAscendingFrom lo id (x ∷ y ∷ xs) v first last = (
  v.0,
  append-IsAscendingFrom (x + 1) id (y ∷ xs) v.1 (λ h. absurd (omega arith))
      (λ h. ground (arith, last (omega arith))),
)

-- The rows written are counted, fit the output, and increase strictly.
pub record IsBounded (capacity : ℕ) (e : Emission) : Type 0 where
  pub counted : e.output_rows ≡ length e.output
  pub within : e.output_rows ≤ capacity
  pub increasing : IsAscendingFrom 0 e.output

emit_or_remove-IsBounded :
    (self_id capacity id : ℕ) (e : Emission)
    → IsBounded capacity e
    → IsBounded capacity (emit_or_remove self_id capacity id e).1
unfolding emit_or_remove
emit_or_remove-IsBounded self_id capacity id e v =
    ground
      (arith, length-append e.output (id ∷ []), append-IsAscendingFrom 0 id e.output v.increasing)

module _ (limits : Limits) where
  abbrev Bounded : Progress → Type 0
  Bounded p = IsBounded limits.output_capacity p.emission

  emit_if-Bounded :
      (keep : Bool) (id : ℕ) (p : Progress) → Bounded p → Bounded (emit_if limits keep id p).1
  unfolding emit_if
  emit_if-Bounded false id p v = v
  emit_if-Bounded true id p v = emit_or_remove-IsBounded _ _ id p.emission v

  unless_failed-Bounded :
      (r : Status × Progress) (next : Progress → Status × Progress)
      → Bounded r.1
      → ((p : Progress) → Bounded p → Bounded (next p).1)
      → Bounded (unless_failed r next).1
  unless_failed-Bounded (ok, p) next v k = k p v
  unless_failed-Bounded (_, p) next v k = v

  checked-Bounded :
      (found : Option ℕ) (p : Progress) (next : ℕ → Status × Progress)
      → Bounded p
      → ((id : ℕ) → Bounded (next id).1)
      → Bounded
          (elim found as (λ _. Status × Progress) [ none ↦ (bad_posting, p) | some id ↦ next id ]).1
  checked-Bounded none p next v k = v
  checked-Bounded (some id) p next v k = k id

  compared-Bounded :
      (o : Ordering) (lt gt eq : Status × Progress)
      → Bounded lt.1
      → Bounded gt.1
      → Bounded eq.1
      → Bounded
          (elim o as (λ _. Status × Progress) [
            | Ordering.lt ↦ lt
            | Ordering.gt ↦ gt
            | Ordering.eq ↦ eq
          ]).1
  compared-Bounded Ordering.lt lt gt eq a b c = a
  compared-Bounded Ordering.gt lt gt eq a b c = b
  compared-Bounded Ordering.eq lt gt eq a b c = c

  scan-Bounded :
      (test : Option (ℕ → Bool)) (previous : Option ℕ) (xs : List ℤ) (p : Progress)
      → Bounded p
      → Bounded (scan limits test previous xs p).1
  unfolding scan scan_row
  scan-Bounded test previous [] p v = v
  scan-Bounded none previous (x ∷ xs) p v =
      checked-Bounded (checked_id limits.universe previous x) p _ v λ id.
        unless_failed-Bounded (emit_if limits true id (visit_left p)) _
          (emit_if-Bounded true id (visit_left p) v) (λ p' v'. scan-Bounded none (some id) xs p' v')
  scan-Bounded (some test) previous (x ∷ xs) p v =
      checked-Bounded (checked_id limits.universe previous x) p _ v λ id.
        unless_failed-Bounded (emit_if limits (test id) id (count_check (visit_left p))) _
          (emit_if-Bounded (test id) id (count_check (visit_left p)) v)
          (λ p' v'. scan-Bounded (some test) (some id) xs p' v')

  intersect-Bounded :
      (left_previous right_previous : Option ℕ) (xs ys : List ℤ) (p : Progress)
      → Bounded p
      → Bounded (intersect limits left_previous right_previous xs ys p).1
  unfolding intersect
  intersect-Bounded lp rp [] ys p v = v
  intersect-Bounded lp rp (x ∷ xs) [] p v = v
  intersect-Bounded lp rp (x ∷ xs) (y ∷ ys) p v =
      checked-Bounded (checked_id limits.universe lp x) p _ v λ a.
        checked-Bounded (checked_id limits.universe rp y) p _ v λ b.
          compared-Bounded (compare a b) _ _ _
            (intersect-Bounded (some a) rp xs (y ∷ ys) (visit_left p) v)
            (intersect-Bounded lp (some b) (x ∷ xs) ys (visit_right p) v)
            (unless_failed-Bounded (emit_if limits true a (visit_right (visit_left p))) _
              (emit_if-Bounded true a (visit_right (visit_left p)) v)
              (λ p' v'. intersect-Bounded (some a) (some b) xs ys p' v'))

  module _ (f g : ℕ → Bool) where
    unite-Bounded :
        (left_previous right_previous : Option ℕ) (xs ys : List ℤ) (p : Progress)
        → Bounded p
        → Bounded (unite limits f g left_previous right_previous xs ys p).1
    unfolding unite left_row right_row both_row
    unite-Bounded lp rp [] [] p v = v
    unite-Bounded lp rp (x ∷ xs) [] p v =
        checked-Bounded (checked_id limits.universe lp x) p _ v λ a.
          unless_failed-Bounded (left_row limits f g a p) _ (emit_if-Bounded (f a) a _ v)
            (λ p' v'. unite-Bounded (some a) rp xs [] p' v')
    unite-Bounded lp rp [] (y ∷ ys) p v =
        checked-Bounded (checked_id limits.universe rp y) p _ v λ b.
          unless_failed-Bounded (right_row limits f g b p) _ (emit_if-Bounded (g b) b _ v)
            (λ p' v'. unite-Bounded lp (some b) [] ys p' v')
    unite-Bounded lp rp (x ∷ xs) (y ∷ ys) p v =
        checked-Bounded (checked_id limits.universe lp x) p _ v λ a.
          checked-Bounded (checked_id limits.universe rp y) p _ v λ b.
            compared-Bounded (compare a b) _ _ _
              (unless_failed-Bounded (left_row limits f g a p) _ (emit_if-Bounded (f a) a _ v)
                (λ p' v'. unite-Bounded (some a) rp xs (y ∷ ys) p' v'))
              (unless_failed-Bounded (right_row limits f g b p) _ (emit_if-Bounded (g b) b _ v)
                (λ p' v'. unite-Bounded lp (some b) (x ∷ xs) ys p' v'))
              (unless_failed-Bounded (both_row limits f g a p) _
                (emit_if-Bounded (g a || f a) a _ v)
                (λ p' v'. unite-Bounded (some a) (some b) xs ys p' v'))

  run_mode-Bounded :
      (mode : Mode) (f g : ℕ → Bool) (xs ys : List ℤ) → Bounded (run_mode limits mode f g xs ys).1
  unfolding run_mode
  run_mode-Bounded equality f g xs ys = scan-Bounded none none xs reset_audit (omega arith)
  run_mode-Bounded range f g xs ys = scan-Bounded (some f) none xs reset_audit (omega arith)
  run_mode-Bounded conjunction f g xs ys =
      intersect-Bounded none none xs ys reset_audit (omega arith)
  run_mode-Bounded dnf2 f g xs ys = unite-Bounded f g none none xs ys reset_audit (omega arith)

require_self-progress : (m : Status × Progress) → (require_self m).1 ≡ m.1
require_self-progress (ok, p) = refl
require_self-progress (_, p) = refl

unrefused :
    (short : Bool) (found : Status × Option Progress) {p : Progress}
    → (if short then (bad_argument, none) else found).1 ≡ some p
    → found.1 ≡ some p
unrefused true found h = cc
unrefused false found h = h

module _ (double : Double) where
  answer-IsBounded :
      (r : Request double) (found : Status ⊎ Mode) (p : Progress)
      → (answer double r found).1 ≡ some p
      → IsBounded r.output_capacity p.emission
  unfolding merge_rows limits_of
  answer-IsBounded r (inl status) p h =
      subst (λ q. IsBounded r.output_capacity q.emission) (some-injective _ _ h) (omega arith)
  answer-IsBounded r (inr mode) p h =
      subst (λ q. IsBounded r.output_capacity q.emission)
        (sym (require_self-progress (merge_rows double mode r)) ∙ some-injective _ _ h)
        (run_mode-Bounded (limits_of double r) mode _ _ (entries r.left) (entries r.right))

  -- Whatever the postings hold and whatever the status, the merge writes no more rows than the
  -- output holds, counts exactly the rows that it wrote, and they increase strictly.
  pub sorted_posting_merge-IsBounded :
      (r : Request double) (p : Progress)
      → (sorted_posting_merge double r).1 ≡ some p
      → IsBounded r.output_capacity p.emission
  unfolding sorted_posting_merge merge_rows
  sorted_posting_merge-IsBounded r p h =
      answer-IsBounded r (refusal double r) p (unrefused (ltb r.audit_slots 8) _ h)

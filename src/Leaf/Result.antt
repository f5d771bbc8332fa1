-- ===== src/Leaf/Result.antt =====
-- What `laion1m_leaf_sorted_posting_merge_v1` returns on postings that increase strictly.
use booleann.Base.{
  ℕ, ◌+◌, ◌≤◌, ◌<◌, ◌≡◌, refl, ap, ◌∙◌, Bool, not, ◌&&◌, none, some, List, ◌==◌, if◌then◌else◌,
  length, arith, inr, take, map, pos, pos_part,
}
use booleann.Base.Double.{Double}
use booleann.Base.Ordered.{
  IsAscendingFrom, IsSupport, contains, remove, remove-IsAscendingFrom, contains-remove,
}
use booleann.Leaf.Emit.{Status, ok, missing_self, overflow, Emission}
use booleann.Leaf.Merge.{Progress}
use booleann.Leaf.Entry.{
  Mode, equality, conjunction, range, dnf2, entries, row_test, Request, refusal, reset_audit,
  run_mode, limits_of, merge_rows, require_self, sorted_posting_merge,
}
use booleann.Leaf.Emission.{emit_all, emit_all-fits, emit_all-overflows, IsReady}
use booleann.Leaf.Loops.{limits, emitted, scan-emit_all, intersect-emit_all, unite-emit_all, kept}
use booleann.Leaf.Selection.{selected, wants, contains-selected, selected-IsAscendingFrom}

run_mode-emit_all :
    (u self_id capacity : ℕ) (mode : Mode) (f g : ℕ → Bool) (xs ys : List ℕ)
    → IsSupport 0 u xs
    → IsSupport 0 u ys
    → emitted (run_mode (limits u self_id capacity) mode f g (map pos xs) (map pos ys))
      ≡ emit_all self_id capacity (selected f g mode xs ys) reset_audit.emission
unfolding run_mode selected kept
run_mode-emit_all u self_id capacity equality f g xs ys v w =
    scan-emit_all u self_id capacity none none xs reset_audit v
run_mode-emit_all u self_id capacity range f g xs ys v w =
    scan-emit_all u self_id capacity (some f) none xs reset_audit v
run_mode-emit_all u self_id capacity conjunction f g xs ys v w =
    intersect-emit_all u self_id capacity none none xs ys reset_audit v w
run_mode-emit_all u self_id capacity dnf2 f g xs ys v w =
    unite-emit_all u self_id capacity f g none none xs ys reset_audit v w

reset_audit-IsReady : IsReady 0 reset_audit.emission
reset_audit-IsReady = record { counted = refl; below = λ h. absurd (omega arith) }

require_self-ok :
    (m : Status × Progress) {e : Emission}
    → emitted m ≡ (ok, e)
    → (m.1.emission ≡ e)
      × (require_self m ≡ (if e.removed_self == 1 then ok else missing_self, m.1))
require_self-ok (ok, p) h = ground arith
require_self-ok (_, p) h = cc

self_status :
    {found wanted : Bool}
    → found ≡ wanted
    → (if 0 + (if found then 1 else 0) == 1 then ok else missing_self)
      ≡ (if wanted then ok else missing_self)
self_status h = ground arith

require_self-overflow :
    (m : Status × Progress)
    → m.0 ≡ overflow
    → ((require_self m).0 ≡ overflow) × ((require_self m).1 ≡ m.1)
require_self-overflow (overflow, p) h = (refl, refl)
require_self-overflow (ok, p) h = cc
require_self-overflow (_, p) h = cc

module _ (double : Double) where
  -- `r` passes the checks in `mode`, and its postings hold the rows `xs` and `ys`. (A mode with one
  -- posting leaves the other alone: it may be null, with no rows.)
  pub record IsAccepted (r : Request double) (mode : Mode) (u self_id : ℕ) (xs ys : List ℕ)
      : Type 0 where
    pub audited : 8 ≤ r.audit_slots
    pub accepted : refusal double r ≡ inr mode
    pub universe : r.universe ≡ pos u
    pub self : r.self_id ≡ pos self_id
    pub left : entries r.left ≡ map pos xs
    pub right : entries r.right ≡ map pos ys
    pub left_support : IsSupport 0 u xs
    pub right_support : IsSupport 0 u ys

  module _ (r : Request double) (mode : Mode) (u self_id : ℕ) (xs ys : List ℕ) where
    abbrev pub chosen : List ℕ
    chosen =
        selected (row_test double r.left_interval) (row_test double r.right_interval) mode xs ys

    abbrev pub wanted : ℕ → Bool
    wanted = wants (row_test double r.left_interval) (row_test double r.right_interval) mode xs ys

    merge_rows-emit_all :
        IsAccepted r mode u self_id xs ys
        → emitted (merge_rows double mode r)
          ≡ emit_all self_id r.output_capacity chosen reset_audit.emission
    unfolding merge_rows limits_of
    merge_rows-emit_all v =
        (λ i. emitted (
          run_mode
            (record {
              universe = v.universe i;
              self_id = pos_part (v.self i);
              output_capacity = r.output_capacity;
            })
            mode (row_test double r.left_interval) (row_test double r.right_interval) (v.left i)
            (v.right i)))
        ∙ run_mode-emit_all u self_id r.output_capacity mode _ _ xs ys v.left_support
            v.right_support

    -- The status and the emission of an accepted call, from those of its loop.
    sorted_posting_merge-accepted :
        IsAccepted r mode u self_id xs ys
        → sorted_posting_merge double r
          ≡ (let (status, p) = require_self (merge_rows double mode r) in (status, some p))
    unfolding sorted_posting_merge
    sorted_posting_merge-accepted v =
        rw (v.accepted, sorted_posting_merge) (ground (arith, v.audited))

    -- If the output has room for the rows that the query wants, the query's own row left out, then
    -- the merge returns ok exactly if it also wants its own row (else kMissingSelf), the output
    -- increases strictly and holds exactly the wanted rows other than the query's own, and the audit
    -- counts them.
    pub merge_correct :
        IsAccepted r mode u self_id xs ys
        → length (remove self_id chosen) ≤ r.output_capacity
        → (p : Progress) × (sorted_posting_merge double r
            ≡ (if wanted self_id then ok else missing_self, some p))
          × IsAscendingFrom 0 p.emission.output
          × ((a : ℕ) → contains p.emission.output a ≡ (wanted a && not (a == self_id)))
          × (p.emission.output_rows ≡ length p.emission.output)
    merge_correct v fits =
        let increasing =
          selected-IsAscendingFrom _ _ mode xs ys v.left_support.0 v.right_support.0 in
        let emission =
          merge_rows-emit_all v
          ∙ emit_all-fits self_id r.output_capacity chosen 0 reset_audit.emission increasing
              reset_audit-IsReady (omega arith) in
        let (same, status) = require_self-ok (merge_rows double mode r) emission in
        let meaning : (a : ℕ) → contains chosen a ≡ wanted a =
          λ a. contains-selected _ _ mode xs ys a v.left_support.0 v.right_support.0 in
        (
          (merge_rows double mode r).1,
          sorted_posting_merge-accepted v
              ∙ ap (λ m. (m.0, some m.1)) status
              ∙ ap (λ s. (s, some (merge_rows double mode r).1)) (self_status (meaning self_id)),
          rw same (remove-IsAscendingFrom self_id 0 chosen increasing),
          λ a.
              rw same
                (contains-remove self_id a chosen ∙ ap (λ b. b && not (a == self_id)) (meaning a)),
          rw same (omega arith),
        )

    -- If the output has less room than the query wants rows, the merge fills the output with the
    -- smallest of the wanted rows other than the query's own, and reports the overflow and the
    -- capacity that it would have needed at least.
    pub merge_overflows :
        IsAccepted r mode u self_id xs ys
        → r.output_capacity < length (remove self_id chosen)
        → (p : Progress) × (sorted_posting_merge double r ≡ (overflow, some p))
          × (p.emission.output ≡ take r.output_capacity (remove self_id chosen))
          × (p.emission.overflow_required_minimum ≡ r.output_capacity + 1)
    merge_overflows v full =
        let increasing =
          selected-IsAscendingFrom _ _ mode xs ys v.left_support.0 v.right_support.0 in
        let (status, output, required) =
          emit_all-overflows self_id r.output_capacity chosen 0 reset_audit.emission increasing
            reset_audit-IsReady (omega arith) (omega arith) in
        let run = merge_rows-emit_all v in
        let (kept_status, kept_progress) =
          require_self-overflow (merge_rows double mode r) (ap (λ m. m.0) run ∙ status) in
        (
          (merge_rows double mode r).1,
          sorted_posting_merge-accepted v ∙ (λ i. (kept_status i, some (kept_progress i))),
          ap (λ m. m.1.output) run
              ∙ output
              ∙ ap (λ k. take k (remove self_id chosen)) (omega arith),
          ap (λ m. m.1.overflow_required_minimum) run ∙ required,
        )

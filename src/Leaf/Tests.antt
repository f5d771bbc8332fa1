-- ===== src/Leaf/Tests.antt =====
-- Runs of src/laion/native/leaf_posting_merge.cpp, and the theorems at them.
use booleann.Base.{
  ℕ, ◌≡◌, refl, true, not, ◌&&◌, none, some, ◌==◌, if◌then◌else◌, List, [], ◌∷◌, length, take, map,
  pos, negsuc, ◌↔◌, arith,
}
use booleann.Base.Double.{whole}
use booleann.Base.Ordered.{IsAscendingFrom, IsSupport, contains, remove}
use booleann.Leaf.Emit.{Status, ok, overflow, missing_self}
use booleann.Leaf.Merge.{Progress, intersect, unite, emit_if, left_row, right_row, both_row}
use booleann.Leaf.Entry.{
  Posting, Interval, Request, dnf2, sorted_posting_merge, validate_posting, refusal, row_test,
  valid_pointer, run_mode,
}
use booleann.Leaf.Loops.{either}
use booleann.Leaf.Selection.{selected}
use booleann.Leaf.Emit.{emit_or_remove, checked_id}
use booleann.Leaf.Result.{IsAccepted, merge_correct, merge_overflows, chosen, wanted}
use booleann.Leaf.Safety.{IsBounded, sorted_posting_merge-IsBounded}
use booleann.Leaf.Validate.{validate_posting_iff}

abbrev posting : List ℕ → Posting
posting ids = record { ids = some (map pos ids); rows = length ids }

-- The value of row `n` is `n`, and the interval is [2, 8).
abbrev interval : Interval whole
interval = record {
  values = some (record { float64 = λ n. pos n; int64 = λ n. pos n });
  kind = pos 2;
  lo = pos 2;
  hi = pos 8;
  similarity = pos 0;
}

abbrev ranges : Request whole
ranges = record {
  abi_version = 1;
  mode = pos 3;
  left = posting (1 ∷ 3 ∷ 5 ∷ 9 ∷ []);
  right = posting (2 ∷ 3 ∷ 7 ∷ []);
  left_interval = interval;
  right_interval = interval;
  self_id = pos 5;
  universe = pos 10;
  has_output = true;
  output_capacity = 3;
  audit_slots = 8;
}

abbrev tight : Request whole
tight = record ranges { output_capacity = 2 }

ranges-IsAccepted : IsAccepted whole ranges dnf2 10 5 (1 ∷ 3 ∷ 5 ∷ 9 ∷ []) (2 ∷ 3 ∷ 7 ∷ [])
unfolding refusal
ranges-IsAccepted = record {
  audited = omega arith;
  accepted = refl;
  universe = refl;
  self = refl;
  left = refl;
  right = refl;
  left_support = omega arith;
  right_support = omega arith;
}

tight-IsAccepted : IsAccepted whole tight dnf2 10 5 (1 ∷ 3 ∷ 5 ∷ 9 ∷ []) (2 ∷ 3 ∷ 7 ∷ [])
unfolding refusal
tight-IsAccepted = record {
  audited = omega arith;
  accepted = refl;
  universe = refl;
  self = refl;
  left = refl;
  right = refl;
  left_support = omega arith;
  right_support = omega arith;
}

abbrev statuses : Request whole → Status
statuses r = (sorted_posting_merge whole r).0

abbrev output : Request whole → List ℕ
output r = elim (sorted_posting_merge whole r).1 [ none ↦ [] | some p ↦ p.emission.output ]

ranges-output : output ranges ≡ 2 ∷ 3 ∷ 7 ∷ []
unfolding sorted_posting_merge run_mode unite emit_or_remove checked_id row_test left_row right_row
    both_row
ranges-output = refl

conjunction-output : output (record ranges { mode = pos 1; self_id = pos 3 }) ≡ []
unfolding sorted_posting_merge run_mode intersect emit_if emit_or_remove checked_id
conjunction-output = refl

-- A conjunction stops at the end of the shorter posting, and does not see what is wrong beyond.
conjunction_unchecked_tail :
    statuses (record ranges {
      mode = pos 1;
      self_id = pos 3;
      left = record { ids = some (pos 3 ∷ negsuc 0 ∷ []); rows = 2 };
      right = posting (3 ∷ []);
    })
    ≡ ok
unfolding sorted_posting_merge run_mode intersect emit_if emit_or_remove checked_id
conjunction_unchecked_tail = refl

merge_correct_example :
    (p : Progress) × (sorted_posting_merge whole ranges ≡ (
      if wanted whole ranges dnf2 10 5 (1 ∷ 3 ∷ 5 ∷ 9 ∷ []) (2 ∷ 3 ∷ 7 ∷ []) 5
          then ok
          else missing_self,
      some p,
    ))
    × IsAscendingFrom 0 p.emission.output
    × ((a : ℕ)
        → contains p.emission.output a
          ≡ (wanted whole ranges dnf2 10 5 (1 ∷ 3 ∷ 5 ∷ 9 ∷ []) (2 ∷ 3 ∷ 7 ∷ []) a && not (a == 5)))
    × (p.emission.output_rows ≡ length p.emission.output)
unfolding selected either row_test remove
merge_correct_example =
    merge_correct whole ranges dnf2 10 5 (1 ∷ 3 ∷ 5 ∷ 9 ∷ []) (2 ∷ 3 ∷ 7 ∷ []) ranges-IsAccepted
      (omega arith)

merge_overflows_example :
    (p : Progress) × (sorted_posting_merge whole tight ≡ (overflow, some p))
    × (p.emission.output
        ≡ take 2 (remove 5 (chosen whole tight dnf2 10 5 (1 ∷ 3 ∷ 5 ∷ 9 ∷ []) (2 ∷ 3 ∷ 7 ∷ []))))
    × (p.emission.overflow_required_minimum ≡ 3)
unfolding selected either row_test remove
merge_overflows_example =
    merge_overflows whole tight dnf2 10 5 (1 ∷ 3 ∷ 5 ∷ 9 ∷ []) (2 ∷ 3 ∷ 7 ∷ []) tight-IsAccepted
      (omega arith)

abbrev ranges_progress : Progress
ranges_progress = record {
  emission = record {
    output = 2 ∷ 3 ∷ 7 ∷ [];
    output_rows = 3;
    removed_self = 1;
    unique_candidates = 4;
    overflow_required_minimum = 0;
  };
  left_visited = 4;
  right_visited = 3;
  predicate_checks = 7;
}

sorted_posting_merge-IsBounded_example : IsBounded 3 ranges_progress.emission
unfolding sorted_posting_merge run_mode unite emit_or_remove checked_id row_test left_row right_row
    both_row
sorted_posting_merge-IsBounded_example =
    sorted_posting_merge-IsBounded whole ranges ranges_progress refl

validate_posting_iff_example :
    (validate_posting (posting (1 ∷ 4 ∷ [])) (pos 10) ≡ ok)
    ↔ ((ids : List ℕ) × (map pos (1 ∷ 4 ∷ []) ≡ map pos ids) × IsSupport 0 10 ids)
unfolding valid_pointer
validate_posting_iff_example = validate_posting_iff (posting (1 ∷ 4 ∷ [])) 10 (omega arith) refl

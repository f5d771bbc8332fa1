-- ===== src/Leaf/Emit.antt =====
-- src/laion/native/leaf_posting_merge.cpp: the statuses, the checks of one id, and the routine that
-- writes one merged row. The caller's `output` buffer is the list of the entries written so far: the
-- code writes only at the position after the last one, so the buffer beyond it is as it was.
use booleann.Base.{
  ℕ, ◌+◌, ◌-◌, Bool, true, false, not, ◌&&◌, ◌||◌, Option, none, some, List, [], ◌∷◌, ◌++◌, ℤ, pos,
  negsuc, pos_part, ltb, leb, ◌==◌, if◌then◌else◌, get_or,
}

-- `enum Status`
pub data Status : Type 0 where
  ok bad_abi bad_argument bad_posting bad_interval missing_self overflow bad_output : Status

-- The output and the audit slots that `emit_or_remove` touches. A counter is at most the number of
-- rows in memory, so none of them wraps.
pub record Emission : Type 0 where
  pub output : List ℕ
  pub output_rows : ℕ
  pub removed_self : ℕ
  pub unique_candidates : ℕ
  pub overflow_required_minimum : ℕ

-- `valid_id`, for `int32_t` values
unfoldable pub valid_id : ℤ → ℤ → Bool
valid_id (negsuc _) universe = false
valid_id (pos id) (negsuc _) = false
valid_id (pos id) (pos universe) = ltb id universe

-- `has_previous && id <= previous`; a previous id has been checked, so it is not negative
unfoldable pub out_of_order : Option ℕ → ℤ → Bool
out_of_order none id = false
out_of_order (some previous) (negsuc _) = true
out_of_order (some previous) (pos id) = leb id previous

-- `checked_id` at one entry of the posting, with `none` for its -1
unfoldable pub checked_id : ℤ → Option ℕ → ℤ → Option ℕ
unfolding valid_id out_of_order
checked_id universe previous id =
    if not (valid_id id universe) || out_of_order previous id then none else some (pos_part id)

unfoldable pub emit_or_remove : ℕ → ℕ → ℕ → Emission → Status × Emission
emit_or_remove self_id output_capacity id e =
    let seen = record e { unique_candidates = e.unique_candidates + 1 } in
    let position = e.output_rows in
    if id == self_id
    then (ok, record seen { removed_self = e.removed_self + 1 })
    else if leb output_capacity position
    then (overflow, record seen { overflow_required_minimum = position + 1 })
    else if ltb 0 position && leb id (get_or e.output (position - 1) 0)
    then (bad_output, seen)
    else (ok, record seen { output = e.output ++ id ∷ []; output_rows = position + 1 })

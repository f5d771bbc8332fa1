-- ===== src/Leaf/Entry.antt =====
-- src/laion/native/leaf_posting_merge.cpp: the two entry points, with their argument checks.
-- A pointer with a row count is an `Option` of the entries: `none` is a null pointer, and an array
-- holds as many entries as its row count says, which is what the callers promise.
use booleann.Base.{
  ℕ, zero, suc, Bool, true, false, not, ◌&&◌, ◌||◌, Option, none, some, List, [], ◌∷◌, ℤ, pos,
  negsuc, ltb, ◌==◌, if◌then◌else◌, pos_part, ◌⊎◌, inl, inr,
}
use booleann.Base.Double.{Double}
use booleann.Leaf.Emit.{
  Status, ok, bad_abi, bad_argument, bad_posting, bad_interval, missing_self, valid_id,
  out_of_order,
}
use booleann.Leaf.Merge.{Progress, Limits, scan, intersect, unite}

-- An array of ids and its row count.
pub record Posting : Type 0 where
  pub ids : Option (List ℤ)
  pub rows : ℕ

abbrev is_present {ℓ} : {A : Type ℓ} → Option A → Bool
is_present none = false
is_present (some _) = true

-- `valid_pointer`
unfoldable pub valid_pointer : Posting → Bool
valid_pointer posting = posting.rows == 0 || is_present posting.ids

-- The entries that a loop over the posting reads.
abbrev pub entries : Posting → List ℤ
entries posting = elim posting.ids [ none ↦ [] | some xs ↦ xs ]

-- `laion1m_leaf_validate_posting_v1`
unfoldable pub validate_from : ℤ → Option ℕ → List ℤ → Status
unfolding valid_id out_of_order
validate_from universe previous [] = ok
validate_from universe previous (x ∷ xs) =
    let rest = validate_from universe (some (pos_part x)) xs in
    if not (valid_id x universe) || out_of_order previous x then bad_posting else rest

abbrev pub is_positive : ℤ → Bool
is_positive (pos n) = ltb 0 n
is_positive (negsuc _) = false

unfoldable pub validate_posting : Posting → ℤ → Status
unfolding valid_pointer validate_from
validate_posting posting universe =
    if not (is_positive universe) || not (valid_pointer posting)
    then bad_argument
    else validate_from universe none (entries posting)

pub data Mode : Type 0 where
  equality conjunction range dnf2 : Mode

-- `mode < kModeEquality || mode > kModeDnf2` is `none`.
unfoldable pub read_mode : ℤ → Option Mode
read_mode (pos zero) = some equality
read_mode (pos (suc zero)) = some conjunction
read_mode (pos (suc (suc zero))) = some range
read_mode (pos (suc (suc (suc zero)))) = some dnf2
read_mode _ = none

-- `reset_audit`, with nothing written to the output
abbrev pub reset_audit : Progress
reset_audit = record {
  emission = record {
    output = [];
    output_rows = 0;
    removed_self = 0;
    unique_candidates = 0;
    overflow_required_minimum = 0;
  };
  left_visited = 0;
  right_visited = 0;
  predicate_checks = 0;
}

module _ (limits : Limits) where
  unfoldable pub run_mode : Mode → (ℕ → Bool) → (ℕ → Bool) → List ℤ → List ℤ → Status × Progress
  run_mode equality left_test right_test xs ys = scan limits none none xs reset_audit
  run_mode range left_test right_test xs ys = scan limits (some left_test) none xs reset_audit
  run_mode conjunction left_test right_test xs ys = intersect limits none none xs ys reset_audit
  run_mode dnf2 left_test right_test xs ys =
      unite limits left_test right_test none none xs ys reset_audit

-- `if (audit[kAuditRemovedSelf] != 1) return kMissingSelf;`
abbrev pub require_self : Status × Progress → Status × Progress
require_self (ok, p) = (if p.emission.removed_self == 1 then ok else missing_self, p)
require_self (other, p) = (other, p)

module _ (double : Double) where
  open double use {Value, less, at_most, is_finite, zero as zero_value, one, of_int64}

  -- An array of attribute values, as it reads under each of the two kinds.
  pub record Values : Type 0 where
    pub float64 : ℕ → Value
    pub int64 : ℕ → ℤ

  pub record Interval : Type 0 where
    pub values : Option Values
    pub kind : ℤ
    pub lo : Value
    pub hi : Value
    pub similarity : ℤ

  -- `value_in_interval`
  unfoldable pub in_bounds : Value → Value → Value → Bool → Bool
  in_bounds value lo hi similarity =
      if not (is_finite value) || less value lo || not (less value hi)
      then false
      else if similarity
      then at_most zero_value value && at_most value one
      else less zero_value value

  unfoldable pub value_in_interval : Values → ℤ → ℕ → Value → Value → Bool → Bool
  unfolding in_bounds
  value_in_interval values (pos (suc zero)) id lo hi similarity =
      in_bounds (values.float64 id) lo hi similarity
  value_in_interval values (pos (suc (suc zero))) id lo hi similarity =
      in_bounds (of_int64 (values.int64 id)) lo hi similarity
  value_in_interval values _ id lo hi similarity = false

  abbrev is_kind : ℤ → Bool
  is_kind (pos kind) = kind == 1 || kind == 2
  is_kind (negsuc _) = false

  abbrev is_flag : ℤ → Bool
  is_flag (pos flag) = flag == 0 || flag == 1
  is_flag (negsuc _) = false

  abbrev is_nonzero : ℤ → Bool
  is_nonzero (pos flag) = not (flag == 0)
  is_nonzero (negsuc _) = true

  -- `valid_interval`
  unfoldable pub valid_interval : Interval → Bool
  valid_interval i = is_present i.values && is_kind i.kind && is_flag i.similarity && less i.lo i.hi

  -- The test of one interval at a row. Without values, which `valid_interval` excludes, no row passes.
  unfoldable pub row_test : Interval → ℕ → Bool
  unfolding value_in_interval
  row_test i id = elim i.values [
    | none ↦ false
    | some values ↦ value_in_interval values i.kind id i.lo i.hi (is_nonzero i.similarity)
  ]

  -- The arguments of the merge. `has_output` is `output != nullptr`, and `audit_slots` is 0 for a
  -- null `audit`.
  pub record Request : Type 0 where
    pub abi_version : ℕ
    pub mode : ℤ
    pub left : Posting
    pub right : Posting
    pub left_interval : Interval
    pub right_interval : Interval
    pub self_id : ℤ
    pub universe : ℤ
    pub has_output : Bool
    pub output_capacity : ℕ
    pub audit_slots : ℕ

  unfoldable pub limits_of : Request → Limits
  limits_of r = record {
    universe = r.universe;
    self_id = pos_part r.self_id;
    output_capacity = r.output_capacity;
  }

  -- The checks before the loops that depend on the mode.
  unfoldable pub mode_refusal : Mode → Request → Option Status
  unfolding valid_pointer valid_interval
  mode_refusal equality r = none
  mode_refusal conjunction r = if valid_pointer r.right then none else some bad_argument
  mode_refusal range r = if valid_interval r.left_interval then none else some bad_interval
  mode_refusal dnf2 r =
      if not (valid_pointer r.right)
      then some bad_argument
      else if valid_interval r.left_interval && valid_interval r.right_interval
      then none
      else some bad_interval

  -- All the checks before the loops, in their order, once the audit array is reset.
  unfoldable pub refusal : Request → Status ⊎ Mode
  unfolding mode_refusal valid_id read_mode
  refusal r = elim (read_mode r.mode) [
    | none ↦ inl (if r.abi_version == 1 then bad_argument else bad_abi)
    | some mode ↦
        if not (r.abi_version == 1)
        then inl bad_abi
        else if not (is_positive r.universe)
            || not (valid_id r.self_id r.universe)
            || not (valid_pointer r.left)
            || not r.has_output
            || r.output_capacity == 0
        then inl bad_argument
        else elim (mode_refusal mode r) [ none ↦ inr mode | some status ↦ inl status ]
  ]

  -- The loop that the mode selects.
  unfoldable pub merge_rows : Mode → Request → Status × Progress
  merge_rows mode r =
      run_mode (limits_of r) mode (row_test r.left_interval) (row_test r.right_interval)
        (entries r.left) (entries r.right)

  -- What follows the checks: a refusal leaves the fresh audit array, and a merge fills it.
  abbrev pub answer : Request → Status ⊎ Mode → Status × Option Progress
  answer r (inl status) = (status, some reset_audit)
  answer r (inr mode) = let (status, p) = require_self (merge_rows mode r) in (status, some p)

  -- `laion1m_leaf_sorted_posting_merge_v1`: the status, and the output and audit array unless the
  -- audit array itself is refused.
  unfoldable pub sorted_posting_merge : Request → Status × Option Progress
  unfolding refusal merge_rows limits_of
  sorted_posting_merge r =
      if ltb r.audit_slots 8 then (bad_argument, none) else answer r (refusal r)

-- ===== src/Pair/Checked.antt =====
-- The checked scans of src/categorical/include/pair_offset16_kernel.h, pair_offset16_block16.h and
-- pair_offset16_prefix128.h. Pointers are not null; an array comes with its size. K is k + 1.
use booleann.Base.{
  ℕ, ◌-◌, ◌/◌, ◌^◌, Bool, true, false, not, ◌&&◌, ◌||◌, List, [], ◌∷◌, ltb, leb, ◌==◌,
  if◌then◌else◌, get_or, length, ℤ, pos, negsuc, pos_part,
}
use booleann.Base.Result.{Result, ok, ◌>>◌, require}
use booleann.Pair.{dimensions}
use booleann.Pair.Scan.{Rows, scan_exact, scan_packed}
use booleann.Pair.Intersect.{maximum_primary_support}
use booleann.Pair.Block16.{scan_block16}
use booleann.Pair.Prefix128.{scan_prefix128}

-- The exceptions, by what they report.
pub data ScanError : Type 0 where
  invalid_sizes : ScanError
  address_overflows : ScanError
  ids_not_strict : ScanError
  offsets_not_strict : ScanError

-- What a checked scan gets, the sizes of the arrays of ids and offsets included.
pub record Inputs : Type 0 where
  pub pair_offsets : List ℕ
  pub primary_global_ids : List ℤ
  pub vectors : ℕ → ℕ
  pub vector_stride : ℕ
  pub query : ℕ → ℕ

-- `<=` on the ids.
abbrev pub at_most : ℤ → ℤ → Bool
at_most (pos a) (pos b) = leb a b
at_most (pos a) (negsuc b) = false
at_most (negsuc a) (pos b) = true
at_most (negsuc a) (negsuc b) = leb b a

-- The loop over the ids, after `previous_global_id`.
unfoldable pub strict_ids : (ℕ → Bool) → ℤ → List ℤ → Bool
strict_ids in_range previous [] = true
strict_ids in_range previous (id ∷ ids) =
    let rest = strict_ids in_range id ids in
    if at_most id previous || not (in_range (pos_part id)) then false else rest

-- The loop over the offsets, after `have_previous_offset` and `previous_offset`.
unfoldable pub strict_offsets : ℕ → Bool → ℕ → List ℕ → Bool
strict_offsets support have previous [] = true
strict_offsets support have previous (offset ∷ offsets) =
    let rest = strict_offsets support true offset offsets in
    if leb support offset || (have && leb offset previous) then false else rest

-- The rows that a scan reads once the ids are known not to be negative.
abbrev pub rows_in : Inputs → Rows
rows_in i = record {
  primary_global_ids = λ offset. pos_part (get_or i.primary_global_ids offset (pos 0));
  vectors = i.vectors;
  vector_stride = i.vector_stride;
  query = i.query;
}

abbrev pub support_of : Inputs → ℕ
support_of i = length i.primary_global_ids

abbrev pub offsets_are_strict : Inputs → Bool
offsets_are_strict i = strict_offsets (support_of i) false 0 i.pair_offsets

abbrev pub max_size : ℕ
max_size = 2 ^ 64 - 1

-- `validate_inputs`
unfoldable pub validate_inputs : ℕ → Inputs → Result ScanError (Unit {0})
unfolding strict_ids strict_offsets
validate_inputs base_points i =
    require
      (not (
        ltb maximum_primary_support (support_of i)
        || ltb i.vector_stride dimensions
        || base_points == 0))
      invalid_sizes
    >> require (not (ltb (max_size / i.vector_stride) (base_points - 1))) address_overflows
    >> require (strict_ids (λ id. ltb id base_points) (negsuc 0) i.primary_global_ids)
        ids_not_strict
    >> require (offsets_are_strict i) offsets_not_strict

-- `validate_packed_primary`
unfoldable pub validate_packed_primary : Inputs → Result ScanError (Unit {0})
validate_packed_primary i =
    require (not (ltb i.vector_stride dimensions)) invalid_sizes
    >> require
        (not (not (support_of i == 0) && ltb (max_size / i.vector_stride) (support_of i - 1)))
        address_overflows

unfoldable pub scan_exact_checked : ℕ → ℕ → Inputs → Result ScanError (List ℤ)
unfolding validate_inputs
scan_exact_checked k base_points i =
    validate_inputs base_points i >> ok (scan_exact k i.pair_offsets (rows_in i))

-- `scan_exact_packed_primary_checked`
unfoldable pub scan_packed_checked : ℕ → Inputs → Result ScanError (List ℤ)
unfolding strict_ids strict_offsets validate_packed_primary
scan_packed_checked k i =
    require (not (ltb maximum_primary_support (support_of i) || ltb i.vector_stride dimensions))
      invalid_sizes
    >> require (strict_ids (λ id. true) (negsuc 0) i.primary_global_ids) ids_not_strict
    >> require (offsets_are_strict i) offsets_not_strict
    >> validate_packed_primary i
    >> ok (scan_packed k i.pair_offsets (rows_in i))

-- `scan_checked` of the blocks of 16
unfoldable pub scan_block16_checked : ℕ → Inputs → Result ScanError (List ℤ)
unfolding strict_ids strict_offsets
scan_block16_checked k i =
    require
      (not (
        ltb (support_of i) (length i.pair_offsets)
        || ltb maximum_primary_support (support_of i)
        || not (i.vector_stride == dimensions)))
      invalid_sizes
    >> require (strict_ids (λ id. true) (negsuc 0) i.primary_global_ids) ids_not_strict
    >> require (offsets_are_strict i) offsets_not_strict
    >> ok (scan_block16 k i.pair_offsets (rows_in i))

-- `scan_checked` of the two passes, with the capacity of the scratch buffer
unfoldable pub scan_prefix128_checked : ℕ → ℕ → Inputs → Result ScanError (List ℤ)
unfolding strict_ids strict_offsets
scan_prefix128_checked k scratch_capacity i =
    require
      (not (
        ltb (support_of i) (length i.pair_offsets)
        || ltb maximum_primary_support (support_of i)
        || not (i.vector_stride == dimensions)
        || ltb scratch_capacity (length i.pair_offsets)))
      invalid_sizes
    >> require (strict_ids (λ id. true) (negsuc 0) i.primary_global_ids) ids_not_strict
    >> require (offsets_are_strict i) offsets_not_strict
    >> ok (scan_prefix128 k i.pair_offsets (rows_in i))

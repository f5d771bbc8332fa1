-- ===== src/Pair/Agreement.antt =====
-- The checked cascades of src/categorical/include/pair_offset16_block16.h and pair_offset16_prefix128.h, against the
-- checked packed scan of pair_offset16_kernel.h.
use booleann.Base.{
  ℕ, ◌-◌, ◌/◌, ◌≤◌, ◌≡◌, refl, sym, ap, ◌∙◌, Bool, true, not, ◌&&◌, ◌||◌, List, ltb, ◌==◌, length,
  ℤ, negsuc, arith,
}
use booleann.Base.Result.{ok, ◌>>◌, require}
use booleann.Pair.{dimensions}
use booleann.Pair.Lower.{IsBytes}
use booleann.Pair.Intersect.{maximum_primary_support}
use booleann.Pair.Scan.{Rows, scan_packed}
use booleann.Pair.Block16.{scan_block16}
use booleann.Pair.Prefix128.{scan_prefix128}
use booleann.Pair.Cascaded.{scan_block16-scan_packed, scan_prefix128-scan_packed}
use booleann.Pair.Checked.{
  Inputs, invalid_sizes, ids_not_strict, offsets_not_strict, strict_ids, rows_in, support_of,
  offsets_are_strict, max_size, validate_packed_primary, scan_packed_checked, scan_block16_checked,
  scan_prefix128_checked,
}
use booleann.Pair.Accepted.{steps-inv, require-inv}

-- What the cascades check first is enough for the packed scan.
packed_accepts :
    (k : ℕ) (i : Inputs)
    → support_of i ≤ maximum_primary_support
    → i.vector_stride ≡ dimensions
    → strict_ids (λ id. true) (negsuc 0) i.primary_global_ids ≡ true
    → offsets_are_strict i ≡ true
    → scan_packed_checked k i ≡ ok (scan_packed k i.pair_offsets (rows_in i))
unfolding scan_packed_checked validate_packed_primary
packed_accepts k i fits stride ids offsets =
    let sizes : not (ltb maximum_primary_support (support_of i) || ltb i.vector_stride dimensions)
        ≡ true =
      ground arith in
    let wide : not (ltb i.vector_stride dimensions) ≡ true = ground arith in
    let room : max_size / i.vector_stride ≡ max_size / dimensions = ap (◌/◌ max_size) stride in
    let addresses : not
          (not (support_of i == 0) && ltb (max_size / i.vector_stride) (support_of i - 1))
        ≡ true =
      ground arith in
    rw (sizes, ids, offsets, wide, addresses) refl

-- The steps that both cascades share.
cascade-inv :
    (sizes : Bool) (i : Inputs) (found result : List ℤ)
    → (require sizes invalid_sizes
        >> require (strict_ids (λ id. true) (negsuc 0) i.primary_global_ids) ids_not_strict
        >> require (offsets_are_strict i) offsets_not_strict
        >> ok found)
      ≡ ok result
    → (sizes ≡ true)
      × (strict_ids (λ id. true) (negsuc 0) i.primary_global_ids ≡ true)
      × (offsets_are_strict i ≡ true)
      × (found ≡ result)
cascade-inv sizes i found result e =
    let strict = strict_ids (λ id. true) (negsuc 0) i.primary_global_ids in
    let c =
      steps-inv
        (require sizes invalid_sizes
          >> require strict ids_not_strict
          >> require (offsets_are_strict i) offsets_not_strict)
        (ok found) result e in
    let b =
      steps-inv (require sizes invalid_sizes >> require strict ids_not_strict)
        (require (offsets_are_strict i) offsets_not_strict) tt c.0 in
    let a = steps-inv (require sizes invalid_sizes) (require strict ids_not_strict) tt b.0 in
    (
      require-inv sizes invalid_sizes a.0,
      require-inv strict ids_not_strict a.1,
      require-inv (offsets_are_strict i) offsets_not_strict b.1,
      cc (c.1),
    )

-- On vectors of bytes, whatever the checked scan in blocks of 16 returns, the checked packed scan returns too.
pub block16-packed_checked :
    (k : ℕ) (i : Inputs) (result : List ℤ)
    → IsBytes i.query
    → IsBytes i.vectors
    → scan_block16_checked k i ≡ ok result
    → scan_packed_checked k i ≡ ok result
unfolding scan_block16_checked
block16-packed_checked k i result q v e =
    let sizes = not (
      ltb (support_of i) (length i.pair_offsets)
      || ltb maximum_primary_support (support_of i)
      || not (i.vector_stride == dimensions)) in
    let c = cascade-inv sizes i (scan_block16 k i.pair_offsets (rows_in i)) result e in
    let fits : support_of i ≤ maximum_primary_support = ground (arith, c.0) in
    let stride : i.vector_stride ≡ dimensions = ground (arith, c.0) in
    packed_accepts k i fits stride c.1 c.2
    ∙ ap ok (sym (scan_block16-scan_packed k (rows_in i) q v i.pair_offsets) ∙ c.3)

-- On vectors of bytes, whatever the checked scan in two passes returns, the checked packed scan returns too.
pub prefix128-packed_checked :
    (k scratch_capacity : ℕ) (i : Inputs) (result : List ℤ)
    → IsBytes i.query
    → IsBytes i.vectors
    → scan_prefix128_checked k scratch_capacity i ≡ ok result
    → scan_packed_checked k i ≡ ok result
unfolding scan_prefix128_checked
prefix128-packed_checked k scratch_capacity i result q v e =
    let sizes = not (
      ltb (support_of i) (length i.pair_offsets)
      || ltb maximum_primary_support (support_of i)
      || not (i.vector_stride == dimensions)
      || ltb scratch_capacity (length i.pair_offsets)) in
    let c = cascade-inv sizes i (scan_prefix128 k i.pair_offsets (rows_in i)) result e in
    let fits : support_of i ≤ maximum_primary_support = ground (arith, c.0) in
    let stride : i.vector_stride ≡ dimensions = ground (arith, c.0) in
    packed_accepts k i fits stride c.1 c.2
    ∙ ap ok (sym (scan_prefix128-scan_packed k (rows_in i) q v i.pair_offsets) ∙ c.3)

-- On vectors of bytes the scan in blocks of 16 and the scan in two passes return what the scan that completes
-- every sum returns.
pub cascades_lem :
    (k : ℕ) (r : Rows) (offsets : List ℕ)
    → IsBytes r.query
    → IsBytes r.vectors
    → (scan_block16 k offsets r ≡ scan_packed k offsets r)
      × (scan_prefix128 k offsets r ≡ scan_packed k offsets r)
cascades_lem k r offsets q v =
    (scan_block16-scan_packed k r q v offsets, scan_prefix128-scan_packed k r q v offsets)

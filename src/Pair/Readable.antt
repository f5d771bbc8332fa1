-- ===== src/Pair/Readable.antt =====
-- `scan_exact_checked` of src/categorical/include/pair_offset16_kernel.h: the inputs that it accepts, and its reads of
-- the vectors.
use native.Mathlib.Nat.{div-mul-le_self}
use booleann.Base.{
  ℕ, zero, suc, ◌+◌, ◌-◌, ◌*◌, ◌/◌, ◌^◌, ◌≤◌, ◌<◌, ◌≡◌, refl, sym, subst, ◌↔◌, Bool, true, not,
  ◌||◌, List, [], ◌∷◌, map, ltb, ◌==◌, get_or, get_elem?, some, length, ℤ, pos, negsuc, pos_part,
  arith,
}
use booleann.Base.Result.{ok, ◌>>◌, require}
use booleann.Base.Ordered.{IsBelow, IsSupport}
use booleann.Pair.{dimensions}
use booleann.Pair.Intersect.{maximum_primary_support}
use booleann.Pair.Scan.{scan_exact}
use booleann.Pair.Checked.{
  Inputs, invalid_sizes, address_overflows, ids_not_strict, offsets_not_strict, strict_ids, rows_in,
  support_of, offsets_are_strict, max_size, validate_inputs, scan_exact_checked,
}
use booleann.Pair.Accepted.{
  AllIn, IsPosting, steps-inv, require-inv, strict_ids-IsPosting, posting_strict,
  strict_offsets_iff,
}

-- The ids are the strictly ascending rows of a posting of the base, of at most 65,536; the offsets ascend
-- strictly inside of it; the vectors have room for 192 dimensions; and the place of the last one fits 64 bits.
pub record IsValid (base_points : ℕ) (i : Inputs) : Type 0 where
  pub posting : IsPosting (λ id. ltb id base_points) 0 i.primary_global_ids
  pub offsets : IsSupport 0 (support_of i) i.pair_offsets
  pub fits : support_of i ≤ maximum_primary_support
  pub wide : dimensions ≤ i.vector_stride
  pub inhabited : 1 ≤ base_points
  pub addressable : base_points - 1 ≤ max_size / i.vector_stride

validate_inputs-IsValid :
    (base_points : ℕ) (i : Inputs) → validate_inputs base_points i ≡ ok tt → IsValid base_points i
unfolding validate_inputs
validate_inputs-IsValid base_points i e =
    let in_range : ℕ → Bool = λ id. ltb id base_points in
    let sizes = not (
      ltb maximum_primary_support (support_of i)
      || ltb i.vector_stride dimensions
      || base_points == 0) in
    let addresses = not (ltb (max_size / i.vector_stride) (base_points - 1)) in
    let strict = strict_ids in_range (negsuc 0) i.primary_global_ids in
    let d =
      steps-inv
        (require sizes invalid_sizes
          >> require addresses address_overflows
          >> require strict ids_not_strict)
        (require (offsets_are_strict i) offsets_not_strict) tt e in
    let c =
      steps-inv (require sizes invalid_sizes >> require addresses address_overflows)
        (require strict ids_not_strict) tt d.0 in
    let b = steps-inv (require sizes invalid_sizes) (require addresses address_overflows) tt c.0 in
    let sized = require-inv sizes invalid_sizes b.0 in
    let addressed = require-inv addresses address_overflows b.1 in
    record {
      posting =
          strict_ids-IsPosting in_range i.primary_global_ids
            (require-inv strict ids_not_strict c.1);
      offsets =
          (strict_offsets_iff (support_of i) i.pair_offsets).0
            (require-inv (offsets_are_strict i) offsets_not_strict d.1);
      fits = ground arith;
      wide = ground arith;
      inhabited = ground arith;
      addressable = ground arith;
    }

IsValid-validate_inputs :
    (base_points : ℕ) (i : Inputs) → IsValid base_points i → validate_inputs base_points i ≡ ok tt
unfolding validate_inputs
IsValid-validate_inputs base_points i v =
    let in_range : ℕ → Bool = λ id. ltb id base_points in
    let sizes : not (
          ltb maximum_primary_support (support_of i)
          || ltb i.vector_stride dimensions
          || base_points == 0)
        ≡ true =
      ground (arith, v.fits, v.wide, v.inhabited) in
    let addresses : not (ltb (max_size / i.vector_stride) (base_points - 1)) ≡ true =
      ground (arith, v.addressable) in
    let strict : strict_ids in_range (negsuc 0) i.primary_global_ids ≡ true =
      rw (sym v.posting.same)
        (posting_strict in_range v.posting.rows v.posting.ascending v.posting.within) in
    rw (sizes, addresses, strict, (strict_offsets_iff (support_of i) i.pair_offsets).1 v.offsets)
      refl

-- The checked scan returns a result exactly for valid inputs, and then that of the scan itself.
pub scan_exact_checked_lem :
    (k base_points : ℕ) (i : Inputs) (result : List ℤ)
    → (scan_exact_checked k base_points i ≡ ok result)
      ↔ (IsValid base_points i × (scan_exact k i.pair_offsets (rows_in i) ≡ result))
unfolding scan_exact_checked
scan_exact_checked_lem k base_points i result =
    let found = scan_exact k i.pair_offsets (rows_in i) in
    (
      λ e.
          let both = steps-inv (validate_inputs base_points i) (ok found) result e in
          (validate_inputs-IsValid base_points i both.0, cc (both.1)),
      λ v. rw (IsValid-validate_inputs base_points i v.0, v.1) refl,
    )

rows_in_range :
    (in_range : ℕ → Bool) (rows : List ℕ) (o : ℕ)
    → AllIn in_range rows
    → o < length (map pos rows)
    → in_range (pos_part (get_or (map pos rows) o (pos 0))) ≡ true
rows_in_range in_range [] o a h = absurd (omega arith)
rows_in_range in_range (x ∷ xs) zero a h = a.0
rows_in_range in_range (x ∷ xs) (suc o) a h = rows_in_range in_range xs o a.1 (omega arith)

IsBelow-get : (hi : ℕ) (os : List ℕ) (j o : ℕ) → IsBelow hi os → get_elem? os j ≡ some o → o < hi
IsBelow-get hi [] j o b e = absurd (cc e)
IsBelow-get hi (x ∷ xs) zero o b e = let same : x ≡ o = cc e in omega (arith, b.0)
IsBelow-get hi (x ∷ xs) (suc j) o b e = IsBelow-get hi xs j o b.1 e

multiply_le : (a b s : ℕ) → a ≤ b → a * s ≤ b * s
multiply_le a b s h = grind arith

-- When the checked scan returns, every vector that it reads lies inside the base vectors, and the computation
-- of its place does not wrap at 64 bits.
pub scan_exact_checked_reads :
    (k base_points : ℕ) (i : Inputs) (result : List ℤ) (j offset : ℕ)
    → scan_exact_checked k base_points i ≡ ok result
    → get_elem? i.pair_offsets j ≡ some offset
    → ((rows_in i).primary_global_ids offset * i.vector_stride + dimensions
        ≤ base_points * i.vector_stride)
      × ((rows_in i).primary_global_ids offset * i.vector_stride < 2 ^ 64)
scan_exact_checked_reads k base_points i result j offset e g =
    let v = ((scan_exact_checked_lem k base_points i result).0 e).0 in
    let in_range : ℕ → Bool = λ id. ltb id base_points in
    let inside = IsBelow-get (support_of i) i.pair_offsets j offset v.offsets.1 g in
    let found =
      (subst (λ ids. offset < length ids → in_range (pos_part (get_or ids offset (pos 0))) ≡ true)
          v.posting.same (rows_in_range in_range v.posting.rows offset v.posting.within))
        inside in
    let row = (rows_in i).primary_global_ids offset in
    let below : row + 1 ≤ base_points = ground arith in
    let stride = i.vector_stride in
    (
      grind (arith, multiply_le (row + 1) base_points stride below, v.wide),
      grind (
        arith,
        multiply_le row (max_size / stride) stride (omega (arith, v.addressable)),
        div-mul-le_self max_size stride,
      ),
    )

-- ===== src/Pair/Composed.antt =====
-- Intersections and scans of src/categorical/include/pair_offset16_kernel.h together: both forms of the scratch
-- buffer stand for the rows that the postings have in common, and are scanned to the same result.
use booleann.Base.{
  ℕ, suc, ◌+◌, ◌%◌, ◌^◌, ◌≤◌, ◌<◌, ◌≡◌, refl, sym, ap, ◌∙◌, true, List, [], ◌∷◌, map, leb,
  if◌then◌else◌, get_or, length, arith, Bool-cases, inl, inr,
}
use booleann.Base.Result.{ok}
use booleann.Base.Ordered.{IsAscendingFrom, IsAscendingFrom-weaken, IsBelow, IsSupport, contains}
use booleann.Pair.{result_id, insert_all, empty_frontier}
use booleann.Pair.Scan.{Rows, candidate, id_candidate, scan_exact, scan_global_ids}
use booleann.Pair.Intersect.{
  IntersectionStrategy, maximum_primary_support, intersect_global_ids, intersect_local_offsets,
  intersect_checked,
}
use booleann.Pair.Common.{HasBitmap, common, intersect_by-common}

-- The rows of `primary` that `secondary` contains.
unfoldable pub both : List ℕ → List ℕ → List ℕ
both secondary [] = []
both secondary (id ∷ ids) =
    let rest = both secondary ids in if contains secondary id then id ∷ rest else rest

common-both :
    (secondary : List ℕ) (index : ℕ) (primary : List ℕ)
    → common (λ i id. id) secondary index primary ≡ both secondary primary
unfolding common both
common-both secondary index [] = refl
common-both secondary index (id ∷ ids) = rw (common-both secondary (suc index) ids) refl

abbrev offset_at : ℕ → ℕ → ℕ
offset_at index id = index % 2 ^ 16

module _ (whole secondary : List ℕ) where
  abbrev at_offset : ℕ → ℕ
  at_offset offset = get_or whole offset 0

  -- The offsets that are pushed from an index on lead to the common rows.
  offsets-both :
      (index : ℕ) (primary : List ℕ)
      → ((j : ℕ) → j < length primary → get_or whole (j + index) 0 ≡ get_or primary j 0)
      → index + length primary ≤ maximum_primary_support
      → map at_offset (common offset_at secondary index primary) ≡ both secondary primary
  unfolding common both
  offsets-both index [] h k = refl
  offsets-both index (id ∷ ids) h k =
      let rest =
        offsets-both (suc index) ids
          (λ j l.
            let next : j + suc index ≡ suc j + index = omega arith in
            ap at_offset next ∙ h (suc j) (omega arith))
          (omega arith) in
      let exact : index % 2 ^ 16 ≡ 0 + index = omega arith in
      let here : get_or whole (index % 2 ^ 16) 0 ≡ id = ap at_offset exact ∙ h 0 (omega arith) in
      elim (Bool-cases (contains secondary id)) [
        | inl e ↦ rw (e, here, rest) refl
        | inr e ↦ rw (e, rest) refl
      ]

offsets-IsAscendingFrom :
    (secondary : List ℕ) (index : ℕ) (primary : List ℕ)
    → index + length primary ≤ maximum_primary_support
    → IsAscendingFrom index (common offset_at secondary index primary)
unfolding common
offsets-IsAscendingFrom secondary index [] k = tt
offsets-IsAscendingFrom secondary index (id ∷ ids) k =
    let rest = offsets-IsAscendingFrom secondary (suc index) ids (omega arith) in
    let exact : index % 2 ^ 16 ≡ index = omega arith in
    elim (Bool-cases (contains secondary id)) [
      | inl e ↦
          rw (e, exact)
            (
              omega arith,
              IsAscendingFrom-weaken (suc index) (index + 1)
                  (common offset_at secondary (suc index) ids) (omega arith) rest,
            )
      | inr e ↦ rw e (
          IsAscendingFrom-weaken (suc index) index (common offset_at secondary (suc index) ids)
            (omega arith) rest)
    ]

offsets-IsBelow :
    (secondary : List ℕ) (index hi : ℕ) (primary : List ℕ)
    → index + length primary ≤ hi
    → IsBelow hi (common offset_at secondary index primary)
unfolding common
offsets-IsBelow secondary index hi [] k = tt
offsets-IsBelow secondary index hi (id ∷ ids) k =
    let rest = offsets-IsBelow secondary (suc index) hi ids (omega arith) in
    elim (Bool-cases (contains secondary id)) [
      | inl e ↦ rw e (omega arith, rest)
      | inr e ↦ rw e rest
    ]

-- For ascending postings without negative ids, and a bitmap with the bits of the secondary one if it is used,
-- each of the three strategies writes the common rows to the buffer of global ids.
pub intersect_global_ids_lem :
    (bitmap : ℕ → ℕ) (strategy : IntersectionStrategy) (primary secondary : List ℕ)
    → IsAscendingFrom 0 primary
    → IsAscendingFrom 0 secondary
    → HasBitmap strategy bitmap secondary
    → intersect_global_ids bitmap strategy primary secondary ≡ both secondary primary
unfolding intersect_global_ids
intersect_global_ids_lem bitmap strategy primary secondary p q h =
    intersect_by-common (λ index id. id) bitmap strategy primary secondary p q h
    ∙ common-both secondary 0 primary

local-both :
    (bitmap : ℕ → ℕ) (strategy : IntersectionStrategy) (primary secondary : List ℕ)
    → IsAscendingFrom 0 primary
    → IsAscendingFrom 0 secondary
    → HasBitmap strategy bitmap secondary
    → length primary ≤ maximum_primary_support
    → map
        (λ offset. get_or primary offset 0)
        (intersect_local_offsets bitmap strategy primary secondary)
      ≡ both secondary primary
unfolding intersect_local_offsets
local-both bitmap strategy primary secondary p q h k =
    ap (map (λ offset. get_or primary offset 0))
      (intersect_by-common offset_at bitmap strategy primary secondary p q h)
    ∙ offsets-both primary secondary 0 primary
        (λ j l. let same : j + 0 ≡ j = omega arith in ap (λ i. get_or primary i 0) same)
        (omega arith)

-- For ascending postings without negative ids, a bitmap as above, a primary posting of at most 65,536 rows and
-- a buffer reserved for them, the checked intersection returns, with each of the three strategies, strictly
-- ascending offsets into the primary posting, which lead to the common rows.
pub intersect_checked_lem :
    (capacity : ℕ) (bitmap : ℕ → ℕ) (strategy : IntersectionStrategy) (primary secondary : List ℕ)
    → IsAscendingFrom 0 primary
    → IsAscendingFrom 0 secondary
    → HasBitmap strategy bitmap secondary
    → length primary ≤ maximum_primary_support
    → length primary ≤ capacity
    → (offsets : List ℕ) × (intersect_checked capacity bitmap strategy primary secondary
        ≡ ok offsets)
      × IsSupport 0 (length primary) offsets
      × (map (λ offset. get_or primary offset 0) offsets ≡ both secondary primary)
unfolding intersect_checked
intersect_checked_lem capacity bitmap strategy primary secondary p q h k l =
    let fits : leb (length primary) maximum_primary_support ≡ true = ground arith in
    let reserved : leb (length primary) capacity ≡ true = ground arith in
    let common_offsets : intersect_local_offsets bitmap strategy primary secondary
        ≡ common offset_at secondary 0 primary =
      unfold intersect_local_offsets in
      intersect_by-common offset_at bitmap strategy primary secondary p q h in
    (
      intersect_local_offsets bitmap strategy primary secondary,
      rw (fits, reserved) refl,
      rw common_offsets (
        offsets-IsAscendingFrom secondary 0 primary (omega arith),
        offsets-IsBelow secondary 0 (length primary) primary (omega arith),
      ),
      local-both bitmap strategy primary secondary p q h k,
    )

-- The rows of a primary posting that is given as a list.
abbrev pub rows_of : List ℕ → (ℕ → ℕ) → ℕ → (ℕ → ℕ) → Rows
rows_of primary vectors stride query = record {
  primary_global_ids = λ offset. get_or primary offset 0;
  vectors = vectors;
  vector_stride = stride;
  query = query;
}

map-candidate :
    (r : Rows) (offsets : List ℕ)
    → map (candidate r r.primary_global_ids) offsets
      ≡ map (id_candidate r) (map r.primary_global_ids offsets)
map-candidate r [] = refl
map-candidate r (offset ∷ offsets) =
    ap (◌∷◌ (id_candidate r (r.primary_global_ids offset))) (map-candidate r offsets)

-- For ascending postings without negative ids, of which the primary has at most 65,536 rows, the scan of the
-- local offsets and the scan of the global ids return the same, whichever strategies find them.
pub representations_lem :
    (k : ℕ) (vectors : ℕ → ℕ) (stride : ℕ) (query : ℕ → ℕ) (bitmap : ℕ → ℕ)
    (strategy other : IntersectionStrategy) (primary secondary : List ℕ)
    → IsAscendingFrom 0 primary
    → IsAscendingFrom 0 secondary
    → HasBitmap strategy bitmap secondary
    → HasBitmap other bitmap secondary
    → length primary ≤ maximum_primary_support
    → scan_exact k
        (intersect_local_offsets bitmap strategy primary secondary)
        (rows_of primary vectors stride query)
      ≡ scan_global_ids k
          (intersect_global_ids bitmap other primary secondary)
          (rows_of primary vectors stride query)
unfolding scan_exact scan_global_ids
representations_lem k vectors stride query bitmap strategy other primary secondary p q h h' l =
    let r = rows_of primary vectors stride query in
    ap (λ xs. map result_id (insert_all k xs (empty_frontier k)))
      (map-candidate r (intersect_local_offsets bitmap strategy primary secondary)
        ∙ ap (map (id_candidate r)) (
            local-both bitmap strategy primary secondary p q h l
            ∙ sym (intersect_global_ids_lem bitmap other primary secondary p q h')))

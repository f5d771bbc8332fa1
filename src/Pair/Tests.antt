-- ===== src/Pair/Tests.antt =====
-- Runs of the pair scans of src/categorical/include, and the theorems at them.
use mathlib.Core.List.Perm
use mathlib.Core.List.{perm_middle}
use booleann.Base.{
  ℕ, suc, ◌+◌, ◌*◌, ◌%◌, ◌^◌, ◌≤◌, ◌<◌, ◌≡◌, refl, ◌↔◌, List, [], ◌∷◌, map, take, ◌==◌,
  if◌then◌else◌, get_or, pos, arith, Perm,
}
use booleann.Base.Result.{ok}
use booleann.Base.Ordered.{IsSupport}
use booleann.Pair.{DistanceId, worst, squared_l2, permute, insert_top_k, shift, dimensions}
use booleann.Pair.Scan.{
  Rows, candidate, id_candidate, scan_exact, scan_packed, scan_global_ids, scan_bounded,
  scan_packed_bounded, scan_packed_bounded32,
}
use booleann.Pair.Frontier.{insert}
use booleann.Pair.Inserted.{Ready, insert_top_k_lem}
use booleann.Pair.Bounded.{bounded_scans_lem}
use booleann.Pair.Lower.{IsBytes}
use booleann.Pair.Block16.{scan_block16}
use booleann.Pair.Prefix128.{scan_prefix128}
use booleann.Pair.Nearest.{IsNearest, scans-IsNearest}
use booleann.Pair.Intersect.{
  secondary_bitmap, sorted_merge, galloping_primary, has_bit, by_bitmap, by_merge, by_galloping,
  gallop_at, lower_bound, intersect_by, intersect_global_ids, intersect_local_offsets,
  intersect_checked,
}
use booleann.Pair.Composed.{
  both, rows_of, intersect_global_ids_lem, intersect_checked_lem, representations_lem,
}
use booleann.Pair.Checked.{
  Inputs, rows_in, strict_ids, strict_offsets, scan_exact_checked, scan_block16_checked,
  scan_packed_checked,
}
use booleann.Pair.Readable.{IsValid, scan_exact_checked_lem, scan_exact_checked_reads}
use booleann.Pair.Agreement.{cascades_lem, block16-packed_checked}
use booleann.Pair.Permuted.{below, squared_l2-permute}

abbrev entry : ℕ → ℕ → DistanceId
entry d id = record { distance = d; global_id = id }

abbrev frontier : List DistanceId
frontier = entry 5 9 ∷ entry 7 2 ∷ worst ∷ []

insert_run : insert_top_k 2 (entry 7 1) frontier ≡ entry 5 9 ∷ entry 7 1 ∷ entry 7 2 ∷ []
unfolding insert_top_k shift
insert_run = refl

frontier-Ready : Ready 2 frontier
frontier-Ready = record { size = refl; sorted = (refl, (refl, tt)) }

insert_top_k_example :
    (insert_top_k 2 (entry 7 1) frontier ≡ take 3 (insert (entry 7 1) frontier))
    × Ready 2 (insert_top_k 2 (entry 7 1) frontier)
insert_top_k_example = insert_top_k_lem 2 (entry 7 1) frontier frontier-Ready

abbrev vectors : ℕ → ℕ
vectors i = i % 256

abbrev query : ℕ → ℕ
query i = 0

vectors-IsBytes : IsBytes vectors
vectors-IsBytes i = omega arith

query-IsBytes : IsBytes query
query-IsBytes i = omega arith

abbrev primary : List ℕ
primary = 3 ∷ 64 ∷ 70 ∷ []

abbrev secondary : List ℕ
secondary = 2 ∷ 3 ∷ 70 ∷ 99 ∷ []

abbrev rows : Rows
rows = rows_of primary vectors 192 query

bounded_scans_example :
    (scan_bounded 1 (0 ∷ 1 ∷ 2 ∷ []) rows ≡ scan_exact 1 (0 ∷ 1 ∷ 2 ∷ []) rows)
    × (scan_packed_bounded 1 (0 ∷ 1 ∷ 2 ∷ []) rows ≡ scan_packed 1 (0 ∷ 1 ∷ 2 ∷ []) rows)
    × (scan_packed_bounded32 1 (0 ∷ 1 ∷ 2 ∷ []) rows ≡ scan_packed 1 (0 ∷ 1 ∷ 2 ∷ []) rows)
bounded_scans_example = bounded_scans_lem 1 rows (0 ∷ 1 ∷ 2 ∷ []) query-IsBytes vectors-IsBytes

cascades_example :
    (scan_block16 1 (0 ∷ 1 ∷ 2 ∷ []) rows ≡ scan_packed 1 (0 ∷ 1 ∷ 2 ∷ []) rows)
    × (scan_prefix128 1 (0 ∷ 1 ∷ 2 ∷ []) rows ≡ scan_packed 1 (0 ∷ 1 ∷ 2 ∷ []) rows)
cascades_example = cascades_lem 1 rows (0 ∷ 1 ∷ 2 ∷ []) query-IsBytes vectors-IsBytes

scans-IsNearest_example :
    IsNearest 2
      (map (candidate rows rows.primary_global_ids) (0 ∷ 2 ∷ []))
      (scan_exact 1 (0 ∷ 2 ∷ []) rows)
    × IsNearest 2
        (map (candidate rows (λ offset. offset)) (0 ∷ 2 ∷ []))
        (scan_packed 1 (0 ∷ 2 ∷ []) rows)
    × IsNearest 2 (map (id_candidate rows) (0 ∷ 2 ∷ [])) (scan_global_ids 1 (0 ∷ 2 ∷ []) rows)
scans-IsNearest_example = scans-IsNearest 1 rows (0 ∷ 2 ∷ []) query-IsBytes vectors-IsBytes

primary-ascends : IsSupport 0 100 primary
primary-ascends = (
  (omega arith, (omega arith, (omega arith, tt))),
  (omega arith, (omega arith, (omega arith, tt))),
)

secondary-ascends : IsSupport 0 100 secondary
secondary-ascends = (
  (omega arith, (omega arith, (omega arith, (omega arith, tt)))),
  (omega arith, (omega arith, (omega arith, (omega arith, tt)))),
)

abbrev bitmap : ℕ → ℕ
bitmap word = if word == 0 then 12 else if word == 1 then 2 ^ 6 + 2 ^ 35 else 0

-- The three strategies on the same postings.
bitmap_run : intersect_global_ids bitmap secondary_bitmap primary secondary ≡ 3 ∷ 70 ∷ []
unfolding intersect_global_ids intersect_by by_bitmap has_bit
bitmap_run = refl

merge_run : intersect_local_offsets bitmap sorted_merge primary secondary ≡ 0 ∷ 2 ∷ []
unfolding intersect_local_offsets intersect_by by_merge
merge_run = refl

gallop_run : intersect_local_offsets bitmap galloping_primary primary secondary ≡ 0 ∷ 2 ∷ []
unfolding intersect_local_offsets intersect_by by_galloping gallop_at lower_bound
gallop_run = refl

intersect_global_ids_example :
    intersect_global_ids bitmap galloping_primary primary secondary ≡ both secondary primary
intersect_global_ids_example =
    intersect_global_ids_lem bitmap galloping_primary primary secondary primary-ascends.0
      secondary-ascends.0 tt

intersect_checked_example :
    (offsets : List ℕ) × (intersect_checked 3 bitmap sorted_merge primary secondary ≡ ok offsets)
    × IsSupport 0 3 offsets
    × (map (λ offset. get_or primary offset 0) offsets ≡ both secondary primary)
intersect_checked_example =
    intersect_checked_lem 3 bitmap sorted_merge primary secondary primary-ascends.0
      secondary-ascends.0 tt (omega arith) (omega arith)

representations_example :
    scan_exact 1 (intersect_local_offsets bitmap sorted_merge primary secondary) rows
    ≡ scan_global_ids 1 (intersect_global_ids bitmap galloping_primary primary secondary) rows
representations_example =
    representations_lem 1 vectors 192 query bitmap sorted_merge galloping_primary primary secondary
      primary-ascends.0 secondary-ascends.0 tt tt (omega arith)

abbrev inputs : Inputs
inputs = record {
  pair_offsets = 0 ∷ 2 ∷ [];
  primary_global_ids = pos 3 ∷ pos 64 ∷ pos 70 ∷ [];
  vectors = vectors;
  vector_stride = 192;
  query = query;
}

inputs-IsValid : IsValid 71 inputs
inputs-IsValid = record {
  posting = record {
    rows = primary;
    same = refl;
    ascending = primary-ascends.0;
    within = (refl, (refl, (refl, tt)));
  };
  offsets = ((omega arith, (omega arith, tt)), (omega arith, (omega arith, tt)));
  fits = omega arith;
  wide = omega arith;
  inhabited = omega arith;
  addressable = omega arith;
}

scan_exact_checked_example :
    (scan_exact_checked 1 71 inputs ≡ ok (pos 3 ∷ pos 70 ∷ []))
    ↔ (IsValid 71 inputs × (scan_exact 1 (0 ∷ 2 ∷ []) (rows_in inputs) ≡ pos 3 ∷ pos 70 ∷ []))
scan_exact_checked_example = scan_exact_checked_lem 1 71 inputs (pos 3 ∷ pos 70 ∷ [])

accepted_run : scan_exact_checked 1 71 inputs ≡ ok (scan_exact 1 (0 ∷ 2 ∷ []) (rows_in inputs))
accepted_run =
    (scan_exact_checked_lem 1 71 inputs (scan_exact 1 (0 ∷ 2 ∷ []) (rows_in inputs))).1
      (inputs-IsValid, refl)

scan_exact_checked_reads_example : (70 * 192 + dimensions ≤ 71 * 192) × (70 * 192 < 2 ^ 64)
scan_exact_checked_reads_example =
    scan_exact_checked_reads 1 71 inputs (scan_exact 1 (0 ∷ 2 ∷ []) (rows_in inputs)) 1 2
      accepted_run refl

block16_run : scan_block16_checked 1 inputs ≡ ok (scan_block16 1 (0 ∷ 2 ∷ []) (rows_in inputs))
unfolding scan_block16_checked strict_ids strict_offsets
block16_run = refl

block16-packed_checked_example :
    scan_packed_checked 1 inputs ≡ ok (scan_block16 1 (0 ∷ 2 ∷ []) (rows_in inputs))
block16-packed_checked_example =
    block16-packed_checked 1 inputs (scan_block16 1 (0 ∷ 2 ∷ []) (rows_in inputs)) query-IsBytes
      vectors-IsBytes block16_run

-- The order that begins with the last dimension.
abbrev rotated : ℕ → ℕ
rotated i = if i == 191 then 0 else i + 1

rotated-Perm : Perm (map rotated (below 192)) (below 192)
rotated-Perm = Perm.symm (perm_middle {a = 0} (map suc (below 191)) [])

squared_l2-permute_example :
    squared_l2 (permute query rotated) (permute vectors rotated) ≡ squared_l2 query vectors
squared_l2-permute_example =
    squared_l2-permute query vectors rotated query-IsBytes vectors-IsBytes rotated-Perm

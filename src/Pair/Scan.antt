-- ===== src/Pair/Scan.antt =====
-- src/categorical/include/pair_offset16_kernel.h: the scans of the offsets of a pair, and of the ids of an
-- intersection. K is k + 1.
use booleann.Base.{ℕ, ◌+◌, ◌*◌, Bool, List, [], ◌∷◌, map, if◌then◌else◌, get_or, ℤ}
use booleann.Pair.{
  DistanceId, worst, squared_l2, bounded_l2, every64, every32, insert_top_k, insert_all,
  empty_frontier, result_id,
}

-- What a scan reads: the posting of the primary tag, the vectors, their stride, and the query.
pub record Rows : Type 0 where
  pub primary_global_ids : ℕ → ℕ
  pub vectors : ℕ → ℕ
  pub vector_stride : ℕ
  pub query : ℕ → ℕ

-- The vector at a place of the array.
abbrev pub row_at : Rows → ℕ → ℕ → ℕ
row_at r place dimension = r.vectors (place * r.vector_stride + dimension)

-- The candidate of an offset, if its vector stands at the place that `place` gives.
abbrev pub candidate : Rows → (ℕ → ℕ) → ℕ → DistanceId
candidate r place offset = record {
  distance = squared_l2 r.query (row_at r (place offset));
  global_id = r.primary_global_ids offset;
}

-- `scan_exact_prevalidated`: the vectors stand at the global ids
unfoldable pub scan_exact : ℕ → List ℕ → Rows → List ℤ
scan_exact k pair_offsets r =
    map result_id
      (insert_all k (map (candidate r r.primary_global_ids) pair_offsets) (empty_frontier k))

-- `scan_exact_packed_primary_prevalidated`: the vectors stand at the offsets
unfoldable pub scan_packed : ℕ → List ℕ → Rows → List ℤ
scan_packed k pair_offsets r =
    map result_id
      (insert_all k (map (candidate r (λ offset. offset)) pair_offsets) (empty_frontier k))

-- The candidate of an id.
abbrev pub id_candidate : Rows → ℕ → DistanceId
id_candidate r id = record { distance = squared_l2 r.query (row_at r id); global_id = id }

-- `scan_global_id_scratch_exact_prevalidated`, on the ids themselves
unfoldable pub scan_global_ids : ℕ → List ℕ → Rows → List ℤ
scan_global_ids k survivor_ids r =
    map result_id (insert_all k (map (id_candidate r) survivor_ids) (empty_frontier k))

module _ (checkpoint : ℕ → Bool) (k : ℕ) (r : Rows) (place : ℕ → ℕ) where
  -- The loop of a bounded scan.
  unfoldable pub offer_all : List ℕ → List DistanceId → List DistanceId
  offer_all [] frontier = frontier
  offer_all (offset ∷ offsets) frontier =
      let last = get_or frontier k worst in
      let id = r.primary_global_ids offset in
      let sum = bounded_l2 checkpoint r.query (row_at r (place offset)) (record {
        cutoff_distance = last.distance;
        cutoff_global_id = last.global_id;
        candidate_global_id = id;
      }) in
      let proposed : DistanceId = record { distance = sum.partial; global_id = id } in
      offer_all offsets (if sum.rejected then frontier else insert_top_k k proposed frontier)

  abbrev scan_bounded_at : List ℕ → List ℤ
  scan_bounded_at pair_offsets = map result_id (offer_all pair_offsets (empty_frontier k))

-- `scan_exact_bounded_prevalidated`
unfoldable pub scan_bounded : ℕ → List ℕ → Rows → List ℤ
unfolding offer_all
scan_bounded k pair_offsets r = scan_bounded_at every64 k r r.primary_global_ids pair_offsets

-- `scan_exact_packed_primary_bounded_prevalidated`
unfoldable pub scan_packed_bounded : ℕ → List ℕ → Rows → List ℤ
unfolding offer_all
scan_packed_bounded k pair_offsets r = scan_bounded_at every64 k r (λ offset. offset) pair_offsets

-- `scan_exact_packed_primary_bounded32_prevalidated`
unfoldable pub scan_packed_bounded32 : ℕ → List ℕ → Rows → List ℤ
unfolding offer_all
scan_packed_bounded32 k pair_offsets r = scan_bounded_at every32 k r (λ offset. offset) pair_offsets

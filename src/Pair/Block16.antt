-- ===== src/Pair/Block16.antt =====
-- src/categorical/include/pair_offset16_block16.h: the exact scan in blocks of 16 candidates, which reads the
-- second and third line of a vector only where the sum so far can still improve the frontier. The counters
-- of the variant with statistics and the prefetches are left out; pointers are not null; K is k + 1.
use booleann.Base.{
  ℕ, zero, suc, ◌+◌, ◌*◌, ◌%◌, ◌^◌, Bool, not, List, [], ◌∷◌, map, if◌then◌else◌, get_or, take,
  drop, length, ℤ,
}
use booleann.Pair.{
  DistanceId, worst, less, sum_l2, from, insert_top_k, insert_all, empty_frontier, result_id,
}
use booleann.Pair.Scan.{Rows, row_at, candidate}

-- `kLineBytes`
abbrev pub line_bytes : ℕ
line_bytes = 64

-- `kBlockCandidates`
abbrev pub block_candidates : ℕ
block_candidates = 16

pub record Candidate : Type 0 where
  pub partial_distance : ℕ
  pub global_id : ℕ
  pub local_offset : ℕ

unfoldable pub exact_line64 : (ℕ → ℕ) → (ℕ → ℕ) → ℕ
exact_line64 left right = sum_l2 line_bytes left right

-- The test of a partial sum against the last entry.
abbrev pub improves : Candidate → DistanceId → Bool
improves c last = less (record { distance = c.partial_distance; global_id = c.global_id }) last

-- The candidates of a block whose first line can improve the frontier.
unfoldable pub stage0 : Rows → DistanceId → List ℕ → List Candidate
unfolding exact_line64
stage0 r last [] = []
stage0 r last (offset ∷ offsets) =
    let rest = stage0 r last offsets in
    let c : Candidate = record {
      partial_distance = exact_line64 r.query (row_at r offset);
      global_id = r.primary_global_ids offset;
      local_offset = offset;
    } in
    if improves c last then c ∷ rest else rest

-- Those whose second line leaves them able to.
unfoldable pub stage1 : Rows → DistanceId → List Candidate → List Candidate
unfolding exact_line64
stage1 r last [] = []
stage1 r last (before ∷ candidates) =
    let rest = stage1 r last candidates in
    let row = row_at r before.local_offset in
    let line = exact_line64 (from line_bytes r.query) (from line_bytes row) in
    let c : Candidate = record {
      partial_distance = (before.partial_distance + line) % 2 ^ 32;
      global_id = before.global_id;
      local_offset = before.local_offset;
    } in
    if improves c last then c ∷ rest else rest

-- Those are held against the frontier again, completed and inserted.
unfoldable pub stage2 : ℕ → Rows → List Candidate → List DistanceId → List DistanceId
unfolding exact_line64
stage2 k r [] frontier = frontier
stage2 k r (c ∷ candidates) frontier =
    let row = row_at r c.local_offset in
    let line = exact_line64 (from (2 * line_bytes) r.query) (from (2 * line_bytes) row) in
    let proposed : DistanceId = record {
      distance = (c.partial_distance + line) % 2 ^ 32;
      global_id = c.global_id;
    } in
    stage2 k r candidates (
      if not (improves c (get_or frontier k worst))
      then frontier
      else insert_top_k k proposed frontier)

unfoldable pub scan_block : ℕ → Rows → List ℕ → List DistanceId → List DistanceId
unfolding stage0 stage1 stage2
scan_block k r offsets frontier =
    let last = get_or frontier k worst in
    stage2 k r (stage1 r last (stage0 r last offsets)) frontier

-- The loop over the blocks, on fuel.
unfoldable pub scan_blocks : ℕ → ℕ → Rows → List ℕ → List DistanceId → List DistanceId
unfolding scan_block
scan_blocks zero k r offsets frontier = frontier
scan_blocks (suc fuel) k r [] frontier = frontier
scan_blocks (suc fuel) k r (offset ∷ offsets) frontier =
    scan_blocks fuel k r (drop block_candidates (offset ∷ offsets))
      (scan_block k r (take block_candidates (offset ∷ offsets)) frontier)

-- The frontier of the first K candidates.
abbrev pub seeded : ℕ → List ℕ → Rows → List DistanceId
seeded k pair_offsets r =
    insert_all k (map (candidate r (λ offset. offset)) (take (suc k) pair_offsets))
      (empty_frontier k)

-- `scan_prevalidated`
unfoldable pub scan_block16 : ℕ → List ℕ → Rows → List ℤ
unfolding scan_blocks
scan_block16 k pair_offsets r =
    let others = drop (suc k) pair_offsets in
    map result_id (scan_blocks (length others) k r others (seeded k pair_offsets r))

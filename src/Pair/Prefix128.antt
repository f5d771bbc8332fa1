-- ===== src/Pair/Prefix128.antt =====
-- src/categorical/include/pair_offset16_prefix128.h: the exact scan in two passes, of which the second completes
-- only the sums whose first 128 terms can still improve the frontier. The counters and the prefetches are
-- left out; pointers are not null, and the scratch buffer is as large as the pair; K is k + 1.
use booleann.Base.{
  ℕ, suc, ◌+◌, ◌%◌, ◌^◌, Bool, not, List, [], ◌∷◌, map, if◌then◌else◌, get_or, drop, ℤ,
}
use booleann.Pair.{DistanceId, worst, less, sum_l2, from, insert_top_k, result_id}
use booleann.Pair.Scan.{Rows, row_at}
use booleann.Pair.Block16.{seeded}

-- `kPrefixBytes`
abbrev pub prefix_bytes : ℕ
prefix_bytes = 128

-- `kSuffixBytes`
abbrev pub suffix_bytes : ℕ
suffix_bytes = 64

pub record Survivor : Type 0 where
  pub prefix_distance : ℕ
  pub global_id : ℕ
  pub local_offset : ℕ

unfoldable pub exact_prefix128 : (ℕ → ℕ) → (ℕ → ℕ) → ℕ
exact_prefix128 left right = sum_l2 prefix_bytes left right

unfoldable pub exact_suffix64 : (ℕ → ℕ) → (ℕ → ℕ) → ℕ
exact_suffix64 left right = sum_l2 suffix_bytes left right

-- The test of a prefix against the last entry.
abbrev pub can_improve : Survivor → DistanceId → Bool
can_improve s last = less (record { distance = s.prefix_distance; global_id = s.global_id }) last

-- The first pass, which leaves the frontier as it is.
unfoldable pub first_pass : Rows → DistanceId → List ℕ → List Survivor
unfolding exact_prefix128
first_pass r last [] = []
first_pass r last (offset ∷ offsets) =
    let rest = first_pass r last offsets in
    let s : Survivor = record {
      prefix_distance = exact_prefix128 r.query (row_at r offset);
      global_id = r.primary_global_ids offset;
      local_offset = offset;
    } in
    if can_improve s last then s ∷ rest else rest

unfoldable pub second_pass : ℕ → Rows → List Survivor → List DistanceId → List DistanceId
unfolding exact_suffix64
second_pass k r [] frontier = frontier
second_pass k r (s ∷ survivors) frontier =
    let row = row_at r s.local_offset in
    let suffix = exact_suffix64 (from prefix_bytes r.query) (from prefix_bytes row) in
    let proposed : DistanceId = record {
      distance = (s.prefix_distance + suffix) % 2 ^ 32;
      global_id = s.global_id;
    } in
    second_pass k r survivors (
      if not (can_improve s (get_or frontier k worst))
      then frontier
      else insert_top_k k proposed frontier)

-- `scan_prevalidated`
unfoldable pub scan_prefix128 : ℕ → List ℕ → Rows → List ℤ
unfolding first_pass second_pass
scan_prefix128 k pair_offsets r =
    let frontier = seeded k pair_offsets r in
    let survivors = first_pass r (get_or frontier k worst) (drop (suc k) pair_offsets) in
    map result_id (second_pass k r survivors frontier)

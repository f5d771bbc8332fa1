-- ===== src/Pair.antt =====
-- src/categorical/include/pair_offset16_kernel.h: the exact scan of the rows of a pair of tags. Distances are
-- sums of squares of byte differences, in 32 bits; of the two branches of `#if defined(__AVX2__)`, which
-- add up the same terms, the portable one is translated. Prefetches have no effect on the result.
-- An array that comes without its size is a function of the index; the frontier is a list of K entries.
pub mod Scan
pub mod Frontier
pub mod Inserted
pub mod Lower
pub mod Block16
pub mod Prefix128
pub mod Cascaded
pub mod Candidates
pub mod Bounded
pub mod Sorting
pub mod Nearest
pub mod Intersect
pub mod Common
pub mod Composed
pub mod Checked
pub mod Accepted
pub mod Readable
pub mod Agreement
pub mod Permuted
pub mod Tests
use booleann.Base.{
  ℕ, zero, suc, ◌+◌, ◌-◌, ◌*◌, ◌%◌, ◌^◌, Bool, true, false, not, ◌&&◌, ◌||◌, List, [], ◌∷◌, map,
  ltb, leb, ◌==◌, if◌then◌else◌, get_or, set, replicate, ℤ, pos, negsuc,
}

-- `kDimensions`
abbrev pub dimensions : ℕ
dimensions = 192

abbrev pub max_u32 : ℕ
max_u32 = 2 ^ 32 - 1

-- The ids are checked not to be negative.
pub record DistanceId : Type 0 where
  pub distance : ℕ
  pub global_id : ℕ

-- The value of a `DistanceId` that nothing has been written to.
abbrev pub worst : DistanceId
worst = record { distance = max_u32; global_id = 2 ^ 31 - 1 }

abbrev pub less : DistanceId → DistanceId → Bool
less x y = ltb x.distance y.distance || (x.distance == y.distance && ltb x.global_id y.global_id)

-- The square of the difference of two bytes.
abbrev pub square : ℕ → ℕ → ℕ
square a b = (a - b + (b - a)) * (a - b + (b - a))

-- The sum over so many dimensions, the loop of `squared_l2_u8_192`.
unfoldable pub sum_l2 : ℕ → (ℕ → ℕ) → (ℕ → ℕ) → ℕ
sum_l2 zero left right = 0
sum_l2 (suc dimension) left right =
    (sum_l2 dimension left right + square (left dimension) (right dimension)) % 2 ^ 32

unfoldable pub squared_l2 : (ℕ → ℕ) → (ℕ → ℕ) → ℕ
squared_l2 left right = sum_l2 dimensions left right

-- An array from a later place on.
abbrev pub from : ℕ → (ℕ → ℕ) → ℕ → ℕ
from start bytes i = bytes (start + i)

-- What a partial sum is held against.
pub record Cutoff : Type 0 where
  pub cutoff_distance : ℕ
  pub cutoff_global_id : ℕ
  pub candidate_global_id : ℕ

abbrev pub beyond : Cutoff → ℕ → Bool
beyond c partial =
    ltb c.cutoff_distance partial
    || (partial == c.cutoff_distance && leb c.cutoff_global_id c.candidate_global_id)

-- `rejected` and the sum so far; a rejection returns, so it ends the loop.
pub record Staged : Type 0 where
  pub rejected : Bool
  pub partial : ℕ

module _ (checkpoint : ℕ → Bool) (left right : ℕ → ℕ) (c : Cutoff) where
  -- The loop of the bounded sums, after so many dimensions.
  unfoldable pub staged : ℕ → Staged
  staged zero = record { rejected = false; partial = 0 }
  staged (suc dimension) =
      let before = staged dimension in
      let partial = (before.partial + square (left dimension) (right dimension)) % 2 ^ 32 in
      if before.rejected
      then before
      else record { rejected = checkpoint (suc dimension) && beyond c partial; partial = partial }

  -- `squared_l2_u8_192_bounded` and its variant, which differ in where they look at the partial sum
  unfoldable pub bounded_l2 : Staged
  bounded_l2 =
      if c.cutoff_distance == max_u32
      then record { rejected = false; partial = squared_l2 left right }
      else staged dimensions

-- The checkpoints of `squared_l2_u8_192_bounded`.
unfoldable pub every64 : ℕ → Bool
every64 dimension = dimension == 64 || dimension == 128

-- The checkpoints of `squared_l2_u8_192_bounded32`.
unfoldable pub every32 : ℕ → Bool
every32 dimension = dimension % 32 == 0 && ltb dimension dimensions

-- `permute_u8_192_prevalidated`, on the 192 entries that it writes
unfoldable pub permute : (ℕ → ℕ) → (ℕ → ℕ) → ℕ → ℕ
permute input dimension_order dimension = input (dimension_order dimension)

-- The loop of `insert_top_k` from a position on.
unfoldable pub shift : DistanceId → ℕ → List DistanceId → List DistanceId
shift proposed zero frontier = set frontier 0 proposed
shift proposed (suc position) frontier =
    let above = get_or frontier position worst in
    let moved = shift proposed position (set frontier (suc position) above) in
    if less proposed above then moved else set frontier (suc position) proposed

-- `insert_top_k`, at K = k + 1
unfoldable pub insert_top_k : ℕ → DistanceId → List DistanceId → List DistanceId
unfolding shift
insert_top_k k proposed frontier =
    if not (less proposed (get_or frontier k worst)) then frontier else shift proposed k frontier

abbrev pub empty_frontier : ℕ → List DistanceId
empty_frontier k = replicate (suc k) worst

-- An entry as it is returned, -1 where nothing was found.
abbrev pub result_id : DistanceId → ℤ
result_id d = if d.distance == max_u32 then negsuc 0 else pos d.global_id

-- The candidates one after the other, each inserted.
unfoldable pub insert_all : ℕ → List DistanceId → List DistanceId → List DistanceId
unfolding insert_top_k
insert_all k [] frontier = frontier
insert_all k (proposed ∷ candidates) frontier =
    insert_all k candidates (insert_top_k k proposed frontier)

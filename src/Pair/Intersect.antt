-- ===== src/Pair/Intersect.antt =====
-- The intersections of src/categorical/include/pair_offset16_kernel.h: the rows of the primary posting that the
-- secondary one has as well, by bitmap, by a sorted merge or by galloping. The two functions differ in what
-- they push for a row, which is `push` here. The ids of postings are not negative.
use Prim.Native.Nat.{bit_and}
use booleann.Base.{
  ℕ, zero, suc, ◌+◌, ◌*◌, ◌/◌, ◌%◌, ◌^◌, Bool, true, false, not, ◌||◌, List, [], ◌∷◌, ltb, leb,
  ◌==◌, if◌then◌else◌, length,
}
use booleann.Base.Result.{Result, ok, ◌>>◌, require}

-- `kMaximumPrimarySupport`
abbrev pub maximum_primary_support : ℕ
maximum_primary_support = 2 ^ 16

-- `kHighTagBitmapThreshold`
abbrev pub high_tag_bitmap_threshold : ℕ
high_tag_bitmap_threshold = 65536

pub data IntersectionStrategy : Type 0 where
  secondary_bitmap : IntersectionStrategy
  sorted_merge : IntersectionStrategy
  galloping_primary : IntersectionStrategy

pub data ScratchRepresentation : Type 0 where
  local_offset16 : ScratchRepresentation
  global_id32 : ScratchRepresentation

-- The bit of an id in the words of a bitmap.
unfoldable pub has_bit : (ℕ → ℕ) → ℕ → Bool
has_bit bitmap id = not (bit_and (bitmap (id / 64)) (2 ^ (id % 64)) == 0)

abbrev empty : List ℕ → Bool
empty [] = true
empty (x ∷ xs) = false

-- `std::lower_bound` on a sorted range: what is left from the first entry that is not less.
unfoldable pub lower_bound : ℕ → List ℕ → List ℕ
lower_bound id [] = []
lower_bound id (x ∷ xs) = let rest = lower_bound id xs in if ltb x id then rest else x ∷ xs

-- What is pushed for the row at an index of the primary posting, and its id.
module _ (push : ℕ → ℕ → ℕ) where
  -- The loop over the bitmap.
  unfoldable pub by_bitmap : (ℕ → ℕ) → ℕ → List ℕ → List ℕ
  unfolding has_bit
  by_bitmap bitmap index [] = []
  by_bitmap bitmap index (id ∷ ids) =
      let rest = by_bitmap bitmap (suc index) ids in
      if has_bit bitmap id then push index id ∷ rest else rest

  -- The loop of the merge, on fuel.
  unfoldable pub by_merge : ℕ → ℕ → List ℕ → List ℕ → List ℕ
  by_merge zero index primary secondary = []
  by_merge (suc fuel) index [] secondary = []
  by_merge (suc fuel) index (p ∷ ps) [] = []
  by_merge (suc fuel) index (p ∷ ps) (s ∷ ss) =
      let behind_primary = by_merge fuel (suc index) ps (s ∷ ss) in
      let behind_secondary = by_merge fuel index (p ∷ ps) ss in
      let behind_both = by_merge fuel (suc index) ps ss in
      if ltb p s
      then behind_primary
      else if ltb s p
      then behind_secondary
      else push index p ∷ behind_both

  -- A row held against the secondary rows that `lower_bound` leaves.
  unfoldable pub gallop_at : (List ℕ → List ℕ) → ℕ → ℕ → List ℕ → List ℕ
  gallop_at next index id [] = []
  gallop_at next index id (s ∷ ss) = if s == id then push index id ∷ next ss else next (s ∷ ss)

  -- The loop that moves through the secondary posting by `lower_bound`.
  unfoldable pub by_galloping : ℕ → List ℕ → List ℕ → List ℕ
  unfolding lower_bound gallop_at
  by_galloping index [] cursor = []
  by_galloping index (id ∷ ids) cursor =
      gallop_at (by_galloping (suc index) ids) index id (lower_bound id cursor)

  unfoldable pub intersect_by : (ℕ → ℕ) → IntersectionStrategy → List ℕ → List ℕ → List ℕ
  unfolding by_bitmap by_merge by_galloping
  intersect_by bitmap secondary_bitmap primary secondary =
      if empty primary then [] else by_bitmap bitmap 0 primary
  intersect_by bitmap sorted_merge primary secondary =
      if empty primary || empty secondary
      then []
      else by_merge (length primary + length secondary) 0 primary secondary
  intersect_by bitmap galloping_primary primary secondary =
      if empty primary || empty secondary then [] else by_galloping 0 primary secondary

-- `intersect_postings_to_global_id_scratch_prevalidated`
unfoldable pub intersect_global_ids : (ℕ → ℕ) → IntersectionStrategy → List ℕ → List ℕ → List ℕ
unfolding intersect_by
intersect_global_ids bitmap strategy primary secondary =
    intersect_by (λ index id. id) bitmap strategy primary secondary

-- `intersect_postings_to_local_offset16_scratch_prevalidated`
unfoldable pub intersect_local_offsets : (ℕ → ℕ) → IntersectionStrategy → List ℕ → List ℕ → List ℕ
unfolding intersect_by
intersect_local_offsets bitmap strategy primary secondary =
    intersect_by (λ index id. index % 2 ^ 16) bitmap strategy primary secondary

-- The exceptions of the checked intersection and of the choice of a strategy.
pub data IntersectionError : Type 0 where
  primary_does_not_fit : IntersectionError
  scratch_not_reserved : IntersectionError
  not_oriented : IntersectionError
  bitmap_missing : IntersectionError

-- `intersect_postings_to_local_offset16_scratch_checked`; pointers are not null, a strategy is one of three
unfoldable pub intersect_checked :
    ℕ → (ℕ → ℕ) → IntersectionStrategy → List ℕ → List ℕ → Result IntersectionError (List ℕ)
unfolding intersect_local_offsets
intersect_checked scratch_capacity bitmap strategy primary secondary =
    require (leb (length primary) maximum_primary_support) primary_does_not_fit
    >> require (leb (length primary) scratch_capacity) scratch_not_reserved
    >> ok (intersect_local_offsets bitmap strategy primary secondary)

unfoldable pub choose_scratch_representation : ℕ → ScratchRepresentation
choose_scratch_representation primary_support =
    if leb primary_support maximum_primary_support then local_offset16 else global_id32

-- `primary_size * 8` wraps at 64 bits.
unfoldable pub choose_intersection_strategy : ℕ → ℕ → Bool → IntersectionStrategy
choose_intersection_strategy primary_size secondary_size has_secondary_bitmap =
    if has_secondary_bitmap
    then secondary_bitmap
    else if ltb (primary_size * 8 % 2 ^ 64) secondary_size
    then galloping_primary
    else sorted_merge

unfoldable pub choose_support_complement :
    ℕ → ℕ → Bool → Result IntersectionError IntersectionStrategy
choose_support_complement primary_support secondary_support secondary_bitmap_present =
    require (leb primary_support secondary_support) not_oriented
    >> (if secondary_bitmap_present
        then ok secondary_bitmap
        else require (leb secondary_support high_tag_bitmap_threshold) bitmap_missing
          >> ok sorted_merge)

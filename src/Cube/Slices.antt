-- ===== src/Cube/Slices.antt =====
-- The three slices of src/predicate_cube/predicate_cube.hpp on a cube that is laid out: a slice holds the
-- positions of exactly the rows whose labels match.
use booleann.Base.{
  ℕ, ◌+◌, ◌*◌, ◌≤◌, ◌<◌, ◌≡◌, refl, ap, ◌∙◌, true, ◌&&◌, ltb, leb, arith, ◌↔◌, dec_le, dec_lt,
}
use booleann.Base.Result.{ok}
use booleann.Cube.{
  Table, Cube, Slice, u32, bin_label, a_label, b_label, flat_cell, range_slice, a_slice, cell_slice,
}
use booleann.Cube.Count.{place-lt-below, below-le-place}
use booleann.Cube.Layout.{cell_of, IsTable, IsLaidOut, labels_lt, mixed_radix-lt}

-- The positions of a slice.
abbrev pub Holds : Slice → ℕ → Type 0
Holds s position = (s.begin ≤ position) × (position < s.end)

-- Digits of a mixed radix: which numbers a block of `n` holds.
digit-le : (lo x y n : ℕ) → lo ≤ x → lo * n ≤ x * n + y
digit-le lo x y n h = grind arith

digit-lt : (x y n hi : ℕ) → y < n → x < hi → x * n + y < hi * n
digit-lt x y n hi h k = grind arith

digit_above : (lo x y n : ℕ) → y < n → lo * n ≤ x * n + y → lo ≤ x
digit_above lo x y n h k = elim (dec_le lo x) [
  | yes p ↦ p
  | no p ↦ absurd (omega (arith, digit-lt x y n lo h (omega arith)))
]

digit_below : (x y n hi : ℕ) → x * n + y < hi * n → x < hi
digit_below x y n hi k = elim (dec_lt x hi) [
  | yes p ↦ p
  | no p ↦ absurd (omega (arith, digit-le hi x y n (omega arith)))
]

-- The blocks `lo` to `hi` hold exactly the numbers with a leading digit in that range.
block_iff :
    (lo hi x y n : ℕ)
    → y < n
    → ((lo * n ≤ x * n + y) × (x * n + y < (hi + 1) * n)) ↔ ((lo ≤ x) × (x ≤ hi))
block_iff lo hi x y n h = (
  λ p. (digit_above lo x y n h p.0, omega (arith, digit_below x y n (hi + 1) p.1)),
  λ p. (digit-le lo x y n p.0, digit-lt x y n (hi + 1) h (omega arith)),
)

digits_unique : (x y u w n : ℕ) → y < n → w < n → x * n + y ≡ u * n + w → (x ≡ u) × (y ≡ w)
digits_unique x y u w n h k e =
    let same : x ≡ u =
      omega (arith, digit_above u x y n h (omega arith), digit_above x u w n k (omega arith)) in
    (same, omega (arith, ap (λ (z : ℕ). z * n) same))

mul_mono : (x y n : ℕ) → x ≤ y → x * n ≤ y * n
mul_mono x y n h = grind arith

module _ (t : Table) (rows : ℕ) (v : IsTable t rows) (c : Cube) (laid : IsLaidOut t rows c) where
  -- A row stands behind the start of a cell exactly if its own cell is that one or a later one.
  position_iff :
      (x row : ℕ)
      → x ≤ c.cells
      → row < rows
      → (c.offsets x ≤ c.global_to_pos row) ↔ (x ≤ cell_of t row)
  position_iff x row h k =
      let start = laid.starts x h in
      let position = laid.forward row k in
      (
        λ p. elim (dec_le x (cell_of t row)) [
          | yes q ↦ q
          | no q ↦ absurd (
              omega (arith, start, position, place-lt-below (cell_of t) rows x row k (omega arith)))
        ],
        λ q. omega (arith, start, position, below-le-place (cell_of t) rows x row q),
      )

  -- The rows between the starts of two cells.
  between_iff :
      (x y row : ℕ)
      → x ≤ c.cells
      → y ≤ c.cells
      → row < rows
      → Holds (record { begin = c.offsets x; end = c.offsets y }) (c.global_to_pos row)
        ↔ ((x ≤ cell_of t row) × (cell_of t row < y))
  between_iff x y row h k l =
      let from = position_iff x row h l in
      let to = position_iff y row k l in
      (
        λ p. (
          from.0 p.0,
          elim (dec_lt (cell_of t row) y) [
            | yes q ↦ q
            | no q ↦ absurd (omega (arith, to.1 (omega arith)))
          ],
        ),
        λ p. (
          from.1 p.0,
          elim (dec_lt (c.global_to_pos row) (c.offsets y)) [
            | yes q ↦ q
            | no q ↦ absurd (omega (arith, to.0 (omega arith)))
          ],
        ),
      )

  abbrev per_bin : ℕ
  per_bin = t.a_count * t.b_count

  cells-per_bin : c.cells ≡ t.bins * per_bin
  cells-per_bin = laid.same_cells ∙ omega arith

  -- The index of a cell in its bin.
  abbrev within_bin : ℕ → ℕ
  within_bin row = a_label t row * t.b_count + b_label t row

  cell_of-split :
      (row : ℕ)
      → row < rows
      → (cell_of t row ≡ bin_label t row * per_bin + within_bin row) × (within_bin row < per_bin)
  cell_of-split row h =
      let (bin, a, b) = labels_lt t rows v row h in
      (omega arith, mixed_radix-lt (a_label t row) (b_label t row) t.a_count t.b_count a b)

  -- A range of bins is one slice: it holds the positions of exactly the rows with a bin in the range.
  pub range_slice_iff :
      (lo hi : ℕ)
      → lo ≤ hi
      → hi < t.bins
      → (s : Slice) × (range_slice c lo hi ≡ ok s)
        × ((row : ℕ)
            → row < rows
            → Holds s (c.global_to_pos row) ↔ ((lo ≤ bin_label t row) × (bin_label t row ≤ hi)))
  unfolding range_slice
  range_slice_iff lo hi h k =
      let last : (hi + 1) * per_bin ≤ c.cells =
        omega (arith, cells-per_bin, mul_mono (hi + 1) t.bins per_bin (omega arith)) in
      let first : lo * per_bin ≤ (hi + 1) * per_bin = mul_mono lo (hi + 1) per_bin (omega arith) in
      let one_bin : per_bin ≤ c.cells =
        omega (arith, last, mul_mono 1 (hi + 1) per_bin (omega arith)) in
      let small = v.cells in
      let same_per_bin : u32 (c.a_count * c.b_count) ≡ per_bin =
        (λ i. u32 (laid.extents.2 i * laid.extents.3 i))
        ∙ omega (arith, one_bin, laid.same_cells, small) in
      let begin : u32 (lo * per_bin) ≡ lo * per_bin =
        omega (arith, first, last, laid.same_cells, small) in
      let end : u32 ((hi + 1) * per_bin) ≡ (hi + 1) * per_bin =
        omega (arith, last, laid.same_cells, small) in
      let inside : (leb lo hi && ltb hi c.bins) ≡ true = ground (arith, laid.extents.1) in
      (
        record { begin = c.offsets (lo * per_bin); end = c.offsets ((hi + 1) * per_bin) },
        rw (inside, same_per_bin, begin, end) refl,
        λ row l.
            let between =
              between_iff (lo * per_bin) ((hi + 1) * per_bin) row (omega arith) last l in
            let (split, digit) = cell_of-split row l in
            let block = block_iff lo hi (bin_label t row) (within_bin row) per_bin digit in
            (
              λ p. let cell = between.0 p in block.0 (omega arith, omega arith),
              λ p. let cell = block.1 p in between.1 (omega arith, omega arith),
            ),
      )

  -- The cell of a label triple in range, as the code computes it.
  cell-small :
      (bin a b : ℕ)
      → bin < t.bins
      → a < t.a_count
      → b < t.b_count
      → ((bin * t.a_count + a) * t.b_count + t.b_count ≤ c.cells)
        × (flat_cell c.bins c.a_count c.b_count bin a b
            ≡ ok ((bin * t.a_count + a) * t.b_count + b))
  unfolding flat_cell
  cell-small bin a b h k l =
      let row = mixed_radix-lt bin a t.bins t.a_count h k in
      let block : (bin * t.a_count + a) * t.b_count + t.b_count ≤ c.cells = omega (
        arith,
        laid.same_cells,
        mul_mono (bin * t.a_count + a + 1) (t.bins * t.a_count) t.b_count (omega arith),
      ) in
      let wrap : u32 ((bin * t.a_count + a) * t.b_count + b)
          ≡ (bin * t.a_count + a) * t.b_count + b =
        omega (arith, block, laid.same_cells, v.cells) in
      (block, rw (laid.extents.1, laid.extents.2, laid.extents.3, wrap) (ground arith))

  -- The rows with a given bin and A label are one slice.
  pub a_slice_iff :
      (bin a : ℕ)
      → bin < t.bins
      → a < t.a_count
      → (s : Slice) × (a_slice c bin a ≡ ok s)
        × ((row : ℕ)
            → row < rows
            → Holds s (c.global_to_pos row) ↔ ((bin_label t row ≡ bin) × (a_label t row ≡ a)))
  unfolding a_slice
  a_slice_iff bin a h k =
      let q = bin * t.a_count + a in
      let (block, first) = cell-small bin a 0 h k v.domains.2 in
      let end : u32 (q * t.b_count + 0 + c.b_count) ≡ q * t.b_count + t.b_count =
        omega (arith, laid.extents.3, block, laid.same_cells, v.cells) in
      let inside : (ltb bin c.bins && ltb a c.a_count) ≡ true = ground (arith, laid.extents) in
      (
        record {
          begin = c.offsets (q * t.b_count + 0);
          end = c.offsets (q * t.b_count + t.b_count);
        },
        rw (inside, first, end) refl,
        λ row l.
            let between =
              between_iff (q * t.b_count + 0) (q * t.b_count + t.b_count) row (omega arith) block
                l in
            let (bin_in, a_in, b_in) = labels_lt t rows v row l in
            let q' = bin_label t row * t.a_count + a_label t row in
            let group = block_iff q q q' (b_label t row) t.b_count b_in in
            (
              λ p.
                  let cell = between.0 p in
                  let lead = group.0 (omega arith, omega arith) in
                  digits_unique (bin_label t row) (a_label t row) bin a t.a_count a_in k
                    (omega arith),
              λ p.
                  let lead : q' ≡ q = λ i. p.0 i * t.a_count + p.1 i in
                  let cell = group.1 (omega arith, omega arith) in
                  between.1 (omega arith, omega arith),
            ),
      )

  -- The rows of one cell are one slice.
  pub cell_slice_iff :
      (bin a b : ℕ)
      → bin < t.bins
      → a < t.a_count
      → b < t.b_count
      → (s : Slice) × (cell_slice c bin a b ≡ ok s)
        × ((row : ℕ)
            → row < rows
            → Holds s (c.global_to_pos row)
              ↔ ((bin_label t row ≡ bin) × (a_label t row ≡ a) × (b_label t row ≡ b)))
  unfolding cell_slice
  cell_slice_iff bin a b h k m =
      let cell = (bin * t.a_count + a) * t.b_count + b in
      let (block, found) = cell-small bin a b h k m in
      let end : u32 (cell + 1) ≡ cell + 1 = omega (arith, block, laid.same_cells, v.cells) in
      (
        record { begin = c.offsets cell; end = c.offsets (cell + 1) },
        rw (found, end) refl,
        λ row l.
            let between = between_iff cell (cell + 1) row (omega arith) (omega arith) l in
            let (bin_in, a_in, b_in) = labels_lt t rows v row l in
            let q' = bin_label t row * t.a_count + a_label t row in
            (
              λ p.
                  let position = between.0 p in
                  let (lead, last) =
                    digits_unique q' (b_label t row) (bin * t.a_count + a) b t.b_count b_in m
                      (omega arith) in
                  let (first, second) =
                    digits_unique (bin_label t row) (a_label t row) bin a t.a_count a_in k lead in
                  (first, second, last),
              λ p.
                  let same : cell_of t row ≡ cell =
                    λ i. (p.0 i * t.a_count + p.1 i) * t.b_count + p.2 i in
                  between.1 (omega arith, omega arith),
            ),
      )

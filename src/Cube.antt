-- ===== src/Cube.antt =====
-- src/predicate_cube/predicate_cube.hpp: the rows of a table, laid out in the order of their cell (bin,
-- A, B) and then of their id, so that the rows of a predicate on the labels are one slice.
-- A vector that the code fills is a function of the index, with its extent in the record; the code
-- reads and writes it within the extent.
pub mod Count
pub mod Fill
pub mod Layout
pub mod Slices
pub mod Audit
mod Tests
use booleann.Base.{
  ℕ, zero, suc, ◌+◌, ◌-◌, ◌*◌, ◌/◌, ◌%◌, ◌^◌, Bool, not, true, ◌&&◌, List, ltb, leb, ◌==◌,
  if◌then◌else◌, length, get_or,
}
use booleann.Base.Arrays.{update, copy}
use booleann.Base.Result.{Result, ok, err, require, ◌>>=◌, ◌>>◌}

pub data Error : Type 0 where
  not_a_matrix too_many_rows misaligned_labels empty_domain too_many_cells : Error
  label_outside_domain cell_outside_domain bad_span bad_scatter range_outside_domain audit_failed :
      Error

-- The arguments of the constructor: canonical vectors row by row, and the label columns.
pub record Table : Type 0 where
  pub vectors : List ℕ
  pub bin_labels : List ℕ
  pub a_labels : List ℕ
  pub b_labels : List ℕ
  pub dim : ℕ
  pub bins : ℕ
  pub a_count : ℕ
  pub b_count : ℕ

pub record Cube : Type 0 where
  pub rows : ℕ
  pub dim : ℕ
  pub bins : ℕ
  pub a_count : ℕ
  pub b_count : ℕ
  pub cells : ℕ
  pub offsets : ℕ → ℕ
  pub pos_to_global : ℕ → ℕ
  pub global_to_pos : ℕ → ℕ
  pub vectors_by_pos : ℕ → ℕ

pub record Slice : Type 0 where
  pub begin : ℕ
  pub end : ℕ

abbrev pub u32 : ℕ → ℕ
u32 x = x % 2 ^ 32

abbrev pub u64 : ℕ → ℕ
u64 x = x % 2 ^ 64

-- `numeric_limits<uint32_t>::max()`
abbrev pub max_u32 : ℕ
max_u32 = 2 ^ 32 - 1

unfoldable pub checked_rows : Table → Result Error ℕ
checked_rows t = do
  require (ltb 0 t.dim && length t.vectors % t.dim == 0) not_a_matrix
  let rows = length t.vectors / t.dim
  require (ltb 0 rows && leb rows max_u32) too_many_rows
  require (length t.bin_labels == rows && length t.a_labels == rows && length t.b_labels == rows)
      misaligned_labels
  ok rows

module _ (bins a_count b_count : ℕ) where
  unfoldable pub flat_cell_unchecked : ℕ → ℕ → ℕ → ℕ
  flat_cell_unchecked bin a b = u32 ((bin * a_count + a) * b_count + b)

  abbrev pub in_domain : ℕ → ℕ → ℕ → Bool
  in_domain bin a b = ltb bin bins && ltb a a_count && ltb b b_count

  unfoldable pub flat_cell : ℕ → ℕ → ℕ → Result Error ℕ
  unfolding flat_cell_unchecked
  flat_cell bin a b = do
    require (in_domain bin a b) cell_outside_domain
    ok (flat_cell_unchecked bin a b)

module _ (t : Table) where
  abbrev pub bin_label : ℕ → ℕ
  bin_label global = get_or t.bin_labels global 0

  abbrev pub a_label : ℕ → ℕ
  a_label global = get_or t.a_labels global 0

  abbrev pub b_label : ℕ → ℕ
  b_label global = get_or t.b_labels global 0

  -- The cell of a row.
  unfoldable pub row_cell : ℕ → Result Error ℕ
  unfolding flat_cell
  row_cell global =
      flat_cell t.bins t.a_count t.b_count (bin_label global) (a_label global) (b_label global)

  -- The first loop, after so many rows: the rows of a cell are counted one entry further on.
  unfoldable pub count_rows : ℕ → Result Error (ℕ → ℕ)
  count_rows zero = ok (λ _. 0)
  count_rows (suc global) = do
    offsets ← count_rows global
    require
        (in_domain t.bins t.a_count t.b_count (bin_label global) (a_label global) (b_label global))
        label_outside_domain
    cell ← row_cell global
    ok (update offsets (cell + 1) (u32 (offsets (cell + 1) + 1)))

-- The second loop, after so many cells.
unfoldable pub prefix_sums : ℕ → (ℕ → ℕ) → ℕ → ℕ
prefix_sums zero offsets = offsets
prefix_sums (suc cell) offsets =
    let done = prefix_sums cell offsets in
    update done (cell + 1) (u32 (done (cell + 1) + done cell))

-- What the scatter fills.
pub record Scatter : Type 0 where
  pub cursor : ℕ → ℕ
  pub pos_to_global : ℕ → ℕ
  pub global_to_pos : ℕ → ℕ
  pub vectors_by_pos : ℕ → ℕ

module _ (t : Table) where
  -- The rows are put, in the order of their ids, where the cursor of their cell stands.
  unfoldable pub scatter : (ℕ → ℕ) → ℕ → Result Error Scatter
  scatter offsets zero = ok (record {
    cursor = offsets;
    pos_to_global = λ _. 0;
    global_to_pos = λ _. 0;
    vectors_by_pos = λ _. 0;
  })
  scatter offsets (suc global) = do
    s ← scatter offsets global
    cell ← row_cell t global
    let position = s.cursor cell
    ok (record {
      cursor = update s.cursor cell (u32 (position + 1));
      pos_to_global = update s.pos_to_global position global;
      global_to_pos = update s.global_to_pos global position;
      vectors_by_pos =
          copy s.vectors_by_pos (position * t.dim) (λ j. get_or t.vectors j 0) (global * t.dim)
            t.dim;
    })

-- The last loop: each cursor stands at the end of its cell.
unfoldable pub cursors_done : ℕ → (ℕ → ℕ) → (ℕ → ℕ) → Bool
cursors_done zero cursor offsets = true
cursors_done (suc cell) cursor offsets =
    cursors_done cell cursor offsets && cursor cell == offsets (cell + 1)

-- The constructor up to its audit.
unfoldable pub lay_out : Table → Result Error Cube
lay_out t = do
  rows ← checked_rows t
  require (ltb 0 t.bins && ltb 0 t.a_count && ltb 0 t.b_count) empty_domain
  let cells = u64 (t.bins * t.a_count * t.b_count)
  require (ltb cells max_u32) too_many_cells
  counts ← count_rows t rows
  let offsets = prefix_sums cells counts
  require (offsets 0 == 0 && offsets cells == rows) bad_span
  s ← scatter t offsets rows
  require (cursors_done cells s.cursor offsets) bad_scatter
  ok (record {
    rows = rows;
    dim = t.dim;
    bins = t.bins;
    a_count = t.a_count;
    b_count = t.b_count;
    cells = cells;
    offsets = offsets;
    pos_to_global = s.pos_to_global;
    global_to_pos = s.global_to_pos;
    vectors_by_pos = s.vectors_by_pos;
  })

-- `range_slice`, `a_slice` and `cell_slice`
unfoldable pub range_slice : Cube → ℕ → ℕ → Result Error Slice
range_slice c lo hi = do
  require (leb lo hi && ltb hi c.bins) range_outside_domain
  let cells_per_bin = u32 (c.a_count * c.b_count)
  ok (record {
    begin = c.offsets (u32 (lo * cells_per_bin));
    end = c.offsets (u32 ((hi + 1) * cells_per_bin));
  })

unfoldable pub a_slice : Cube → ℕ → ℕ → Result Error Slice
a_slice c bin a = do
  require (ltb bin c.bins && ltb a c.a_count) range_outside_domain
  first ← flat_cell c.bins c.a_count c.b_count bin a 0
  ok (record { begin = c.offsets first; end = c.offsets (u32 (first + c.b_count)) })

unfoldable pub cell_slice : Cube → ℕ → ℕ → ℕ → Result Error Slice
cell_slice c bin a b = do
  cell ← flat_cell c.bins c.a_count c.b_count bin a b
  ok (record { begin = c.offsets cell; end = c.offsets (u32 (cell + 1)) })

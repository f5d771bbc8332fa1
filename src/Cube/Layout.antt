-- ===== src/Cube/Layout.antt =====
-- The constructor of src/predicate_cube/predicate_cube.hpp up to its audit: it succeeds on every table
-- whose extents and labels fit, and lays the rows out by cell and id.
use native.Mathlib.Nat.{mul-div_cancel, mod-eq-sub-mul-div}
use booleann.Base.{
  ℕ, ◌+◌, ◌*◌, ◌/◌, ◌%◌, ◌^◌, ◌≤◌, ◌<◌, ◌≡◌, refl, ap, ◌∙◌, true, ◌&&◌, ltb, ◌==◌, arith, get_or,
  length,
}
use booleann.Base.Result.{ok}
use booleann.Cube.{
  Table, Cube, max_u32, u32, bin_label, a_label, b_label, row_cell, checked_rows, prefix_sums,
  lay_out,
}
use booleann.Cube.Count.{below, place, below_all, below-zero}
use booleann.Cube.Fill.{
  row_in_domain, IsKeyed, scatter-IsPlaced, cursors-done, count_rows-same, prefix_sums-below,
}

-- The cell of a row, as the code numbers the cells.
abbrev pub cell_of : Table → ℕ → ℕ
cell_of t row = (bin_label t row * t.a_count + a_label t row) * t.b_count + b_label t row

-- The extents agree, the cells can be numbered, and every label is in its domain.
pub record IsTable (t : Table) (rows : ℕ) : Type 0 where
  pub dim : 0 < t.dim
  pub vectors : length t.vectors ≡ rows * t.dim
  pub rows_in : (0 < rows) × (rows ≤ max_u32)
  pub labels :
      (length t.bin_labels ≡ rows) × (length t.a_labels ≡ rows) × (length t.b_labels ≡ rows)
  pub domains : (0 < t.bins) × (0 < t.a_count) × (0 < t.b_count)
  pub cells : t.bins * t.a_count * t.b_count < max_u32
  pub inside : (row : ℕ) → row < rows → row_in_domain t row ≡ true

-- The cells are numbered without gaps: an index in mixed radix stays in range.
pub mixed_radix-lt : (x y m n : ℕ) → x < m → y < n → x * n + y < m * n
mixed_radix-lt x y m n h k = grind arith

module _ (t : Table) (rows : ℕ) (v : IsTable t rows) where
  abbrev cells : ℕ
  cells = t.bins * t.a_count * t.b_count

  pub labels_lt :
      (row : ℕ)
      → row < rows
      → (bin_label t row < t.bins) × (a_label t row < t.a_count) × (b_label t row < t.b_count)
  labels_lt row h = ground (arith, v.inside row h)

  pub cell_of-lt : (row : ℕ) → row < rows → cell_of t row < cells
  cell_of-lt row h =
      let (bin, a, b) = labels_lt row h in
      mixed_radix-lt (bin_label t row * t.a_count + a_label t row) (b_label t row)
        (t.bins * t.a_count) t.b_count
        (mixed_radix-lt (bin_label t row) (a_label t row) t.bins t.a_count bin a) b

  table-IsKeyed : IsKeyed t (cell_of t) cells rows
  unfolding row_cell
  table-IsKeyed = record {
    small = v.rows_in.1;
    valid = v.inside;
    cell = λ row h.
        let small : u32 (cell_of t row) ≡ cell_of t row =
          omega (arith, cell_of-lt row h, v.cells) in
        rw (v.inside row h, small) refl;
    inside = cell_of-lt;
  }

  checked_rows-ok : checked_rows t ≡ ok rows
  unfolding checked_rows
  checked_rows-ok =
      let quotient : length t.vectors / t.dim ≡ rows =
        ap (λ (k : ℕ). k / t.dim) v.vectors ∙ mul-div_cancel rows v.dim in
      let rest : length t.vectors % t.dim ≡ 0 = omega (
        arith,
        v.vectors,
        mod-eq-sub-mul-div (length t.vectors) t.dim,
        ap (λ (k : ℕ). t.dim * k) quotient,
      ) in
      ground (arith, quotient, rest, v.dim, v.rows_in, v.labels)

-- The rows of `t`, sorted by cell and then by id: the cells start where the rows of smaller cells end,
-- the two maps are inverse, and the bytes of each row stand at its position.
pub record IsLaidOut (t : Table) (rows : ℕ) (c : Cube) : Type 0 where
  pub same_rows : c.rows ≡ rows
  pub extents :
      (c.dim ≡ t.dim) × (c.bins ≡ t.bins) × (c.a_count ≡ t.a_count) × (c.b_count ≡ t.b_count)
  pub same_cells : c.cells ≡ t.bins * t.a_count * t.b_count
  pub starts : (x : ℕ) → x ≤ c.cells → c.offsets x ≡ below (cell_of t) x rows
  pub forward : (row : ℕ) → row < rows → c.global_to_pos row ≡ place (cell_of t) rows row
  pub back : (row : ℕ) → row < rows → c.pos_to_global (c.global_to_pos row) ≡ row
  pub bytes :
      (row i : ℕ)
      → row < rows
      → i < t.dim
      → c.vectors_by_pos (c.global_to_pos row * t.dim + i) ≡ get_or t.vectors (row * t.dim + i) 0

-- The constructor succeeds up to its audit, and the cube is laid out.
pub lay_out-IsLaidOut :
    (t : Table) (rows : ℕ) → IsTable t rows → (c : Cube) × (lay_out t ≡ ok c) × IsLaidOut t rows c
unfolding lay_out
lay_out-IsLaidOut t rows v =
    let key = cell_of t in
    let n = t.bins * t.a_count * t.b_count in
    let keyed = table-IsKeyed t rows v in
    let (counts, counted, first, rest) = count_rows-same t key n rows keyed rows (omega arith) in
    let offsets = prefix_sums n counts in
    let starts : (x : ℕ) → x ≤ n → offsets x ≡ below key x rows =
      λ x h. ground (arith, prefix_sums-below t key n rows keyed counts first rest n x) in
    let (s, run, placed) =
      scatter-IsPlaced t key n rows keyed offsets (λ x h. starts x (omega arith)) rows
        (omega arith) in
    let done = cursors-done t key n rows keyed offsets s starts placed n (omega arith) in
    let whole : below key n rows ≡ rows = below_all key n rows keyed.inside in
    let wrap : n % 2 ^ 64 ≡ n = omega (arith, v.cells) in
    let positive : (ltb 0 t.bins && ltb 0 t.a_count && ltb 0 t.b_count) ≡ true =
      ground (arith, v.domains) in
    let few : ltb n max_u32 ≡ true = ground (arith, v.cells) in
    let span : (offsets 0 == 0 && offsets n == rows) ≡ true =
      ground (arith, starts 0 (omega arith), starts n (omega arith), whole, below-zero key rows) in
    (
      record {
        rows = rows;
        dim = t.dim;
        bins = t.bins;
        a_count = t.a_count;
        b_count = t.b_count;
        cells = n;
        offsets = offsets;
        pos_to_global = s.pos_to_global;
        global_to_pos = s.global_to_pos;
        vectors_by_pos = s.vectors_by_pos;
      },
      rw (checked_rows-ok t rows v, positive, wrap, few, counted, span, run, done) refl,
      record {
        same_rows = refl;
        extents = (refl, refl, refl, refl);
        same_cells = refl;
        starts = starts;
        forward = placed.forward;
        back = λ row h. rw (placed.forward row h) (placed.back row h);
        bytes = λ row i h k. rw (placed.forward row h) (placed.bytes row i h k);
      },
    )

-- ===== src/Cube/Tests.antt =====
-- A small table, its cube, and the theorems at it.
use booleann.Base.{ℕ, zero, suc, ◌≤◌, ◌<◌, ◌≡◌, refl, Bool, true, false, List, [], ◌∷◌, arith, ◌↔◌}
use booleann.Base.Result.{ok, err}
use booleann.Cube.{
  Table, Cube, Slice, bin_label, a_label, b_label, lay_out, checked_rows, count_rows, row_cell,
  prefix_sums, scatter, cursors_done, range_slice, a_slice, cell_slice,
}
use booleann.Cube.Audit.{passed, audit_against}
use booleann.Cube.Fill.{row_in_domain}
use booleann.Cube.Layout.{IsTable, IsLaidOut, lay_out-IsLaidOut}
use booleann.Cube.Slices.{Holds, range_slice_iff, a_slice_iff, cell_slice_iff}

-- Three rows of two bytes, in two bins with two A labels and one B label.
abbrev table : Table
table = record {
  vectors = 10 ∷ 11 ∷ 20 ∷ 21 ∷ 30 ∷ 31 ∷ [];
  bin_labels = 1 ∷ 0 ∷ 1 ∷ [];
  a_labels = 1 ∷ 0 ∷ 0 ∷ [];
  b_labels = 0 ∷ 0 ∷ 0 ∷ [];
  dim = 2;
  bins = 2;
  a_count = 2;
  b_count = 1;
}

table-inside : (row : ℕ) → row < 3 → row_in_domain table row ≡ true
table-inside zero h = refl
table-inside (suc zero) h = refl
table-inside (suc (suc zero)) h = refl
table-inside (suc (suc (suc row))) h = absurd (omega arith)

table-IsTable : IsTable table 3
table-IsTable = record {
  dim = omega arith;
  vectors = refl;
  rows_in = (omega arith, omega arith);
  labels = (refl, refl, refl);
  domains = (omega arith, omega arith, omega arith);
  cells = omega arith;
  inside = table-inside;
}

abbrev cube : Cube
cube = (lay_out-IsLaidOut table 3 table-IsTable).0

cube-IsLaidOut : IsLaidOut table 3 cube
cube-IsLaidOut = (lay_out-IsLaidOut table 3 table-IsTable).2

-- The second row comes first, then the third, then the first.
positions :
    elim (lay_out table) as (λ _. List ℕ) [
      | err e ↦ []
      | ok c ↦ c.pos_to_global 0 ∷ c.pos_to_global 1 ∷ c.pos_to_global 2 ∷ []
    ]
    ≡ 1 ∷ 2 ∷ 0 ∷ []
unfolding lay_out checked_rows count_rows row_cell prefix_sums scatter cursors_done
positions = refl

lay_out-IsLaidOut_example : (c : Cube) × (lay_out table ≡ ok c) × IsLaidOut table 3 c
lay_out-IsLaidOut_example = lay_out-IsLaidOut table 3 table-IsTable

range_slice_iff_example :
    (s : Slice) × (range_slice cube 1 1 ≡ ok s)
    × ((row : ℕ)
        → row < 3
        → Holds s (cube.global_to_pos row)
          ↔ ((1 ≤ bin_label table row) × (bin_label table row ≤ 1)))
range_slice_iff_example =
    range_slice_iff table 3 table-IsTable cube cube-IsLaidOut 1 1 (omega arith) (omega arith)

a_slice_iff_example :
    (s : Slice) × (a_slice cube 1 0 ≡ ok s)
    × ((row : ℕ)
        → row < 3
        → Holds s (cube.global_to_pos row) ↔ ((bin_label table row ≡ 1) × (a_label table row ≡ 0)))
a_slice_iff_example =
    a_slice_iff table 3 table-IsTable cube cube-IsLaidOut 1 0 (omega arith) (omega arith)

cell_slice_iff_example :
    (s : Slice) × (cell_slice cube 1 1 0 ≡ ok s)
    × ((row : ℕ)
        → row < 3
        → Holds s (cube.global_to_pos row)
          ↔ ((bin_label table row ≡ 1) × (a_label table row ≡ 1) × (b_label table row ≡ 0)))
cell_slice_iff_example =
    cell_slice_iff table 3 table-IsTable cube cube-IsLaidOut 1 1 0 (omega arith) (omega arith)
      (omega arith)

-- The audit of the constructor passes on this table.
audit_run :
    elim (lay_out table) as (λ _. Bool) [ err e ↦ false | ok c ↦ passed (audit_against table c) ]
    ≡ true
unfolding lay_out checked_rows count_rows row_cell prefix_sums scatter cursors_done passed
    audit_against
audit_run = refl

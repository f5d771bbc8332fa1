-- ===== src/Cube/Audit.antt =====
-- src/predicate_cube/predicate_cube.hpp: the audit of a cube against the table, and the bytes that a cube is
-- charged. The cube's vectors have the extents that the constructor gives them, so only the table's are
-- compared. The counters have 64 bits and count at most the rows and cells, which have 32.
use booleann.Base.{
  ℕ, zero, suc, ◌+◌, ◌-◌, ◌*◌, Bool, true, false, not, ◌&&◌, ◌||◌, ltb, leb, ◌==◌, if◌then◌else◌,
  length, get_or, Option, none, some,
}
use booleann.Base.Arrays.{update}
use booleann.Base.Result.{Result, ok, require, ◌>>=◌, ◌>>◌}
use booleann.Cube.{
  Error, empty_domain, too_many_cells, audit_failed, lay_out, Table, Cube, u64, max_u32,
  flat_cell_unchecked, in_domain, bin_label, a_label, b_label,
}

pub record Audit : Type 0 where
  pub rows_expected : ℕ
  pub rows_audited : ℕ
  pub cells_expected : ℕ
  pub cells_audited : ℕ
  pub unique_global_ids : ℕ
  pub extent_failures : ℕ
  pub offset_failures : ℕ
  pub invalid_global_ids : ℕ
  pub duplicate_global_ids : ℕ
  pub missing_global_ids : ℕ
  pub inverse_map_failures : ℕ
  pub label_domain_failures : ℕ
  pub label_bucket_failures : ℕ
  pub global_order_failures : ℕ
  pub vector_identity_failures : ℕ

unfoldable pub failure_count : Audit → ℕ
failure_count out =
    out.extent_failures + out.offset_failures + out.invalid_global_ids + out.duplicate_global_ids
    + out.missing_global_ids + out.inverse_map_failures + out.label_domain_failures
    + out.label_bucket_failures + out.global_order_failures + out.vector_identity_failures

unfoldable pub passed : Audit → Bool
unfolding failure_count
passed out =
    failure_count out == 0
    && out.rows_audited == out.rows_expected
    && out.unique_global_ids == out.rows_expected
    && out.cells_audited == out.cells_expected

-- A counter goes up if the test failed.
abbrev count_if : Bool → ℕ → ℕ
count_if failed n = if failed then n + 1 else n

-- `memcmp` of so many bytes
unfoldable pub same_bytes : ℕ → (ℕ → ℕ) → ℕ → (ℕ → ℕ) → ℕ → Bool
same_bytes zero to at from begin = true
same_bytes (suc count) to at from begin =
    to at == from begin && same_bytes count to (at + 1) from (begin + 1)

-- `global <= previous_global`, if there was one
abbrev out_of_order : Option ℕ → ℕ → Bool
out_of_order none global = false
out_of_order (some previous) global = leb global previous

-- The audit so far, with the rows that were seen.
pub record Auditing : Type 0 where
  pub out : Audit
  pub seen : ℕ → Bool

module _ (t : Table) (c : Cube) where
  -- One position of a cell: the audit goes on, and the row is the previous one from now on.
  unfoldable pub audit_position : ℕ → ℕ → Option ℕ → Auditing → Option ℕ × Auditing
  unfolding same_bytes flat_cell_unchecked
  audit_position cell position previous s =
      let out = record s.out { rows_audited = s.out.rows_audited + 1 } in
      let global = c.pos_to_global position in
      let bin = bin_label t global in
      let a = a_label t global in
      let b = b_label t global in
      let twice = s.seen global in
      let labels_valid = in_domain c.bins c.a_count c.b_count bin a b in
      let elsewhere = not (flat_cell_unchecked c.bins c.a_count c.b_count bin a b == cell) in
      let identical =
        same_bytes c.dim c.vectors_by_pos (position * c.dim) (λ j. get_or t.vectors j 0)
          (global * c.dim) in
      if leb c.rows global
      then (
        previous,
        record s { out = record out { invalid_global_ids = out.invalid_global_ids + 1 } },
      )
      else (
        some global,
        record {
          seen = update s.seen global true;
          out = record out {
            duplicate_global_ids = count_if twice out.duplicate_global_ids;
            unique_global_ids = count_if (not twice) out.unique_global_ids;
            inverse_map_failures =
                count_if (not (c.global_to_pos global == position)) out.inverse_map_failures;
            label_domain_failures = count_if (not labels_valid) out.label_domain_failures;
            label_bucket_failures = count_if (labels_valid && elsewhere) out.label_bucket_failures;
            global_order_failures =
                count_if (out_of_order previous global) out.global_order_failures;
            vector_identity_failures = count_if (not identical) out.vector_identity_failures;
          };
        },
      )

  -- So many positions of a cell, from one on.
  unfoldable pub audit_positions : ℕ → ℕ → ℕ → Option ℕ → Auditing → Auditing
  unfolding audit_position
  audit_positions zero cell position previous s = s
  audit_positions (suc count) cell position previous s =
      let next = audit_position cell position previous s in
      audit_positions count cell (position + 1) next.0 next.1

  -- The cells before the given one.
  unfoldable pub audit_cells : ℕ → Auditing → Auditing
  unfolding audit_positions
  audit_cells zero s = s
  audit_cells (suc cell) s =
      let s = audit_cells cell s in
      let out = record s.out { cells_audited = s.out.cells_audited + 1 } in
      let begin = c.offsets cell in
      let end = c.offsets (cell + 1) in
      if ltb end begin || ltb c.rows end
      then record s { out = record out { offset_failures = out.offset_failures + 1 } }
      else audit_positions (end - begin) cell begin none (record s { out = out })

  -- The last loop, over the rows before the given one.
  unfoldable pub audit_rows : ℕ → Auditing → Auditing
  audit_rows zero s = s
  audit_rows (suc global) s =
      let s = audit_rows global s in
      let position = c.global_to_pos global in
      let astray = leb c.rows position || not (c.pos_to_global position == global) in
      record s {
        out = record s.out {
          missing_global_ids = count_if (not (s.seen global)) s.out.missing_global_ids;
          inverse_map_failures = count_if astray s.out.inverse_map_failures;
        };
      }

  abbrev blank : Audit
  blank = record {
    rows_expected = c.rows;
    rows_audited = 0;
    cells_expected = c.cells;
    cells_audited = 0;
    unique_global_ids = 0;
    extent_failures = 0;
    offset_failures = 0;
    invalid_global_ids = 0;
    duplicate_global_ids = 0;
    missing_global_ids = 0;
    inverse_map_failures = 0;
    label_domain_failures = 0;
    label_bucket_failures = 0;
    global_order_failures = 0;
    vector_identity_failures = 0;
  }

  unfoldable pub audit_against : Audit
  unfolding audit_cells audit_rows
  audit_against =
      let extents_ok =
        length t.vectors == c.rows * c.dim
        && length t.bin_labels == c.rows
        && length t.a_labels == c.rows
        && length t.b_labels == c.rows in
      let ends_bad = not (c.offsets 0 == 0) || not (c.offsets c.cells == c.rows) in
      let out = record blank { offset_failures = count_if ends_bad 0 } in
      let audited =
        audit_rows c.rows (audit_cells c.cells (record { out = out; seen = λ _. false })) in
      if extents_ok then audited.out else record blank { extent_failures = 1 }

-- The constructor, which ends with the audit.
unfoldable pub construct : Table → Result Error Cube
construct t = do c ← lay_out t; require (passed (audit_against t c)) audit_failed; ok c

pub record LogicalCharge : Type 0 where
  pub serving_vector_bytes : ℕ
  pub offsets_bytes : ℕ
  pub pos_to_global_bytes : ℕ
  pub global_to_pos_bytes : ℕ

unfoldable pub logical_charge : ℕ → ℕ → ℕ → ℕ → ℕ → Result Error LogicalCharge
logical_charge rows dim bins a_count b_count = do
  require (ltb 0 dim && ltb 0 bins && ltb 0 a_count && ltb 0 b_count) empty_domain
  let cells = u64 (bins * a_count * b_count)
  require (ltb cells max_u32) too_many_cells
  ok (record {
    serving_vector_bytes = rows * dim;
    offsets_bytes = (cells + 1) * 4;
    pos_to_global_bytes = rows * 4;
    global_to_pos_bytes = rows * 4;
  })

-- ===== src/Codec/Repeat.antt =====
-- src/laion/native/u24_decode.c: the decoder that repeats its work and sums the rows up.
use booleann.Base.{
  ℕ, zero, suc, ◌+◌, ◌/◌, ◌%◌, ◌^◌, Bool, not, ◌||◌, Option, none, some, List, [], ◌∷◌, ltb, ◌==◌,
  if◌then◌else◌, length,
}
use booleann.Codec.{u24_rows}

-- The rows of one repetition, added to the 64-bit total.
unfoldable pub add_rows : ℕ → ℕ → List ℕ → ℕ
add_rows repetition total [] = total
add_rows repetition total (value ∷ values) =
    add_rows repetition ((total + (value + repetition)) % 2 ^ 64) values

-- The total after so many repetitions.
unfoldable pub repeat_total : ℕ → List ℕ → ℕ
unfolding add_rows
repeat_total zero rows = 0
repeat_total (suc repetition) rows = add_rows repetition (repeat_total repetition rows) rows

-- The status, the rows that were written to `dst` (`none` being none), and the checksum.
pub record Repeated : Type 0 where
  pub status : ℕ
  pub written : List ℕ
  pub checksum : Option ℕ

-- `u24le_decode_repeat_v1`; the source is `none` if its pointer is null. Each repetition writes the same
-- rows.
unfoldable pub u24le_decode_repeat : Option (List ℕ) → Bool → ℕ → ℕ → Bool → Repeated
unfolding repeat_total
u24le_decode_repeat src has_dst dst_capacity repetitions has_checksum =
    let failed : ℕ → Repeated =
      λ status. record { status = status; written = []; checksum = none } in
    if not has_checksum || repetitions == 0 then failed 3 else elim src [
      | none ↦ failed 1
      | some bytes ↦
          if not has_dst || not (length bytes % 3 == 0) || ltb dst_capacity (length bytes / 3)
          then failed 1
          else record {
            status = 0;
            written = u24_rows bytes;
            checksum = some (repeat_total repetitions (u24_rows bytes));
          }
    ]

-- ===== src/EliasFano/Union.antt =====
-- src/laion/native/elias_fano_topk.cpp: the encoder of the union of two supports.
use booleann.Base.{
  ℕ, zero, suc, ◌+◌, ◌-◌, ◌*◌, ◌^◌, Bool, not, ◌&&◌, ◌||◌, Option, none, some, List, [], ◌∷◌, map,
  length, ltb, ◌==◌, if◌then◌else◌, ℤ, pos_part,
}
use booleann.EliasFano.{
  bad_abi, bad_argument, bad_input_order, capacity, universe, u64, account_for, reset_audit,
}
use booleann.EliasFano.Encode.{
  valid_rows, ranges_overlap, Encoded, Destination, refused, no_room, encode_validated, unaudited,
}

-- `numeric_limits<int32_t>::max()`
abbrev pub max_i32 : ℕ
max_i32 = 2 ^ 31 - 1

unfoldable pub first_or_max : List ℕ → ℕ
first_or_max [] = max_i32
first_or_max (x ∷ xs) = x

unfoldable pub advance : ℕ → List ℕ → List ℕ
advance id [] = []
advance id (x ∷ xs) = if x == id then xs else x ∷ xs

-- The ids that the union gives: `fuel` steps, each of which uses up an entry or more.
unfoldable pub union_rows : ℕ → List ℕ → List ℕ → List ℕ
unfolding first_or_max advance
union_rows zero left right = []
union_rows (suc fuel) left right =
    let left_id = first_or_max left in
    let right_id = first_or_max right in
    let id = if ltb right_id left_id then right_id else left_id in
    let rest = union_rows fuel (advance id left) (advance id right) in
    if length left == 0 && length right == 0 then [] else id ∷ rest

unfoldable pub union_ids : List ℕ → List ℕ → List ℕ
unfolding union_rows
union_ids left right = union_rows (length left + length right) left right

-- The two inputs of `encode_union`.
pub record Inputs : Type 0 where
  pub left : Option (List ℤ)
  pub right : Option (List ℤ)
  pub left_address : ℕ
  pub right_address : ℕ

-- `laion1m_elias_fano_v1_encode_union`
unfoldable pub encode_union : ℕ → Inputs → Destination → Bool → Encoded
unfolding valid_rows refused no_room ranges_overlap union_ids encode_validated
encode_union abi_version inputs d audited =
    let audit = reset_audit in
    if not audited
    then unaudited d
    else if not (abi_version == 1)
    then refused d audit bad_abi
    else elim inputs.left [
      | none ↦ refused d audit bad_argument
      | some left ↦ elim inputs.right [
        | none ↦ refused d audit bad_argument
        | some right ↦
            let left_rows = length left in
            let right_rows = length right in
            let ids = union_ids (map pos_part left) (map pos_part right) in
            let unique = length ids in
            if left_rows == 0
              || right_rows == 0
              || ltb universe left_rows
              || ltb universe right_rows
            then refused d audit bad_argument
            else if not (valid_rows none left) || not (valid_rows none right)
            then refused d audit bad_input_order
            else if unique == 0 || ltb universe unique
            then refused d audit bad_argument
            else elim (account_for unique) [
              | none ↦ refused d audit bad_argument
              | some a ↦
                  let payload = u64 (d.owner_address + d.payload_offset) in
                  let bytes = a.payload_bytes in
                  let overlap =
                    ranges_overlap inputs.left_address (left_rows * 4) payload bytes
                    || ranges_overlap inputs.right_address (right_rows * 4) payload bytes in
                  if d.owner_address == 0 || no_room d bytes overlap
                  then refused d audit capacity
                  else encode_validated ids d
                      (record audit { codec_input_rows = left_rows + right_rows })
            ]
      ]
    ]

-- ===== src/EliasFano/Encode.antt =====
-- src/laion/native/elias_fano_topk.cpp: the encoders. The owner's bytes are its 64-bit words: every
-- offset that the code loads or stores at is a multiple of 8. A pointer is its address, null being 0.
use Prim.Native.Nat.{bit_or}
use booleann.Base.{
  ℕ, ◌+◌, ◌-◌, ◌*◌, ◌/◌, ◌%◌, ◌^◌, Bool, true, false, not, ◌&&◌, ◌||◌, Option, none, some, List, [],
  ◌∷◌, map, length, ltb, leb, ◌==◌, if◌then◌else◌, ℤ, pos, negsuc, pos_part,
}
use booleann.Base.Arrays.{update, copy}
use booleann.EliasFano.{
  Status, ok, bad_abi, bad_argument, bad_input_order, capacity, Directory, Audit, universe, u64,
  max_u64, checked_add, account_for, reset_audit, record_sizes, fail,
}

-- `valid_id`
unfoldable pub valid_id : ℤ → Bool
valid_id (pos id) = ltb id universe
valid_id (negsuc _) = false

-- `id <= previous`, where `previous` has been found valid, `none` before the first entry
unfoldable pub not_after : Option ℕ → ℕ → Bool
not_after none id = false
not_after (some previous) id = leb id previous

-- The loop over an input array; the `validate` of `encode_union` is the same.
unfoldable pub valid_rows : Option ℕ → List ℤ → Bool
unfolding valid_id not_after
valid_rows previous [] = true
valid_rows previous (id ∷ ids) =
    not (not (valid_id id) || not_after previous (pos_part id))
    && valid_rows (some (pos_part id)) ids

unfoldable pub ranges_overlap : ℕ → ℕ → ℕ → ℕ → Bool
ranges_overlap left left_bytes right right_bytes =
    if left_bytes == 0 || right_bytes == 0
    then false
    else if left == 0 || right == 0
    then true
    else if ltb (max_u64 - left_bytes) left || ltb (max_u64 - right_bytes) right
    then true
    else ltb left (right + right_bytes) && ltb right (left + left_bytes)

-- The low bits of a row: or-ed into their word, and into the next one where they cross its end.
unfoldable pub put_low : ℕ → ℕ → ℕ → ℕ → (ℕ → ℕ) → ℕ → ℕ
put_low lower low_word index id owner =
    let bit = index * lower in
    let word_index = low_word + bit / 64 in
    let shift = bit % 64 in
    let low = id % 2 ^ lower in
    let first = update owner word_index (bit_or (owner word_index) (u64 (low * 2 ^ shift))) in
    if lower == 0
    then owner
    else if ltb 64 (shift + lower)
    then update first (word_index + 1) (bit_or (first (word_index + 1)) (low / 2 ^ (64 - shift)))
    else first

-- The one bit of a row in the high stream.
unfoldable pub put_high : ℕ → ℕ → ℕ → ℕ → (ℕ → ℕ) → ℕ → ℕ
put_high lower high_word index id owner =
    let position = id / 2 ^ lower + index in
    let word_index = high_word + position / 64 in
    update owner word_index (bit_or (owner word_index) (2 ^ (position % 64)))

unfoldable pub put_rows : ℕ → ℕ → ℕ → ℕ → List ℕ → (ℕ → ℕ) → ℕ → ℕ
unfolding put_low put_high
put_rows lower low_word high_word index [] owner = owner
put_rows lower low_word high_word index (id ∷ ids) owner =
    put_rows lower low_word high_word (index + 1) ids
      (put_high lower high_word index id (put_low lower low_word index id owner))

-- What an encoder leaves: the audit and the directory where they were written.
pub record Encoded : Type 0 where
  pub status : Status
  pub owner : ℕ → ℕ
  pub directory : Option Directory
  pub audit : Option Audit

-- Where an encoder writes.
pub record Destination : Type 0 where
  pub owner : ℕ → ℕ
  pub owner_address : ℕ
  pub owner_bytes : ℕ
  pub payload_offset : ℕ
  pub directory_address : ℕ

unfoldable pub refused : Destination → Audit → Status → Encoded
refused d audit status = record {
  status = status;
  owner = d.owner;
  directory = none;
  audit = some (fail audit status);
}

-- The payload does not fit the owner's bytes, or overlaps what must stay apart from it.
unfoldable pub no_room : Destination → ℕ → Bool → Bool
unfolding checked_add
no_room d payload_bytes overlap = elim (checked_add d.payload_offset payload_bytes) [
  | none ↦ true
  | some terminal ↦ ltb d.owner_bytes terminal || overlap
]

-- `encode_validated`, on the rows that `next` gives
unfoldable pub encode_validated : List ℕ → Destination → Audit → Encoded
unfolding refused no_room ranges_overlap put_rows
encode_validated ids d audit =
    let rows = length ids in
    let bad = d.owner_address == 0 || d.directory_address == 0 || not (d.payload_offset % 8 == 0) in
    elim (account_for rows) [
      | none ↦ refused d audit bad_argument
      | some a ↦
          let payload = u64 (d.owner_address + d.payload_offset) in
          let overlap = ranges_overlap d.directory_address 24 payload a.payload_bytes in
          let low_word = d.payload_offset / 8 in
          let high_word = (d.payload_offset + a.low_bytes) / 8 in
          let cleared = copy d.owner low_word (λ _. 0) 0 (a.payload_bytes / 8) in
          if bad
          then refused d audit bad_argument
          else if no_room d a.payload_bytes overlap
          then refused d audit capacity
          else record {
            status = ok;
            owner = put_rows a.lower_bits low_word high_word 0 ids cleared;
            directory = some (record {
              low_offset = d.payload_offset;
              high_offset = d.payload_offset + a.low_bytes;
              rows = rows;
              lower_bits = a.lower_bits;
              version = 1;
              reserved = 0;
            });
            audit = some (record (record_sizes rows a audit) { codec_unique_rows = rows });
          }
    ]

-- `none` for an audit pointer that is null or has too few slots
abbrev pub unaudited : Destination → Encoded
unaudited d = record { status = bad_argument; owner = d.owner; directory = none; audit = none }

-- `laion1m_elias_fano_v1_encode_sorted`; `ids` has its rows behind it, `none` being null
unfoldable pub encode_sorted : ℕ → Option (List ℤ) → ℕ → Destination → Bool → Encoded
unfolding valid_rows refused no_room ranges_overlap encode_validated
encode_sorted abi_version ids ids_address d audited =
    let audit = reset_audit in
    if not audited
    then unaudited d
    else if not (abi_version == 1)
    then refused d audit bad_abi
    else elim ids [
      | none ↦ refused d audit bad_argument
      | some ids ↦
          let rows = length ids in
          if rows == 0 || ltb universe rows
          then refused d audit bad_argument
          else if not (valid_rows none ids)
          then refused d audit bad_input_order
          else elim (account_for rows) [
            | none ↦ refused d audit bad_argument
            | some a ↦
                let payload = u64 (d.owner_address + d.payload_offset) in
                let overlap = ranges_overlap ids_address (rows * 4) payload a.payload_bytes in
                if d.owner_address == 0 || no_room d a.payload_bytes overlap
                then refused d audit capacity
                else encode_validated (map pos_part ids) d
                    (record audit { codec_input_rows = rows })
          ]
    ]

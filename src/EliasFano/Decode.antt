-- ===== src/EliasFano/Decode.antt =====
-- src/laion/native/elias_fano_topk.cpp: the decoder class and the routines that decode an object and
-- sum it up. The owner's bytes are its 64-bit words, as in Encode.
use Prim.Native.Nat.{bit_or, bit_and, bit_xor}
use booleann.Base.{
  ℕ, zero, suc, ◌+◌, ◌-◌, ◌*◌, ◌/◌, ◌%◌, ◌^◌, Bool, true, not, ◌&&◌, ◌||◌, Option, none, some, List,
  [], ◌∷◌, ltb, leb, ◌==◌, if◌then◌else◌,
}
use booleann.Base.Options.{◌>>=◌}
use booleann.EliasFano.{
  Status, ok, bad_abi, bad_argument, capacity, corrupt_directory, corrupt_payload, Account,
  Directory, Audit, universe, u64, max_u64, validate_directory, reset_audit, record_sizes, fail,
}

-- The fields of `EfDecoder` that change.
pub record Decoder : Type 0 where
  pub index : ℕ
  pub previous : ℕ
  pub high_word_index : ℕ
  pub high_remaining : ℕ
  pub high_base : ℕ
  pub high_one_bits : ℕ

abbrev pub start : Decoder
start = record {
  index = 0;
  previous = 0;
  high_word_index = 0;
  high_remaining = 0;
  high_base = 0;
  high_one_bits = 0;
}

-- `__builtin_ctzll` of a word that is not 0, on the bits that are left
unfoldable pub trailing_zeros : ℕ → ℕ → ℕ
trailing_zeros zero word = 0
trailing_zeros (suc bits) word =
    let rest = trailing_zeros bits (word / 2) in if word % 2 == 1 then 0 else rest + 1

module _ (owner : ℕ → ℕ) (directory : Directory) (account : Account) where
  abbrev words : ℕ
  words = account.high_bytes / 8

  abbrev high_word : ℕ → ℕ
  high_word index = owner ((directory.high_offset + index * 8) / 8)

  abbrev low_word : ℕ → ℕ
  low_word index = owner ((directory.low_offset + index * 8) / 8)

  -- The loop that looks for a word with bits left; `none` when the words are used up.
  unfoldable pub refill : ℕ → Decoder → Option Decoder
  refill zero d = if d.high_remaining == 0 then none else some d
  refill (suc fuel) d =
      let loaded = record d {
        high_remaining = high_word d.high_word_index;
        high_base = d.high_word_index * 64;
        high_word_index = d.high_word_index + 1;
      } in
      let rest = refill fuel loaded in
      if d.high_remaining == 0 then if leb words d.high_word_index then none else rest else some d

  -- `next_high_one`: the position of the next bit, and the decoder behind it. The words that are left
  -- are fuel enough.
  unfoldable pub next_high_one : Decoder → Option (ℕ × Decoder)
  unfolding refill trailing_zeros
  next_high_one d = do
    filled ← refill (words - d.high_word_index) d
    let word = filled.high_remaining
    let position = filled.high_base + trailing_zeros 63 word
    let next = record filled {
      high_remaining = bit_and word (word - 1);
      high_one_bits = filled.high_one_bits + 1;
    }
    if ltb position account.high_bits then some (position, next) else none

  unfoldable pub read_low : ℕ → ℕ
  read_low index =
      let bit = index * account.lower_bits in
      let word_index = bit / 64 in
      let shift = bit % 64 in
      let value = low_word word_index / 2 ^ shift in
      let crossed = bit_or value (u64 (low_word (word_index + 1) * 2 ^ (64 - shift))) in
      if account.lower_bits == 0
      then 0
      else (if ltb 64 (shift + account.lower_bits) then crossed else value) % 2 ^ account.lower_bits

  -- The row of a bit that was found, with its low bits, and the decoder behind it.
  unfoldable pub accept_row : Decoder → ℕ × Decoder → Option (ℕ × Decoder)
  unfolding read_low
  accept_row d found =
      let position = found.0 in
      let high = position - d.index in
      let decoded = bit_or (u64 (high * 2 ^ account.lower_bits)) (read_low d.index) in
      if ltb position d.index
        || ltb (max_u64 / 2 ^ account.lower_bits) high
        || leb universe decoded
        || (not (d.index == 0) && leb decoded d.previous)
      then none
      else some (decoded, record found.1 { previous = decoded; index = d.index + 1 })

  -- `next`: the next row, or `corrupt_payload` that `none` stands for
  unfoldable pub next : Decoder → Option (ℕ × Decoder)
  unfolding next_high_one accept_row
  next d = if leb directory.rows d.index then none else next_high_one d >>= accept_row d

  -- The words from `index` on hold no bit.
  unfoldable pub no_more_bits : ℕ → ℕ → Bool
  no_more_bits zero index = true
  no_more_bits (suc count) index = high_word index == 0 && no_more_bits count (index + 1)

  -- `finish`: nothing is left over in either stream
  unfoldable pub finish : Decoder → Bool
  unfolding no_more_bits
  finish d =
      let used = account.low_bits % 64 in
      let last = owner ((directory.low_offset + account.low_bytes - 8) / 8) in
      d.index == directory.rows
      && d.high_remaining == 0
      && no_more_bits (words - d.high_word_index) d.high_word_index
      && (used == 0 || last / 2 ^ used == 0)

  -- So many rows from here on: those before a failure, and the decoder unless one failed.
  unfoldable pub decode_rows : ℕ → Decoder → List ℕ × Option Decoder
  decode_rows zero d = ([], some d)
  decode_rows (suc count) d = elim (next d) [
    | none ↦ ([], none)
    | some row ↦ let rest = decode_rows count row.1 in (row.0 ∷ rest.0, rest.1)
  ]

  -- One pass over the object: the rows that were decoded, and the decoder unless the pass failed.
  unfoldable pub pass : List ℕ × Option Decoder
  pass =
      let rows = decode_rows directory.rows start in
      (rows.0, rows.1 >>= (λ d. if finish d then some d else none))

  -- The checksum loop: the rows are counted in the audit as they come.
  unfoldable pub checksum_rows : ℕ → Decoder → ℕ → Audit → Option (ℕ × Decoder) × Audit
  checksum_rows zero d checksum audit = (some (checksum, d), audit)
  checksum_rows (suc count) d checksum audit = elim (next d) [
    | none ↦ (none, audit)
    | some row ↦
        checksum_rows count row.1 (u64 (bit_xor checksum row.0 * 1099511628211))
          (record audit { decoded_rows = audit.decoded_rows + 1 })
  ]

-- What a routine leaves: `output` is what it wrote.
pub record Decoded (A : Type 0) : Type 0 where
  pub status : Status
  pub output : A
  pub audit : Option Audit

abbrev pub failed : {A : Type 0} → A → Audit → Status → Decoded A
failed output audit status = record {
  status = status;
  output = output;
  audit = some (fail audit status);
}

-- The pointers, if none of them is null.
abbrev pub not_null : {A B C : Type 0} → Option A → Option B → Option C → Option (A × B × C)
not_null (some a) (some b) (some c) = some (a, b, c)
not_null (some a) (some b) none = none
not_null (some a) none c = none
not_null none b c = none

-- The second pass of `decode`: it would leave the rows before a failure.
unfoldable pub written : Directory → Audit → List ℕ × Option Decoder → Decoded (List ℕ)
written directory audit (rows, none) = failed rows audit corrupt_payload
written directory audit (rows, some d) = record {
  status = ok;
  output = rows;
  audit = some (record audit { decoded_rows = directory.rows; high_one_bits = d.high_one_bits });
}

-- The first pass checks the object, and the second one writes the rows. Both read the same bytes: the output does
-- not overlap the bytes of the owner, which the code leaves to its caller.
unfoldable pub two_passes : (ℕ → ℕ) → Directory → Account → Audit → Decoded (List ℕ)
unfolding written
two_passes owner directory account audit = elim ((pass owner directory account).1) [
  | none ↦ failed [] audit corrupt_payload
  | some validator ↦ written directory audit (pass owner directory account)
]

-- `laion1m_elias_fano_v1_decode`; `output_capacity` is `none` if the output pointer is null.
unfoldable pub decode :
    ℕ → Option Directory → Option (ℕ → ℕ) → ℕ → Option ℕ → Bool → Decoded (List ℕ)
unfolding two_passes
decode abi_version directory owner owner_bytes output_capacity audited =
    if not audited
    then record { status = bad_argument; output = []; audit = none }
    else if not (abi_version == 1)
    then failed [] reset_audit bad_abi
    else elim (not_null directory owner output_capacity) [
      | none ↦ failed [] reset_audit bad_argument
      | some given ↦
          let (directory, owner, output_capacity) = given in
          elim (validate_directory directory owner_bytes) [
            | none ↦ failed [] reset_audit corrupt_directory
            | some a ↦
                let audit = record_sizes directory.rows a reset_audit in
                if ltb output_capacity directory.rows
                then failed [] audit capacity
                else two_passes owner directory a audit
          ]
    ]

-- What `scan_checksum` makes of the scan of an object.
unfoldable pub checksum_result :
    (ℕ → ℕ) → Directory → Account → Option (ℕ × Decoder) × Audit → Decoded (Option ℕ)
checksum_result owner directory account (none, audit) = failed none audit corrupt_payload
checksum_result owner directory account (some scanned, audit) =
    if finish owner directory account scanned.1
    then record {
      status = ok;
      output = some scanned.0;
      audit = some (record audit { high_one_bits = scanned.1.high_one_bits });
    }
    else failed none audit corrupt_payload

-- `laion1m_elias_fano_v1_scan_checksum`; `has_output` is the output pointer being not null.
unfoldable pub scan_checksum :
    ℕ → Option Directory → Option (ℕ → ℕ) → ℕ → Bool → Bool → Decoded (Option ℕ)
unfolding checksum_result
scan_checksum abi_version directory owner owner_bytes has_output audited =
    if not audited
    then record { status = bad_argument; output = none; audit = none }
    else if not (abi_version == 1)
    then failed none reset_audit bad_abi
    else elim (not_null directory owner (if has_output then some tt else none)) [
      | none ↦ failed none reset_audit bad_argument
      | some given ↦
          let (directory, owner, output) = given in
          elim (validate_directory directory owner_bytes) [
            | none ↦ failed none reset_audit corrupt_directory
            | some a ↦ checksum_result owner directory a (
                checksum_rows owner directory a directory.rows start 1469598103934665603
                  (record_sizes directory.rows a reset_audit))
          ]
    ]

-- ===== src/EliasFano.antt =====
-- src/laion/native/elias_fano_topk.cpp: the Elias-Fano codec of a support. This file has the statuses,
-- the sizes of an object, and the check of its directory.
-- Sizes and offsets are `uint64_t`; those that a check keeps from wrapping go through `checked_add` and
-- `checked_mul`, and the others are taken modulo 2^64 here.
pub mod Sizes
pub mod Accepted
pub mod Encode
pub mod Union
pub mod Decode
pub mod Decoded
pub mod Merged
pub mod Overlap
mod Tests
use booleann.Base.{
  ℕ, zero, suc, ◌+◌, ◌-◌, ◌*◌, ◌/◌, ◌%◌, ◌^◌, Bool, true, false, not, ◌&&◌, ◌||◌, Option, none,
  some, ltb, leb, ◌==◌, if◌then◌else◌,
}
use booleann.Base.Options.{◌>>=◌}

-- `enum EfStatus`
pub data Status : Type 0 where
  ok bad_abi bad_argument bad_input_order capacity corrupt_directory corrupt_payload : Status
  support_below_k nonfinite_distance fp_environment unsupported_cpu : Status

-- `kEfUniverse`
abbrev pub universe : ℕ
universe = 1000000

abbrev pub u64 : ℕ → ℕ
u64 x = x % 2 ^ 64

abbrev pub max_u64 : ℕ
max_u64 = 2 ^ 64 - 1

pub record Account : Type 0 where
  pub lower_bits : ℕ
  pub low_bits : ℕ
  pub high_bits : ℕ
  pub low_bytes : ℕ
  pub high_bytes : ℕ
  pub payload_bytes : ℕ

pub record Directory : Type 0 where
  pub low_offset : ℕ
  pub high_offset : ℕ
  pub rows : ℕ
  pub lower_bits : ℕ
  pub version : ℕ
  pub reserved : ℕ

unfoldable pub checked_add : ℕ → ℕ → Option ℕ
checked_add left right = if ltb (max_u64 - right) left then none else some (u64 (left + right))

unfoldable pub checked_mul : ℕ → ℕ → Option ℕ
checked_mul left right =
    if not (left == 0) && ltb (max_u64 / left) right then none else some (u64 (left * right))

unfoldable pub align_bits64 : ℕ → Option ℕ
unfolding checked_add
align_bits64 bits = do rounded ← checked_add bits 63; some (rounded / 64 * 8)

-- The loop of `lower_bits_for`, on fuel: a value below 2^fuel is halved to at most 1.
unfoldable pub halvings : ℕ → ℕ → ℕ
halvings zero value = 0
halvings (suc fuel) value =
    let rest = halvings fuel (value / 2) in if ltb 1 value then rest + 1 else 0

unfoldable pub lower_bits_for : ℕ → ℕ
unfolding halvings
lower_bits_for rows = halvings 20 (universe / rows)

unfoldable pub account_for : ℕ → Option Account
unfolding lower_bits_for checked_add checked_mul align_bits64
account_for rows = if rows == 0 || ltb universe rows then none else do
  let lower_bits = lower_bits_for rows
  low_bits ← checked_mul rows lower_bits
  let high_bits = universe / 2 ^ lower_bits + rows
  low_bytes ← align_bits64 low_bits
  high_bytes ← align_bits64 high_bits
  payload_bytes ← checked_add low_bytes high_bytes
  some (record {
    lower_bits = lower_bits;
    low_bits = low_bits;
    high_bits = high_bits;
    low_bytes = low_bytes;
    high_bytes = high_bytes;
    payload_bytes = payload_bytes;
  })

-- The areas of `validate_directory`: the offsets against the account.
unfoldable pub accept_areas : Directory → ℕ → Account → Option Account
unfolding checked_add
accept_areas d owner_bytes account = do
  expected_high ← checked_add d.low_offset account.low_bytes
  terminal ← checked_add d.high_offset account.high_bytes
  let agrees = d.lower_bits == account.lower_bits && d.high_offset == expected_high
  if agrees && leb terminal owner_bytes then some account else none

-- `validate_directory`: the account, or the status `corrupt_directory` that `none` stands for.
-- (`owner_bytes > numeric_limits<size_t>::max()` cannot be: both types have 64 bits.)
unfoldable pub validate_directory : Directory → ℕ → Option Account
unfolding accept_areas
validate_directory d owner_bytes =
    if not (d.version == 1)
      || not (d.reserved == 0)
      || d.rows == 0
      || ltb universe d.rows
      || not (d.low_offset % 8 == 0)
      || not (d.high_offset % 8 == 0)
    then none
    else account_for d.rows >>= accept_areas d owner_bytes

-- `laion1m_elias_fano_v1_account`, with `outputs` for its four pointers being not null.
unfoldable pub account : ℕ → ℕ → Bool → Status × Option Account
unfolding account_for
account abi_version rows outputs =
    if not (abi_version == 1)
    then (bad_abi, none)
    else if not outputs
    then (bad_argument, none)
    else elim (account_for rows) [ none ↦ (bad_argument, none) | some a ↦ (ok, some a) ]

-- The audit slots of the codec; those of the scorer are left out.
pub record Audit : Type 0 where
  pub abi : ℕ
  pub stored_rows : ℕ
  pub lower_bits : ℕ
  pub low_bytes : ℕ
  pub high_bytes : ℕ
  pub decoded_rows : ℕ
  pub payload_bytes : ℕ
  pub high_one_bits : ℕ
  pub fallback_status : ℕ
  pub codec_input_rows : ℕ
  pub codec_unique_rows : ℕ

unfoldable pub reset_audit : Audit
reset_audit = record {
  abi = 1;
  stored_rows = 0;
  lower_bits = 0;
  low_bytes = 0;
  high_bytes = 0;
  decoded_rows = 0;
  payload_bytes = 0;
  high_one_bits = 0;
  fallback_status = 0;
  codec_input_rows = 0;
  codec_unique_rows = 0;
}

-- The number of a status, its sign turned.
unfoldable pub status_code : Status → ℕ
status_code ok = 0
status_code bad_abi = 1
status_code bad_argument = 2
status_code bad_input_order = 3
status_code capacity = 4
status_code corrupt_directory = 5
status_code corrupt_payload = 6
status_code support_below_k = 7
status_code nonfinite_distance = 8
status_code fp_environment = 9
status_code unsupported_cpu = 10

-- `fail`, on the audit
unfoldable pub fail : Audit → Status → Audit
unfolding status_code
fail audit status = record audit { fallback_status = status_code status }

-- The five slots that every routine fills from the directory or the sizes.
unfoldable pub record_sizes : ℕ → Account → Audit → Audit
record_sizes rows a audit = record audit {
  stored_rows = rows;
  lower_bits = a.lower_bits;
  low_bytes = a.low_bytes;
  high_bytes = a.high_bytes;
  payload_bytes = a.payload_bytes;
}

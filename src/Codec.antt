-- ===== src/Codec.antt =====
-- src/laion/native/u24_decode.c and src/laion/native/delta16_decode.c: the two byte layouts of a
-- support. The bytes of `src` are a list (`none` for a null pointer) whose length is `src_bytes`.
pub mod RoundTrip
pub mod Delta
pub mod Concurrency
pub mod Peak
pub mod Repeat
mod Tests
use Prim.Native.Nat.{bit_or}
use booleann.Base.{
  ℕ, ◌+◌, ◌-◌, ◌*◌, ◌/◌, ◌%◌, ◌^◌, Bool, not, ◌||◌, Option, none, some, List, [], ◌∷◌, ltb, ◌==◌,
  if◌then◌else◌, length,
}

-- The arguments beside the source: whether `dst` and `decoded_count` are not null, and the capacity.
pub record Target : Type 0 where
  pub has_dst : Bool
  pub dst_capacity : ℕ
  pub has_count : Bool

-- The status, the entries written to `dst` from its start, and `*decoded_count` if it is written.
pub record Decoded : Type 0 where
  pub status : ℕ
  pub written : List ℕ
  pub decoded_count : Option ℕ

abbrev pub refused : ℕ → Decoded
refused status = record { status = status; written = []; decoded_count = none }

-- The three and four bytes of a little-endian value.
unfoldable pub read_u24 : ℕ → ℕ → ℕ → ℕ
read_u24 a b c = bit_or (bit_or a (b * 2 ^ 8)) (c * 2 ^ 16)

unfoldable pub read_u32 : ℕ → ℕ → ℕ → ℕ → ℕ
read_u32 a b c d = bit_or (bit_or (bit_or a (b * 2 ^ 8)) (c * 2 ^ 16)) (d * 2 ^ 24)

unfoldable pub read_u16 : ℕ → ℕ → ℕ
read_u16 a b = bit_or a (b * 2 ^ 8)

-- The loop of `u24le_decode_v1` over the rows of three bytes.
unfoldable pub u24_rows : List ℕ → List ℕ
unfolding read_u24
u24_rows (a ∷ b ∷ c ∷ bytes) = read_u24 a b c ∷ u24_rows bytes
u24_rows _ = []

-- `u24le_decode_v1`
unfoldable pub u24le_decode : Option (List ℕ) → Target → Decoded
unfolding u24_rows
u24le_decode none t = refused 1
u24le_decode (some src) t =
    let count = length src / 3 in
    if not t.has_dst || not t.has_count || not (length src % 3 == 0)
    then refused 1
    else if ltb t.dst_capacity count
    then refused 2
    else record { status = 0; written = u24_rows src; decoded_count = some count }

-- The loop of `delta16le_decode_v1`, from the value decoded last: the status and what it writes.
unfoldable pub delta16_rows : ℕ → List ℕ → ℕ × List ℕ
unfolding read_u16
delta16_rows value (a ∷ b ∷ bytes) =
    let delta = read_u16 a b in
    let next = (value + delta) % 2 ^ 32 in
    let (status, rows) = delta16_rows next bytes in
    if delta == 0 || ltb 999999 next then (4, []) else (status, next ∷ rows)
delta16_rows value _ = (0, [])

-- `delta16le_decode_v1`
unfoldable pub delta16le_decode : Option (List ℕ) → Target → Decoded
unfolding delta16_rows read_u32
delta16le_decode none t = refused 1
delta16le_decode (some (a ∷ b ∷ c ∷ d ∷ bytes)) t =
    let count = 1 + length bytes / 2 in
    let value = read_u32 a b c d in
    let (status, rows) = delta16_rows value bytes in
    if not t.has_dst || not t.has_count || not (length bytes % 2 == 0)
    then refused 1
    else if ltb t.dst_capacity count
    then refused 2
    else if ltb 999999 value
    then refused 3
    else record {
      status = status;
      written = value ∷ rows;
      decoded_count = if status == 0 then some count else none;
    }
delta16le_decode (some _) t = refused 1

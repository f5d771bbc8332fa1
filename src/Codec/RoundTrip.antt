-- ===== src/Codec/RoundTrip.antt =====
-- The decoders of src/laion/native/u24_decode.c and delta16_decode.c against reference encoders: each
-- is inverse to its encoder, and what it accepts is exactly what the encoder writes.
use booleann.Base.{
  ℕ, ◌+◌, ◌-◌, ◌*◌, ◌/◌, ◌%◌, ◌^◌, ◌≤◌, ◌<◌, ◌≡◌, refl, true, some, List, [], ◌∷◌, length, arith,
}
use booleann.Base.Bits.{bit_or-shifted}
use booleann.Base.Ordered.{IsBelow}
use booleann.Codec.{Target, read_u24, read_u32, read_u16, u24_rows, u24le_decode}

abbrev pub IsBytes : List ℕ → Type 0
IsBytes = IsBelow 256

pub read_u16-sum : (a b : ℕ) → a < 256 → read_u16 a b ≡ a + b * 256
unfolding read_u16
read_u16-sum a b h = bit_or-shifted 8 a b h

read_u24-sum : (a b c : ℕ) → a < 256 → b < 256 → read_u24 a b c ≡ a + b * 256 + c * 65536
unfolding read_u24
read_u24-sum a b c h k =
    rw (bit_or-shifted 8 a b h) (bit_or-shifted 16 (a + b * 256) c (omega arith))

pub read_u32-sum :
    (a b c d : ℕ)
    → a < 256
    → b < 256
    → c < 256
    → read_u32 a b c d ≡ a + b * 256 + c * 65536 + d * 16777216
unfolding read_u32
read_u32-sum a b c d h k l =
    rw (bit_or-shifted 8 a b h, bit_or-shifted 16 (a + b * 256) c (omega arith))
      (bit_or-shifted 24 (a + b * 256 + c * 65536) d (omega arith))

-- The reference layouts.
unfoldable pub encode_u24 : List ℕ → List ℕ
encode_u24 [] = []
encode_u24 (x ∷ xs) = x % 256 ∷ x / 256 % 256 ∷ x / 65536 ∷ encode_u24 xs

unfoldable pub encode_deltas : ℕ → List ℕ → List ℕ
encode_deltas previous [] = []
encode_deltas previous (x ∷ xs) = (x - previous) % 256 ∷ (x - previous) / 256 ∷ encode_deltas x xs

unfoldable pub encode_delta16 : List ℕ → List ℕ
encode_delta16 [] = []
encode_delta16 (x ∷ xs) =
    x % 256 ∷ x / 256 % 256 ∷ x / 65536 % 256 ∷ x / 16777216 ∷ encode_deltas x xs

-- The whole target can be written.
abbrev pub IsOpen : ℕ → Target → Type 0
IsOpen rows t = (t.has_dst ≡ true) × (t.has_count ≡ true) × (rows ≤ t.dst_capacity)

length-encode_u24 : (xs : List ℕ) → length (encode_u24 xs) ≡ 3 * length xs
unfolding encode_u24
length-encode_u24 [] = refl
length-encode_u24 (x ∷ xs) = omega (arith, length-encode_u24 xs)

u24_rows-encode_u24 : (xs : List ℕ) → IsBelow (2 ^ 24) xs → u24_rows (encode_u24 xs) ≡ xs
unfolding u24_rows encode_u24
u24_rows-encode_u24 [] v = refl
u24_rows-encode_u24 (x ∷ xs) v =
    ground (arith, read_u24-sum (x % 256) (x / 256 % 256) (x / 65536), u24_rows-encode_u24 xs v.1)

-- Any rows below 2^24 come back from their three-byte layout, with their count.
pub u24le_decode-encode_u24 :
    (xs : List ℕ) (t : Target)
    → IsBelow (2 ^ 24) xs
    → IsOpen (length xs) t
    → u24le_decode (some (encode_u24 xs)) t
      ≡ record { status = 0; written = xs; decoded_count = some (length xs) }
unfolding u24le_decode
u24le_decode-encode_u24 xs t v o = ground (arith, length-encode_u24 xs, u24_rows-encode_u24 xs v)

encode_u24-u24_rows :
    (bytes : List ℕ)
    → IsBytes bytes
    → length bytes % 3 ≡ 0
    → (encode_u24 (u24_rows bytes) ≡ bytes) × IsBelow (2 ^ 24) (u24_rows bytes)
unfolding u24_rows encode_u24
encode_u24-u24_rows [] v h = (refl, tt)
encode_u24-u24_rows (a ∷ []) v h = absurd (omega arith)
encode_u24-u24_rows (a ∷ b ∷ []) v h = absurd (omega arith)
encode_u24-u24_rows (a ∷ b ∷ c ∷ bytes) v h =
    let (same, below) = encode_u24-u24_rows bytes v.1.1.1 (omega arith) in
    let value = read_u24-sum a b c v.0 v.1.0 in
    (ground (arith, same, value), (omega (arith, value), below))

length-u24_rows : (bytes : List ℕ) → length (u24_rows bytes) ≡ length bytes / 3
unfolding u24_rows
length-u24_rows [] = refl
length-u24_rows (a ∷ []) = omega arith
length-u24_rows (a ∷ b ∷ []) = omega arith
length-u24_rows (a ∷ b ∷ c ∷ bytes) = omega (arith, length-u24_rows bytes)

u24_accepted :
    (bytes : List ℕ) (t : Target)
    → (u24le_decode (some bytes) t).status ≡ 0
    → (u24le_decode (some bytes) t
        ≡ record { status = 0; written = u24_rows bytes; decoded_count = some (length bytes / 3) })
      × (length bytes / 3 ≤ t.dst_capacity)
unfolding u24le_decode
u24_accepted bytes t h = ground arith

-- What the three-byte decoder accepts is the layout of the rows that it writes, which are below
-- 2^24, fit the capacity, and are counted.
pub encode_u24-u24le_decode :
    (bytes : List ℕ) (t : Target)
    → IsBytes bytes
    → (u24le_decode (some bytes) t).status ≡ 0
    → let decoded = u24le_decode (some bytes) t in
      (encode_u24 decoded.written ≡ bytes)
      × IsBelow (2 ^ 24) decoded.written
      × (decoded.decoded_count ≡ some (length decoded.written))
      × (length decoded.written ≤ t.dst_capacity)
unfolding u24le_decode
encode_u24-u24le_decode bytes t v h =
    let whole : length bytes % 3 ≡ 0 = ground arith in
    let (same, below) = encode_u24-u24_rows bytes v whole in
    let status = u24_accepted bytes t h in
    let size = length-u24_rows bytes in
    rw status.0 (same, below, rw size, omega (arith, size, status.1))

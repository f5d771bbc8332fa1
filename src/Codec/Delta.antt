-- ===== src/Codec/Delta.antt =====
-- src/laion/native/delta16_decode.c against its reference encoder, and what it guarantees of the rows.
use booleann.Base.{
  ℕ, ◌+◌, ◌-◌, ◌*◌, ◌/◌, ◌%◌, ◌^◌, ◌≤◌, ◌<◌, ◌≡◌, refl, ap, some, List, [], ◌∷◌, length, arith,
}
use booleann.Codec.{Target, read_u32, read_u16, delta16_rows, delta16le_decode}
use booleann.Codec.RoundTrip.{
  IsBytes, IsOpen, read_u16-sum, read_u32-sum, encode_deltas, encode_delta16,
}

-- The rows increase by steps below 2^16, and stay below a million.
abbrev pub IsStepped : ℕ → List ℕ → Type 0
IsStepped previous [] = Unit
IsStepped previous (x ∷ xs) =
    (previous < x) × (x < previous + 65536) × (x ≤ 999999) × IsStepped x xs

length-encode_deltas :
    (previous : ℕ) (xs : List ℕ) → length (encode_deltas previous xs) ≡ 2 * length xs
unfolding encode_deltas
length-encode_deltas previous [] = refl
length-encode_deltas previous (x ∷ xs) = omega (arith, length-encode_deltas x xs)

delta16_rows-encode_deltas :
    (previous : ℕ) (xs : List ℕ)
    → previous ≤ 999999
    → IsStepped previous xs
    → delta16_rows previous (encode_deltas previous xs) ≡ (0, xs)
unfolding delta16_rows encode_deltas
delta16_rows-encode_deltas previous [] p v = refl
delta16_rows-encode_deltas previous (x ∷ xs) p v =
    let step = x - previous in
    let value = read_u16-sum (step % 256) (step / 256) (omega arith) in
    let next : (previous + read_u16 (step % 256) (step / 256)) % 2 ^ 32 ≡ x =
      omega (arith, value) in
    rw next (ground (arith, value, delta16_rows-encode_deltas x xs v.2 v.3))

-- Rows below a million that increase by steps below 2^16 come back from their delta layout.
pub delta16le_decode-encode_delta16 :
    (x : ℕ) (xs : List ℕ) (t : Target)
    → x ≤ 999999
    → IsStepped x xs
    → IsOpen (1 + length xs) t
    → delta16le_decode (some (encode_delta16 (x ∷ xs))) t
      ≡ record { status = 0; written = x ∷ xs; decoded_count = some (1 + length xs) }
unfolding delta16le_decode encode_delta16
delta16le_decode-encode_delta16 x xs t p v o =
    let value : read_u32 (x % 256) (x / 256 % 256) (x / 65536 % 256) (x / 16777216) ≡ x =
      omega (arith, read_u32-sum (x % 256) (x / 256 % 256) (x / 65536 % 256) (x / 16777216)) in
    rw value (ground (arith, length-encode_deltas x xs, delta16_rows-encode_deltas x xs p v))

-- A step that the loop accepts.
delta16_rows-next :
    (previous a b : ℕ) (bytes rows : List ℕ)
    → previous ≤ 999999
    → a < 256
    → b < 256
    → delta16_rows previous (a ∷ b ∷ bytes) ≡ (0, rows)
    → let next = previous + (a + b * 256) in
      (0 < a + b * 256)
      × (next ≤ 999999)
      × (rows ≡ next ∷ (delta16_rows next bytes).1)
      × ((delta16_rows next bytes).0 ≡ 0)
unfolding delta16_rows
delta16_rows-next previous a b bytes rows p ha hb h =
    let next : (previous + read_u16 a b) % 2 ^ 32 ≡ previous + (a + b * 256) =
      omega (arith, read_u16-sum a b ha) in
    ground (arith, next, read_u16-sum a b ha)

delta16_rows-nil : (previous : ℕ) {rows : List ℕ} → delta16_rows previous [] ≡ (0, rows) → rows ≡ []
unfolding delta16_rows
delta16_rows-nil previous h = cc

-- What the loop accepts: the steps of the rows, and their layout.
delta16_rows-accepted :
    (previous : ℕ) (bytes rows : List ℕ)
    → previous ≤ 999999
    → IsBytes bytes
    → length bytes % 2 ≡ 0
    → delta16_rows previous bytes ≡ (0, rows)
    → IsStepped previous rows
      × (encode_deltas previous rows ≡ bytes)
      × (length rows ≡ length bytes / 2)
unfolding encode_deltas
delta16_rows-accepted previous [] rows p v e h = rw (delta16_rows-nil previous h) (tt, refl, refl)
delta16_rows-accepted previous (a ∷ []) rows p v e h = absurd (omega arith)
delta16_rows-accepted previous (a ∷ b ∷ bytes) rows p v e h =
    let (positive, small, same, status) = delta16_rows-next previous a b bytes rows p v.0 v.1.0 h in
    let next = previous + (a + b * 256) in
    let (stepped, layout, size) =
      delta16_rows-accepted next bytes (delta16_rows next bytes).1 small v.1.1 (omega arith)
        (λ i. (status i, (delta16_rows next bytes).1)) in
    rw same
      ((omega arith, omega arith, small, stepped), ground (arith, layout), omega (arith, size))

accepted_head :
    (a b c d : ℕ) (bytes : List ℕ) (t : Target)
    → (delta16le_decode (some (a ∷ b ∷ c ∷ d ∷ bytes)) t).status ≡ 0
    → let rows = (delta16_rows (read_u32 a b c d) bytes).1 in
      (delta16le_decode (some (a ∷ b ∷ c ∷ d ∷ bytes)) t ≡ record {
        status = 0;
        written = read_u32 a b c d ∷ rows;
        decoded_count = some (1 + length bytes / 2);
      })
      × (delta16_rows (read_u32 a b c d) bytes ≡ (0, rows))
      × (read_u32 a b c d ≤ 999999)
      × (length bytes % 2 ≡ 0)
      × (1 + length bytes / 2 ≤ t.dst_capacity)
unfolding delta16le_decode
accepted_head a b c d bytes t h = ground arith

-- What the delta decoder accepts is the layout of the rows that it writes; they increase strictly by
-- steps below 2^16, stay below a million, fit the capacity, and are counted.
pub encode_delta16-delta16le_decode :
    (a b c d : ℕ) (bytes : List ℕ) (t : Target)
    → IsBytes (a ∷ b ∷ c ∷ d ∷ bytes)
    → (delta16le_decode (some (a ∷ b ∷ c ∷ d ∷ bytes)) t).status ≡ 0
    → let decoded = delta16le_decode (some (a ∷ b ∷ c ∷ d ∷ bytes)) t in
      (x : ℕ) × (xs : List ℕ) × (decoded.written ≡ x ∷ xs)
      × (x ≤ 999999)
      × IsStepped x xs
      × (encode_delta16 decoded.written ≡ a ∷ b ∷ c ∷ d ∷ bytes)
      × (decoded.decoded_count ≡ some (length decoded.written))
      × (length decoded.written ≤ t.dst_capacity)
unfolding encode_delta16
encode_delta16-delta16le_decode a b c d bytes t v h =
    let (whole, run, small, even, fits) = accepted_head a b c d bytes t h in
    let x = read_u32 a b c d in
    let rows = (delta16_rows x bytes).1 in
    let value = read_u32-sum a b c d v.0 v.1.0 v.1.1.0 in
    let (stepped, layout, size) = delta16_rows-accepted x bytes rows small v.1.1.1.1 even run in
    rw whole (
      x,
      rows,
      refl,
      small,
      stepped,
      ground (arith, value, layout),
      rw size (ap some (omega arith)),
      omega (arith, size, fits),
    )

-- ===== src/EliasFano/Sizes.antt =====
-- The sizes that src/laion/native/elias_fano_topk.cpp reserves for an object: they never overflow, and
-- every bit that the encoder sets lies inside them.
use native.Mathlib.Nat.{pow-suc, one-le-pow, le-div_iff_mul-le, div-lt_iff_lt-mul, div-le_self}
use native.Mathlib.Numerals.{towards_suc}
use booleann.Base.{
  ℕ, zero, suc, ◌+◌, ◌*◌, ◌/◌, ◌^◌, ◌≤◌, ◌<◌, ◌≡◌, refl, false, ◌||◌, some, ltb, ◌==◌, arith,
  Bool-cases, inl, inr, dec_lt,
}
use booleann.EliasFano.{
  Account, universe, u64, max_u64, checked_add, checked_mul, align_bits64, halvings, lower_bits_for,
  account_for,
}

two_pow_next : (k : ℕ) → 2 ^ (k + 1) ≡ 2 * 2 ^ k
two_pow_next k = simp towards_suc (omega (arith, pow-suc 2 k))

-- The loop finds the binary logarithm.
halvings-log2 :
    (fuel value : ℕ)
    → 0 < value
    → value < 2 ^ fuel
    → (2 ^ halvings fuel value ≤ value) × (value < 2 * 2 ^ halvings fuel value)
unfolding halvings
halvings-log2 zero value p h = absurd (omega arith)
halvings-log2 (suc fuel) value p h = elim (Bool-cases (ltb 1 value)) [
  | inl more ↦
      let (low, high) =
        halvings-log2 fuel (value / 2) (ground arith) (omega (arith, pow-suc 2 fuel)) in
      let double = two_pow_next (halvings fuel (value / 2)) in
      rw (more, halvings) (omega (arith, double), omega (arith, double))
  | inr last ↦ rw last (ground arith)
]

halvings-le : (fuel value : ℕ) → halvings fuel value ≤ fuel
unfolding halvings
halvings-le zero value = omega arith
halvings-le (suc fuel) value = ground (arith, halvings-le fuel (value / 2))

-- The number of low bits is the binary logarithm of the universe divided by the rows.
pub lower_bits_for-log2 :
    (rows : ℕ)
    → 0 < rows
    → rows ≤ universe
    → (2 ^ lower_bits_for rows ≤ universe / rows)
      × (universe / rows < 2 * 2 ^ lower_bits_for rows)
      × (lower_bits_for rows ≤ 20)
unfolding lower_bits_for
lower_bits_for-log2 rows h k =
    let pos : 0 < universe / rows = (le-div_iff_mul-le h).1 (omega arith) in
    let bound : universe / rows < 2 ^ 20 = omega (arith, div-le_self universe rows) in
    let (low, high) = halvings-log2 20 (universe / rows) pos bound in
    (low, high, halvings-le 20 (universe / rows))

checked_add-ok : (x y : ℕ) → x + y ≤ max_u64 → checked_add x y ≡ some (x + y)
unfolding checked_add
checked_add-ok x y h = let wrap : u64 (x + y) ≡ x + y = omega arith in rw wrap (ground arith)

checked_mul-ok : (x y : ℕ) → x * y ≤ max_u64 → checked_mul x y ≡ some (x * y)
unfolding checked_mul
checked_mul-ok x y h =
    let wrap : u64 (x * y) ≡ x * y = omega arith in
    rw wrap (elim (dec_lt 0 x) [
      | no p ↦ ground arith
      | yes p ↦ elim (dec_lt (max_u64 / x) y) [
        | yes q ↦ absurd (omega (arith, (div-lt_iff_lt-mul p).0 q))
        | no q ↦ ground arith
      ]
    ])

-- The bytes of so many bits in whole words.
abbrev pub word_bytes : ℕ → ℕ
word_bytes bits = (bits + 63) / 64 * 8

word_bytes-le : (bits : ℕ) → (bits ≤ 8 * word_bytes bits) × (8 * word_bytes bits < bits + 64)
word_bytes-le bits = (omega arith, omega arith)

align_bits64-ok : (bits : ℕ) → bits + 63 ≤ max_u64 → align_bits64 bits ≡ some (word_bytes bits)
unfolding align_bits64
align_bits64-ok bits h = rw (checked_add-ok bits 63 h) refl

-- The account that the fields below are about.
abbrev pub account_at : ℕ → ℕ → Account
account_at rows lower = record {
  lower_bits = lower;
  low_bits = rows * lower;
  high_bits = universe / 2 ^ lower + rows;
  low_bytes = word_bytes (rows * lower);
  high_bytes = word_bytes (universe / 2 ^ lower + rows);
  payload_bytes = word_bytes (rows * lower) + word_bytes (universe / 2 ^ lower + rows);
}

pub account_for-ok :
    (rows : ℕ)
    → 0 < rows
    → rows ≤ universe
    → account_for rows ≡ some (account_at rows (lower_bits_for rows))
unfolding account_for
account_for-ok rows h k =
    let lower = lower_bits_for rows in
    let (low, high, few) = lower_bits_for-log2 rows h k in
    let low_small : rows * lower ≤ 20000000 = grind arith in
    let high_small = div-le_self universe (2 ^ lower) in
    let admitted : (rows == 0 || ltb universe rows) ≡ false = ground arith in
    rw
      (
        admitted,
        checked_mul-ok rows lower (omega arith),
        align_bits64-ok (rows * lower) (omega arith),
        align_bits64-ok (universe / 2 ^ lower + rows) (omega arith),
        checked_add-ok (word_bytes (rows * lower)) (word_bytes (universe / 2 ^ lower + rows))
            (omega arith),
      )
      refl

div_mono : (x y k : ℕ) → 0 < k → x ≤ y → x / k ≤ y / k
div_mono x y k h p =
    let whole : x / k * k ≤ x = (le-div_iff_mul-le h).0 (omega arith) in
    (le-div_iff_mul-le h).1 (omega arith)

-- For 1 to a million rows the sizes are computed without overflow. A row takes less than three bits
-- besides its low bits, up to the rounding to words, and the low and the high bits of every row number
-- below a million lie inside the words that are reserved.
pub account_for-IsEnough :
    (rows : ℕ)
    → 0 < rows
    → rows ≤ universe
    → (a : Account) × (account_for rows ≡ some a)
      × (8 * a.payload_bytes < rows * (a.lower_bits + 3) + 128)
      × ((index id : ℕ)
          → index < rows
          → id < universe
          → (index * a.lower_bits + a.lower_bits ≤ 8 * a.low_bytes)
            × (id / 2 ^ a.lower_bits + index < 8 * a.high_bytes))
account_for-IsEnough rows h k =
    let lower = lower_bits_for rows in
    let (low, high, few) = lower_bits_for-log2 rows h k in
    let positive : 0 < 2 ^ lower = one-le-pow lower 2 (omega arith) in
    let quotient : universe < 2 * 2 ^ lower * rows = (div-lt_iff_lt-mul h).0 high in
    let buckets : universe / 2 ^ lower < 2 * rows = (div-lt_iff_lt-mul positive).1 (omega arith) in
    (
      account_at rows lower,
      account_for-ok rows h k,
      omega arith,
      λ index id p q. (
        let row : index * lower + lower ≤ rows * lower = grind arith in omega arith,
        omega (arith, div_mono id universe (2 ^ lower) positive (omega arith)),
      ),
    )

-- ===== src/Cube/Count.antt =====
-- Where a stable counting sort by `key` puts each row: the arithmetic of the layout that
-- src/predicate_cube/predicate_cube.hpp builds.
use booleann.Base.{
  ℕ, zero, suc, ◌+◌, ◌≤◌, ◌<◌, ◌≡◌, refl, sym, ap, ltb, ◌==◌, if◌then◌else◌, arith, comparison,
  is_lt, is_eq, is_gt,
}

module _ (key : ℕ → ℕ) where
  -- How many of the first rows have a key below `c`, and how many have the key `c`.
  unfoldable pub below : ℕ → ℕ → ℕ
  below c zero = 0
  below c (suc row) = below c row + (if ltb (key row) c then 1 else 0)

  unfoldable pub same : ℕ → ℕ → ℕ
  same c zero = 0
  same c (suc row) = same c row + (if key row == c then 1 else 0)

  -- The position of a row among `n`.
  abbrev pub place : ℕ → ℕ → ℕ
  place n row = below (key row) n + same (key row) row

  pub below-zero : (n : ℕ) → below 0 n ≡ 0
  unfolding below
  below-zero zero = refl
  below-zero (suc n) = ground (arith, below-zero n)

  pub below_next : (c n : ℕ) → below (c + 1) n ≡ below c n + same c n
  unfolding below same
  below_next c zero = refl
  below_next c (suc n) = ground (arith, below_next c n)

  pub below-le : (c n : ℕ) → below c n ≤ n
  unfolding below
  below-le c zero = omega arith
  below-le c (suc n) = ground (arith, below-le c n)

  pub same-le : (c n : ℕ) → same c n ≤ n
  unfolding same
  same-le c zero = omega arith
  same-le c (suc n) = ground (arith, same-le c n)

  pub below_all : (c n : ℕ) → ((row : ℕ) → row < n → key row < c) → below c n ≡ n
  unfolding below
  below_all c zero h = refl
  below_all c (suc n) h =
      ground (arith, h n (omega arith), below_all c n (λ row p. h row (omega arith)))

  pub below_mono : (c d n : ℕ) → c ≤ d → below c n ≤ below d n
  unfolding below
  below_mono c d zero h = omega arith
  below_mono c d (suc n) h = ground (arith, below_mono c d n)

  same-lt : (c n row : ℕ) → row < n → key row ≡ c → same c row < same c n
  unfolding same
  same-lt c zero row h e = absurd (omega arith)
  same-lt c (suc n) row h e = elim (comparison row n) [
    | is_lt _ p ↦ ground (arith, same-lt c n row p e)
    | is_eq _ p ↦ ground (arith, ap (same c) p, ap key p)
    | is_gt _ p ↦ absurd (omega arith)
  ]

  module _ (n : ℕ) where
    -- A row comes before every later row of its key, and the rows of smaller keys before it.
    pub place_lt_same :
        (row later : ℕ) → row < later → key row ≡ key later → place n row < place n later
    place_lt_same row later h e =
        ground
          (arith, same-lt (key later) later row h e, ap (λ c. below c n) e, ap (λ c. same c row) e)

    pub place-lt-below : (c row : ℕ) → row < n → key row < c → place n row < below c n
    place-lt-below c row h k = omega (
      arith,
      same-lt (key row) n row h refl,
      below_next (key row) n,
      below_mono (key row + 1) c n (omega arith),
    )

    pub below-le-place : (c row : ℕ) → c ≤ key row → below c n ≤ place n row
    below-le-place c row h = omega (arith, below_mono c (key row) n h)

    pub place-lt : (row : ℕ) → row < n → place n row < n
    place-lt row h =
        omega (arith, place-lt-below (key row + 1) row h (omega arith), below-le (key row + 1) n)

    -- The order of positions is the order by key and then by id.
    pub place_lt_key : (row other : ℕ) → row < n → key row < key other → place n row < place n other
    place_lt_key row other h k = omega (arith, place-lt-below (key other) row h k)

    pub place_injective :
        (row other : ℕ) → row < n → other < n → place n row ≡ place n other → row ≡ other
    place_injective row other h k e = elim (comparison (key row) (key other)) [
      | is_lt _ p ↦ absurd (omega (arith, place_lt_key row other h p))
      | is_gt _ p ↦ absurd (omega (arith, place_lt_key other row k p))
      | is_eq _ p ↦ elim (comparison row other) [
        | is_lt _ q ↦ absurd (omega (arith, place_lt_same row other q p))
        | is_eq _ q ↦ q
        | is_gt _ q ↦ absurd (omega (arith, place_lt_same other row q (sym p)))
      ]
    ]

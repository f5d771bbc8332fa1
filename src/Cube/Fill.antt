-- ===== src/Cube/Fill.antt =====
-- The three loops of the constructor of src/predicate_cube/predicate_cube.hpp: what they fill in is the
-- stable counting sort by cell.
use booleann.Base.{
  ℕ, zero, suc, ◌+◌, ◌-◌, ◌*◌, ◌≤◌, ◌<◌, ◌≡◌, refl, ap, ◌∙◌, Bool, true, leb, if◌then◌else◌, arith,
  get_or, comparison, is_lt, is_eq, is_gt, ◌≢◌,
}
use booleann.Base.Arrays.{update, copy}
use booleann.Base.Result.{ok}
use booleann.Cube.{
  Table, Scatter, max_u32, u32, in_domain, bin_label, a_label, b_label, row_cell, count_rows,
  prefix_sums, scatter, cursors_done,
}
use booleann.Cube.Count.{
  below, same, place, below-zero, below_next, below-le, same-le, place_injective, place-lt,
}

abbrev pub row_in_domain : Table → ℕ → Bool
row_in_domain t row =
    in_domain t.bins t.a_count t.b_count (bin_label t row) (a_label t row) (b_label t row)

-- The first `n` rows have labels in their domains, and cells `key` below `cells`.
pub record IsKeyed (t : Table) (key : ℕ → ℕ) (cells n : ℕ) : Type 0 where
  pub small : n ≤ max_u32
  pub valid : (row : ℕ) → row < n → row_in_domain t row ≡ true
  pub cell : (row : ℕ) → row < n → row_cell t row ≡ ok (key row)
  pub inside : (row : ℕ) → row < n → key row < cells

module _ (t : Table) (key : ℕ → ℕ) (cells n : ℕ) (keyed : IsKeyed t key cells n) where
  pub count_rows-same :
      (k : ℕ)
      → k ≤ n
      → (counts : ℕ → ℕ) × (count_rows t k ≡ ok counts)
        × (counts 0 ≡ 0)
        × ((c : ℕ) → counts (c + 1) ≡ same key c k)
  unfolding count_rows same
  count_rows-same zero h = (λ _. 0, refl, refl, λ c. refl)
  count_rows-same (suc k) h =
      let (counts, run, first, rest) = count_rows-same k (omega arith) in
      (
        update counts (key k + 1) (u32 (counts (key k + 1) + 1)),
        rw (run, keyed.valid k (omega arith), keyed.cell k (omega arith)) refl,
        ground (arith, first),
        λ c. ground (arith, rest c, rest (key k), same-le key c k, keyed.small),
      )

  pub prefix_sums-below :
      (counts : ℕ → ℕ)
      → counts 0 ≡ 0
      → ((c : ℕ) → counts (c + 1) ≡ same key c n)
      → (done x : ℕ) → prefix_sums done counts x ≡ (if leb x done then below key x n else counts x)
  unfolding prefix_sums
  prefix_sums-below counts first rest zero x =
      ground (arith, first, below-zero key n, ap counts {x = x} {y = 0})
  prefix_sums-below counts first rest (suc c) x =
      let here = prefix_sums-below counts first rest c c in
      let there = prefix_sums-below counts first rest c x in
      let next = prefix_sums-below counts first rest c (c + 1) in
      ground
        (arith, here, there, next, rest c, below_next key c n, below-le key (c + 1) n, keyed.small)

-- Rows of `d` bytes do not overlap.
row-le : (p q d : ℕ) → p < q → p * d + d ≤ q * d
row-le p q d h = grind arith

module _ {ℓ} {A : Type ℓ} (to from : ℕ → A) (q begin d i : ℕ) (h : i < d) where
  copy_other : (p : ℕ) → p ≢ q → copy to (q * d) from begin d (p * d + i) ≡ to (p * d + i)
  copy_other p ne = elim (comparison p q) [
    | is_lt _ l ↦ ground (arith, row-le p q d l)
    | is_eq _ e ↦ absurd (ne e)
    | is_gt _ l ↦ ground (arith, row-le q p d l)
  ]

  copy_here : copy to (q * d) from begin d (q * d + i) ≡ from (begin + i)
  copy_here =
      let back : q * d + i - q * d ≡ i = omega arith in
      ground (arith, ap (λ j. from (begin + j)) back)

-- The state of the scatter after `k` rows.
pub record IsPlaced (t : Table) (key : ℕ → ℕ) (cells n k : ℕ) (s : Scatter) : Type 0 where
  pub cursors : (c : ℕ) → c < cells → s.cursor c ≡ below key c n + same key c k
  pub forward : (row : ℕ) → row < k → s.global_to_pos row ≡ place key n row
  pub back : (row : ℕ) → row < k → s.pos_to_global (place key n row) ≡ row
  pub bytes :
      (row i : ℕ)
      → row < k
      → i < t.dim
      → s.vectors_by_pos (place key n row * t.dim + i) ≡ get_or t.vectors (row * t.dim + i) 0

module _ (t : Table) (key : ℕ → ℕ) (cells n : ℕ) (keyed : IsKeyed t key cells n) where
  place_step : (k : ℕ) (s : Scatter) → k < n → IsPlaced t key cells n k s → Scatter
  place_step k s h v = record {
    cursor = update s.cursor (key k) (u32 (s.cursor (key k) + 1));
    pos_to_global = update s.pos_to_global (s.cursor (key k)) k;
    global_to_pos = update s.global_to_pos k (s.cursor (key k));
    vectors_by_pos =
        copy s.vectors_by_pos (s.cursor (key k) * t.dim) (λ j. get_or t.vectors j 0) (k * t.dim)
          t.dim;
  }

  IsPlaced-next :
      (k : ℕ) (s : Scatter) (h : k < n) (v : IsPlaced t key cells n k s)
      → IsPlaced t key cells n (suc k) (place_step k s h v)
  unfolding place_step same
  IsPlaced-next k s h v =
      let here : s.cursor (key k) ≡ place key n k = v.cursors (key k) (keyed.inside k h) in
      let small = place-lt key n k h in
      let apart = λ (row : ℕ) (p : row < k) (e : place key n row ≡ place key n k).
        place_injective key n row k (omega arith) h e in
      record {
        cursors = λ c p. ground (arith, here, v.cursors c p, small, keyed.small);
        forward = λ row p. ground (arith, here, v.forward row);
        back = λ row p. elim (comparison row k) [
          | is_lt _ l ↦ ground (arith, here, v.back row l, apart row l)
          | is_eq _ e ↦ ground (arith, here, ap (place key n) e)
          | is_gt _ l ↦ absurd (omega arith)
        ];
        bytes = λ row i p q. elim (comparison row k) [
          | is_lt _ l ↦ rw here (
              copy_other s.vectors_by_pos (λ j. get_or t.vectors j 0) (place key n k) (k * t.dim)
                t.dim i q (place key n row) (λ e. omega (arith, apart row l e))
              ∙ v.bytes row i l q)
          | is_eq _ e ↦
              rw (here, e)
                (copy_here s.vectors_by_pos (λ j. get_or t.vectors j 0) (place key n k) (k * t.dim)
                  t.dim i q)
          | is_gt _ l ↦ absurd (omega arith)
        ];
      }

  -- The scatter runs through, and each row stands at its place.
  pub scatter-IsPlaced :
      (offsets : ℕ → ℕ)
      → ((c : ℕ) → c < cells → offsets c ≡ below key c n)
      → (k : ℕ) → k ≤ n
      → (s : Scatter) × (scatter t offsets k ≡ ok s) × IsPlaced t key cells n k s
  unfolding scatter same place_step
  scatter-IsPlaced offsets starts zero h = (
    _,
    refl,
    record {
      cursors = λ c p. omega (arith, starts c p);
      forward = λ row p. absurd (omega arith);
      back = λ row p. absurd (omega arith);
      bytes = λ row i p q. absurd (omega arith);
    },
  )
  scatter-IsPlaced offsets starts (suc k) h =
      let (s, run, placed) = scatter-IsPlaced offsets starts k (omega arith) in
      (place_step k s h placed, rw (run, keyed.cell k h) refl, IsPlaced-next k s h placed)

  pub cursors-done :
      (offsets : ℕ → ℕ) (s : Scatter)
      → ((c : ℕ) → c ≤ cells → offsets c ≡ below key c n)
      → IsPlaced t key cells n n s
      → (c : ℕ) → c ≤ cells
      → cursors_done c s.cursor offsets ≡ true
  unfolding cursors_done
  cursors-done offsets s starts placed zero h = refl
  cursors-done offsets s starts placed (suc c) h = ground (
    arith,
    cursors-done offsets s starts placed c (omega arith),
    placed.cursors c h,
    starts (c + 1) (omega arith),
    below_next key c n,
  )

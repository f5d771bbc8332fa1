-- ===== src/Compositor/Pending.antt =====
-- What the streams of src/laion/native/fixed_block_compositor.cpp stand for: each segment has a list of rows that are
-- pending, of which a live stream is at the first.
use booleann.Base.{
  ℕ, zero, suc, ◌+◌, ◌≤◌, ◌<◌, ◌≡◌, refl, Bool, true, false, Option, none, some, List, [], ◌∷◌, leb,
  ◌==◌, if◌then◌else◌, arith, Bool-cases, inl, inr,
}
use booleann.Base.Result.{ok}
use booleann.Base.Ordered.{IsAscendingFrom, IsAscendingFrom-weaken, IsSupport}
use booleann.Compositor.Heap.Kept.{total}
use booleann.Compositor.Heap.Order.{IsHeap}
use booleann.Compositor.Stream.{
  Stream, Advanced, Streams, falls_back, admits, counted, advance_rows, heads,
}

-- The rows that a filter lets through.
unfoldable pub admitted : Option (ℕ → Bool) → List ℕ → List ℕ
admitted filter [] = []
admitted filter (id ∷ rows) =
    let others = admitted filter rows in if admits filter id then id ∷ others else others

abbrev pub first_after : Option ℕ → ℕ
first_after none = 0
first_after (some previous) = previous + 1

-- A stream that is at the first of its pending rows, or at its end.
abbrev pub Represents : ℕ → Option (ℕ → Bool) → Stream → List ℕ → Type 0
Represents base_rows filter s [] = s.live ≡ false
Represents base_rows filter s (x ∷ xs) =
    (s.live ≡ true)
    × (s.current ≡ x)
    × (s.previous ≡ some x)
    × IsSupport (x + 1) base_rows s.rest
    × (admitted filter s.rest ≡ xs)

pub admitted-IsAscendingFrom :
    (filter : Option (ℕ → Bool)) (lo : ℕ) (rows : List ℕ)
    → IsAscendingFrom lo rows
    → IsAscendingFrom lo (admitted filter rows)
unfolding admitted
admitted-IsAscendingFrom filter lo [] h = tt
admitted-IsAscendingFrom filter lo (id ∷ rows) h =
    let rest = admitted-IsAscendingFrom filter (id + 1) rows h.1 in
    elim (Bool-cases (admits filter id)) [
      | inl e ↦ rw e (h.0, rest)
      | inr e ↦
          rw e (IsAscendingFrom-weaken (id + 1) lo (admitted filter rows) (omega (arith, h.0)) rest)
    ]

-- On rows that ascend from the one before, advancing succeeds, and leaves what the filter lets through.
pub advance_rows-Represents :
    (base_rows : ℕ) (filter : Option (ℕ → Bool)) (current : ℕ) (previous : Option ℕ) (checks : ℕ)
    (rows : List ℕ)
    → IsSupport (first_after previous) base_rows rows
    → (a : Advanced) × (advance_rows base_rows filter current previous checks rows ≡ ok a)
      × Represents base_rows filter a.stream (admitted filter rows)
unfolding advance_rows admitted
advance_rows-Represents base_rows filter current previous checks [] h = (
  record {
    stream = record { rest = []; previous = previous; current = current; live = false };
    checks = checks;
  },
  refl,
  refl,
)
advance_rows-Represents base_rows filter current previous checks (id ∷ rows) h =
    let inside : leb base_rows id ≡ false = ground (arith, h.1.0) in
    let forward : falls_back previous id ≡ false = forwards previous id h.0.0 in
    elim (Bool-cases (admits filter id)) [
      | inl e ↦
          rw (inside, forward, e)
            (
              record {
                stream = record { rest = rows; previous = some id; current = id; live = true };
                checks = counted filter checks;
              },
              refl,
              (refl, refl, refl, (h.0.1, h.1.1), refl),
            )
      | inr e ↦
          rw (inside, forward, e)
            (advance_rows-Represents base_rows filter current (some id) (counted filter checks) rows
              (h.0.1, h.1.1))
    ]
  where
    forwards :
        (previous : Option ℕ) (id : ℕ) → first_after previous ≤ id → falls_back previous id ≡ false
    forwards none id h = refl
    forwards (some p) id h = ground arith

-- 1 for the segment itself.
abbrev pub is_segment : ℕ → ℕ → ℕ
is_segment s v = if s == v then 1 else 0

-- 1 if there are rows.
abbrev pub has_rows : List ℕ → ℕ
has_rows [] = 0
has_rows (x ∷ xs) = 1

-- The streams stand for the pending rows, and the heap holds each segment that has some, once.
pub record IsPending (base_rows : ℕ) (filters : ℕ → Option (ℕ → Bool)) (st : Streams)
    (pending : ℕ → List ℕ) : Type 0 where
  pub ordered : IsHeap (heads st.stream_of) st.heap.heap_size st.heap.cells
  pub members :
      (s : ℕ) → total (is_segment s) st.heap.heap_size st.heap.cells ≡ has_rows (pending s)
  pub represented : (s : ℕ) → Represents base_rows (filters s) (st.stream_of s) (pending s)

pub total-least :
    {A : Type 0} (f : A → ℕ) (n i : ℕ) (cells : ℕ → A) → i < n → f (cells i) ≤ total f n cells
unfolding total
total-least f zero i cells h = absurd (omega arith)
total-least f (suc n) i cells h = elim (Bool-cases (i == n)) [
  | inl e ↦ let same : i ≡ n = ground arith in rw same (omega arith)
  | inr e ↦ let inside : i < n = ground arith in omega (arith, total-least f n i cells inside)
]

-- A segment that is counted stands in a cell.
pub total-find :
    (s n : ℕ) (cells : ℕ → ℕ) → 0 < total (is_segment s) n cells → (i : ℕ) × (i < n) × (cells i ≡ s)
unfolding total
total-find s zero cells h = absurd (omega arith)
total-find s (suc n) cells h = elim (Bool-cases (s == cells n)) [
  | inl e ↦ (n, omega arith, ground arith)
  | inr e ↦
      let before : 0 < total (is_segment s) n cells = ground arith in
      let found = total-find s n cells before in (found.0, omega (arith, found.1), found.2)
]

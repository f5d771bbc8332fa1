-- ===== src/Compositor/Heap/Order.antt =====
-- The heap of src/laion/native/fixed_block_compositor.cpp stays in order, and its first cell is the least.
use booleann.Base.{
  ℕ, zero, suc, ◌+◌, ◌-◌, ◌/◌, ◌≤◌, ◌<◌, ◌≡◌, ◌≢◌, refl, sym, ap, true, false, ◌==◌, arith,
  Bool-cases, inl, inr,
}
use booleann.Base.Arrays.{update}
use booleann.Compositor.Heap.{Heap, head_less, swap, sift_up, heap_push}

-- What a swap leaves in the three kinds of cells.
pub swap-first : (cells : ℕ → ℕ) (i j : ℕ) → swap cells i j i ≡ cells j
swap-first cells i j = elim (Bool-cases (j == i)) [
  | inl e ↦ let same : j ≡ i = ground arith in rw e (ap cells (sym same))
  | inr e ↦ let here : (i == i) ≡ true = ground arith in rw (e, here) refl
]

pub swap-second : (cells : ℕ → ℕ) (i j : ℕ) → swap cells i j j ≡ cells i
swap-second cells i j = let here : (j == j) ≡ true = ground arith in rw here refl

pub swap-other : (cells : ℕ → ℕ) (i j t : ℕ) → t ≢ i → t ≢ j → swap cells i j t ≡ cells t
swap-other cells i j t h k =
    let first : (i == t) ≡ false = ground arith in
    let second : (j == t) ≡ false = ground arith in rw (second, first) refl

abbrev pub parent_of : ℕ → ℕ
parent_of i = (i - 1) / 2

module _ (current : ℕ → ℕ) where
  -- No cell of the first `n` is less than its parent.
  abbrev pub IsHeap : ℕ → (ℕ → ℕ) → Type 0
  IsHeap n cells =
      (i : ℕ) → 0 < i → i < n → head_less current (cells i) (cells (parent_of i)) ≡ false

  pub less_trans :
      (a b c : ℕ)
      → head_less current b a ≡ false
      → head_less current c b ≡ false
      → head_less current c a ≡ false
  less_trans a b c h k = ground arith

  pub less_total : (a b : ℕ) → head_less current a b ≡ true → head_less current b a ≡ false
  less_total a b h = ground arith

  -- A heap but for one cell, which may be less than its parent.
  record IsRising (n child : ℕ) (cells : ℕ → ℕ) : Type 0 where
    others :
        (i : ℕ)
        → 0 < i
        → i < n
        → i ≢ child
        → head_less current (cells i) (cells (parent_of i)) ≡ false
    below :
        (i : ℕ)
        → 0 < i
        → i < n
        → parent_of i ≡ child
        → 0 < child
        → head_less current (cells i) (cells (parent_of child)) ≡ false

  risen :
      (n child : ℕ) (cells : ℕ → ℕ)
      → 0 < child
      → child < n
      → head_less current (cells child) (cells (parent_of child)) ≡ true
      → IsRising n child cells
      → IsRising n (parent_of child) (swap cells child (parent_of child))
  risen n child cells h k less r =
      let p = parent_of child in
      let c = swap cells child p in
      let at_child : c child ≡ cells p = swap-first cells child p in
      let at_p : c p ≡ cells child = swap-second cells child p in
      record {
        others = λ i a b ne. elim (Bool-cases (i == child)) [
          | inl e ↦
              let same : i ≡ child = ground arith in
              rw (same, at_child, at_p) (less_total (cells child) (cells p) less)
          | inr e ↦
              let differ : i ≢ child = ground arith in
              let at_i : c i ≡ cells i = swap-other cells child p i differ ne in
              elim (Bool-cases (parent_of i == child)) [
                | inl f ↦
                    let same : parent_of i ≡ child = ground arith in
                    rw (at_i, same, at_child) (r.below i a b same h)
                | inr f ↦ elim (Bool-cases (parent_of i == p)) [
                  | inl g ↦
                      let same : parent_of i ≡ p = ground arith in
                      let old = rw same at (r.others i a b differ) in
                      rw (at_i, same, at_p)
                        (less_trans (cells child) (cells p) (cells i)
                          (less_total (cells child) (cells p) less) old)
                  | inr g ↦
                      let there : c (parent_of i) ≡ cells (parent_of i) =
                        swap-other cells child p (parent_of i) (ground arith) (ground arith) in
                      rw (at_i, there) (r.others i a b differ)
                ]
              ]
        ];
        below = λ i a b same q.
            let grand : c (parent_of p) ≡ cells (parent_of p) =
              swap-other cells child p (parent_of p) (ground arith) (ground arith) in
            let old = r.others p q (omega arith) (ground arith) in
            elim (Bool-cases (i == child)) [
              | inl e ↦ let here : i ≡ child = ground arith in rw (here, at_child, grand) old
              | inr e ↦
                  let differ : i ≢ child = ground arith in
                  let at_i : c i ≡ cells i = swap-other cells child p i differ (ground arith) in
                  let above = rw same at (r.others i a b differ) in
                  rw (at_i, grand) (less_trans (cells (parent_of p)) (cells p) (cells i) old above)
            ];
      }

  sift_up-IsHeap :
      (fuel n child : ℕ) (cells : ℕ → ℕ)
      → child ≤ fuel
      → child < n
      → IsRising n child cells
      → IsHeap n (sift_up current fuel child cells)
  unfolding sift_up
  sift_up-IsHeap zero n child cells h k r = λ i a b. r.others i a b (ground arith)
  sift_up-IsHeap (suc fuel) n child cells h k r =
      let p = parent_of child in
      elim (Bool-cases (child == 0)) [
        | inl e ↦ rw e (λ i a b. r.others i a b (ground arith))
        | inr e ↦ elim (Bool-cases (head_less current (cells child) (cells p))) [
          | inl g ↦
              rw (e, g)
                (sift_up-IsHeap fuel n p (swap cells child p) (ground arith) (omega arith)
                  (risen n child cells (ground arith) k g r))
          | inr g ↦
              rw (e, g)
                (λ i a b. elim (Bool-cases (i == child)) [
                  | inl f ↦ let same : i ≡ child = ground arith in rw same g
                  | inr f ↦ r.others i a b (ground arith)
                ])
        ]
      ]

  pub heap_push-IsHeap :
      (segment : ℕ) (h : Heap)
      → IsHeap h.heap_size h.cells
      → IsHeap (h.heap_size + 1) (heap_push current segment h).cells
  unfolding heap_push
  heap_push-IsHeap segment h o =
      let n = h.heap_size in
      let cells = update h.cells n segment in
      let kept : (i : ℕ) → i < n → cells i ≡ h.cells i =
        λ i l. (let e : (n == i) ≡ false = ground arith in rw e refl) in
      sift_up-IsHeap n (n + 1) n cells (omega arith) (omega arith) (record {
        others = λ i a b ne.
            let inside : i < n = ground arith in
            rw (kept i inside, kept (parent_of i) (omega arith)) (o i a inside);
        below = λ i a b same q. absurd (omega arith);
      })

  -- The first cell is the least.
  pub heap-least :
      (fuel n i : ℕ) (cells : ℕ → ℕ)
      → i ≤ fuel
      → i < n
      → IsHeap n cells
      → head_less current (cells i) (cells 0) ≡ false
  heap-least fuel n zero cells h k o = ground arith
  heap-least zero n (suc i) cells h k o = absurd (omega arith)
  heap-least (suc fuel) n (suc i) cells h k o =
      less_trans (cells 0) (cells (parent_of (suc i))) (cells (suc i))
        (heap-least fuel n (parent_of (suc i)) cells (omega arith) (omega arith) o)
        (o (suc i) (omega arith) k)

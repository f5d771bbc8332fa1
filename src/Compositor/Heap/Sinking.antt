-- ===== src/Compositor/Heap/Sinking.antt =====
-- Popping from the heap of src/laion/native/fixed_block_compositor.cpp leaves a heap.
use booleann.Base.{
  ℕ, zero, suc, ◌+◌, ◌-◌, ◌*◌, ◌≤◌, ◌<◌, ◌≡◌, ◌≢◌, refl, true, false, ◌&&◌, ltb, leb, ◌==◌, arith,
  Bool-cases, inl, inr,
}
use booleann.Base.Arrays.{update}
use booleann.Compositor.Heap.{Heap, head_less, swap, smallest_child, sift_down, heap_pop}
use booleann.Compositor.Heap.Kept.{total, heap_pop-total}
use booleann.Compositor.Heap.Order.{
  swap-first, swap-second, swap-other, parent_of, IsHeap, less_trans, less_total, heap-least,
}

module _ (current : ℕ → ℕ) where
  -- A heap but for the children of one cell, which may be less than it.
  record IsSinking (n parent : ℕ) (cells : ℕ → ℕ) : Type 0 where
    others :
        (i : ℕ)
        → 0 < i
        → i < n
        → parent_of i ≢ parent
        → head_less current (cells i) (cells (parent_of i)) ≡ false
    below :
        (i : ℕ)
        → 0 < i
        → i < n
        → parent_of i ≡ parent
        → 0 < parent
        → head_less current (cells i) (cells (parent_of parent)) ≡ false

  record IsSmallest (n parent : ℕ) (cells : ℕ → ℕ) (s : ℕ) : Type 0 where
    inside : s < n
    child : parent_of s ≡ parent
    positive : 0 < s
    least :
        (i : ℕ)
        → 0 < i
        → i < n
        → parent_of i ≡ parent
        → head_less current (cells i) (cells s) ≡ false

  smallest_child-IsSmallest :
      (n parent : ℕ) (cells : ℕ → ℕ)
      → leb n (parent * 2 + 1) ≡ false
      → IsSmallest n parent cells (smallest_child current n parent cells)
  unfolding smallest_child
  smallest_child-IsSmallest n parent cells h =
      let left = parent * 2 + 1 in
      let right = left + 1 in
      elim (Bool-cases (ltb right n && head_less current (cells right) (cells left))) [
        | inl e ↦
            let less : head_less current (cells right) (cells left) ≡ true = ground arith in
            rw e (record {
              inside = ground arith;
              child = ground arith;
              positive = omega arith;
              least = λ i a b same. elim (Bool-cases (i == right)) [
                | inl f ↦ let here : i ≡ right = ground arith in rw here (ground arith)
                | inr f ↦
                    let here : i ≡ left = ground arith in
                    rw here (less_total current (cells right) (cells left) less)
              ];
            })
        | inr e ↦ rw e (record {
          inside = ground arith;
          child = ground arith;
          positive = omega arith;
          least = λ i a b same. elim (Bool-cases (i == right)) [
            | inl f ↦
                let here : i ≡ right = ground arith in
                let inside : ltb right n ≡ true = ground arith in
                let not_less : head_less current (cells right) (cells left) ≡ false =
                  (rw inside at e) in
                rw here not_less
            | inr f ↦ let here : i ≡ left = ground arith in rw here (ground arith)
          ];
        })
      ]

  sunk :
      (n p s : ℕ) (cells : ℕ → ℕ)
      → p < n
      → IsSmallest n p cells s
      → head_less current (cells s) (cells p) ≡ true
      → IsSinking n p cells
      → IsSinking n s (swap cells s p)
  sunk n p s cells h m less r =
      let c = swap cells s p in
      let at_s : c s ≡ cells p = swap-first cells s p in
      let at_p : c p ≡ cells s = swap-second cells s p in
      let child = m.child in
      let positive = m.positive in
      record {
        others = λ i a b ne. elim (Bool-cases (i == s)) [
          | inl e ↦
              let same : i ≡ s = ground arith in
              rw (same, at_s, child, at_p) (less_total current (cells s) (cells p) less)
          | inr e ↦
              let differ : i ≢ s = ground arith in
              elim (Bool-cases (i == p)) [
                | inl f ↦
                    let same : i ≡ p = ground arith in
                    let grand : c (parent_of p) ≡ cells (parent_of p) =
                      swap-other cells s p (parent_of p) (ground arith) (ground arith) in
                    rw (same, at_p, grand) (r.below s positive m.inside child (ground arith))
                | inr f ↦
                    let at_i : c i ≡ cells i = swap-other cells s p i differ (ground arith) in
                    elim (Bool-cases (parent_of i == p)) [
                      | inl g ↦
                          let same : parent_of i ≡ p = ground arith in
                          rw (at_i, same, at_p) (m.least i a b same)
                      | inr g ↦
                          let there : c (parent_of i) ≡ cells (parent_of i) =
                            swap-other cells s p (parent_of i) ne (ground arith) in
                          rw (at_i, there) (r.others i a b (ground arith))
                    ]
              ]
        ];
        below = λ i a b same q.
            let at_i : c i ≡ cells i = swap-other cells s p i (ground arith) (ground arith) in
            let old = rw same at (r.others i a b (ground arith)) in rw (at_i, child, at_p) old;
      }

  sift_down-IsHeap :
      (fuel n parent : ℕ) (cells : ℕ → ℕ)
      → n ≤ fuel + parent
      → parent < n
      → IsSinking n parent cells
      → IsHeap current n (sift_down current fuel n parent cells)
  unfolding sift_down
  sift_down-IsHeap zero n parent cells h k r = absurd (omega arith)
  sift_down-IsHeap (suc fuel) n parent cells h k r =
      let s = smallest_child current n parent cells in
      elim (Bool-cases (leb n (parent * 2 + 1))) [
        | inl e ↦ rw e (λ i a b. r.others i a b (ground arith))
        | inr e ↦
            let m = smallest_child-IsSmallest n parent cells e in
            let child = m.child in
            let positive = m.positive in
            elim (Bool-cases (head_less current (cells s) (cells parent))) [
              | inl g ↦
                  rw (e, g)
                    (sift_down-IsHeap fuel n s (swap cells s parent) (omega arith) m.inside
                      (sunk n parent s cells k m g r))
              | inr g ↦
                  rw (e, g)
                    (λ i a b. elim (Bool-cases (parent_of i == parent)) [
                      | inl f ↦
                          let same : parent_of i ≡ parent = ground arith in
                          rw same (
                            less_trans current (cells parent) (cells s) (cells i) g
                              (m.least i a b same))
                      | inr f ↦ r.others i a b (ground arith)
                    ])
            ]
      ]

  pub heap_pop-IsHeap :
      (h : Heap) (n : ℕ)
      → h.heap_size ≡ suc n
      → IsHeap current (suc n) h.cells
      → IsHeap current n (heap_pop current h).remaining.cells
  unfolding heap_pop
  heap_pop-IsHeap h zero e o = λ i a b. absurd (omega arith)
  heap_pop-IsHeap h (suc n) e o =
      let moved = update h.cells 0 (h.cells (suc n)) in
      let kept : (i : ℕ) → 0 < i → moved i ≡ h.cells i =
        λ i l. (let differ : (0 == i) ≡ false = ground arith in rw differ refl) in
      let size : h.heap_size - 1 ≡ suc n = omega (arith, e) in
      let more : (suc n == 0) ≡ false = ground arith in
      rw (size, more)
        (sift_down-IsHeap (suc n) (suc n) 0 moved (omega arith) (omega arith) (record {
          others =
              λ i a b ne. rw (kept i a, kept (parent_of i) (ground arith)) (o i a (omega arith));
          below = λ i a b same q. absurd (omega arith);
        }))

  -- From a heap with at least one cell, `fb_heap_pop` returns a segment that no other one is less than, and leaves
  -- a heap; a sum over the cells decreases by the value of that segment.
  pub heap_pop_lem :
      (h : Heap) (n i : ℕ) (f : ℕ → ℕ)
      → h.heap_size ≡ suc n
      → IsHeap current (suc n) h.cells
      → i < suc n
      → (head_less current (h.cells i) (heap_pop current h).segment ≡ false)
        × IsHeap current n (heap_pop current h).remaining.cells
        × (total f n (heap_pop current h).remaining.cells + f (heap_pop current h).segment
            ≡ total f (suc n) h.cells)
  heap_pop_lem h n i f e o k = (
    unfold heap_pop in heap-least current i (suc n) i h.cells (omega arith) k o,
    heap_pop-IsHeap h n e o,
    heap_pop-total current f h n e,
  )

-- ===== src/Compositor/Heap/Kept.antt =====
-- The heap of src/laion/native/fixed_block_compositor.cpp keeps its segments: a sum over the cells changes by the
-- segment that is pushed or popped only.
use booleann.Base.{
  ℕ, zero, suc, ◌+◌, ◌-◌, ◌*◌, ◌/◌, ◌≤◌, ◌<◌, ◌≡◌, refl, ap, ◌∙◌, true, false, leb, ◌==◌, arith,
  Bool-cases, inl, inr,
}
use booleann.Base.Arrays.{update}
use booleann.Compositor.Heap.{
  Heap, head_less, swap, sift_up, heap_push, smallest_child, sift_down, heap_pop,
}

-- The sum of `f` over the first `n` cells.
unfoldable pub total : {A : Type 0} → (A → ℕ) → ℕ → (ℕ → A) → ℕ
total f zero cells = 0
total f (suc n) cells = total f n cells + f (cells n)

module _ {A : Type 0} (f : A → ℕ) where
  total-update_above :
      (n i : ℕ) (v : A) (cells : ℕ → A) → n ≤ i → total f n (update cells i v) ≡ total f n cells
  unfolding total
  total-update_above zero i v cells h = refl
  total-update_above (suc n) i v cells h =
      let differ : (i == n) ≡ false = ground arith in
      rw (differ, total-update_above n i v cells (omega arith)) refl

  pub total-update :
      (n i : ℕ) (v : A) (cells : ℕ → A)
      → i < n
      → total f n (update cells i v) + f (cells i) ≡ total f n cells + f v
  unfolding total
  total-update zero i v cells h = absurd (omega arith)
  total-update (suc n) i v cells h = elim (Bool-cases (i == n)) [
    | inl e ↦
        let same : i ≡ n = ground arith in
        rw (e, total-update_above n i v cells (omega arith), same) (omega arith)
    | inr e ↦ rw e (ground (arith, total-update n i v cells (ground arith)))
  ]

  pub total-swap :
      (n i j : ℕ) (cells : ℕ → A) → i < n → j < n → total f n (swap cells i j) ≡ total f n cells
  total-swap n i j cells h k =
      let first = update cells i (cells j) in
      let there : first j ≡ cells j = elim (Bool-cases (i == j)) [
        | inl e ↦ rw e refl
        | inr e ↦ rw e refl
      ] in
      let one = total-update n i (cells j) cells h in
      let two : total f n (swap cells i j) + f (first j) ≡ total f n first + f (cells i) =
        total-update n j (cells i) first k in
      let same = ap f there in omega arith

module _ (current : ℕ → ℕ) (f : ℕ → ℕ) where
  sift_up-total :
      (fuel n child : ℕ) (cells : ℕ → ℕ)
      → child < n
      → total f n (sift_up current fuel child cells) ≡ total f n cells
  unfolding sift_up
  sift_up-total zero n child cells h = refl
  sift_up-total (suc fuel) n child cells h =
      let parent = (child - 1) / 2 in
      let rest =
        sift_up-total fuel n parent (swap cells child parent) (omega arith)
        ∙ total-swap f n child parent cells h (omega arith) in
      elim (Bool-cases (child == 0)) [
        | inl e ↦ rw e refl
        | inr e ↦ elim (Bool-cases (head_less current (cells child) (cells parent))) [
          | inl g ↦ rw (e, g) rest
          | inr g ↦ rw (e, g) refl
        ]
      ]

  pub heap_push-total :
      (segment : ℕ) (h : Heap)
      → total f (h.heap_size + 1) (heap_push current segment h).cells
        ≡ total f h.heap_size h.cells + f segment
  unfolding heap_push total
  heap_push-total segment h =
      let n = h.heap_size in
      let there : update h.cells n segment n ≡ segment =
        (let e : (n == n) ≡ true = ground arith in rw e refl) in
      let last : total f (suc n) (update h.cells n segment) ≡ total f n h.cells + f segment =
        ap (◌+◌ (total f n (update h.cells n segment))) (ap f there)
        ∙ ap (λ t. t + f segment) (total-update_above f n n segment h.cells (omega arith)) in
      let size : n + 1 ≡ suc n = omega arith in
      rw size (sift_up-total n (suc n) n (update h.cells n segment) (omega arith) ∙ last)

  smallest_child-below :
      (size parent : ℕ) (cells : ℕ → ℕ)
      → leb size (parent * 2 + 1) ≡ false
      → smallest_child current size parent cells < size
  unfolding smallest_child
  smallest_child-below size parent cells h = ground arith

  sift_down-total :
      (fuel n parent : ℕ) (cells : ℕ → ℕ)
      → parent < n
      → total f n (sift_down current fuel n parent cells) ≡ total f n cells
  unfolding sift_down
  sift_down-total zero n parent cells h = refl
  sift_down-total (suc fuel) n parent cells h =
      let smallest = smallest_child current n parent cells in
      elim (Bool-cases (leb n (parent * 2 + 1))) [
        | inl e ↦ rw e refl
        | inr e ↦
            let below = smallest_child-below n parent cells e in
            let rest =
              sift_down-total fuel n smallest (swap cells smallest parent) below
              ∙ total-swap f n smallest parent cells below h in
            elim (Bool-cases (head_less current (cells smallest) (cells parent))) [
              | inl g ↦ rw (e, g) rest
              | inr g ↦ rw (e, g) refl
            ]
      ]

  pub heap_pop-total :
      (h : Heap) (n : ℕ)
      → h.heap_size ≡ suc n
      → total f n (heap_pop current h).remaining.cells + f (heap_pop current h).segment
        ≡ total f (suc n) h.cells
  unfolding heap_pop total
  heap_pop-total h zero e = refl
  heap_pop-total h (suc n) e =
      let moved = update h.cells 0 (h.cells (suc n)) in
      let kept = sift_down-total (suc n) (suc n) 0 moved (omega arith) in
      let changed = total-update f (suc n) 0 (h.cells (suc n)) h.cells (omega arith) in
      let size : h.heap_size - 1 ≡ suc n = omega (arith, e) in
      let more : (suc n == 0) ≡ false = ground arith in
      rw (size, more) (ap (λ t. t + f (h.cells 0)) kept ∙ changed)

-- ===== src/Compositor/Heap.antt =====
-- The heap of src/laion/native/fixed_block_compositor.cpp: segments in the order of the rows at their heads.
pub mod Kept
pub mod Order
pub mod Sinking
use booleann.Base.{
  ℕ, zero, suc, ◌+◌, ◌-◌, ◌*◌, ◌/◌, Bool, not, ◌&&◌, ◌||◌, ltb, leb, ◌==◌, if◌then◌else◌,
}
use booleann.Base.Arrays.{update}

-- `heap` and `heap_size`
pub record Heap : Type 0 where
  pub cells : ℕ → ℕ
  pub heap_size : ℕ

-- What `fb_heap_pop` returns, and the heap it leaves.
pub record Popped : Type 0 where
  pub segment : ℕ
  pub remaining : Heap

abbrev pub swap {ℓ} : {A : Type ℓ} → (ℕ → A) → ℕ → ℕ → ℕ → A
swap cells i j = update (update cells i (cells j)) j (cells i)

module _ (current : ℕ → ℕ) where
  -- `fb_head_less`
  abbrev pub head_less : ℕ → ℕ → Bool
  head_less left right =
      ltb (current left) (current right) || (current left == current right && ltb left right)

  -- The loop of `fb_heap_push`, on fuel.
  unfoldable pub sift_up : ℕ → ℕ → (ℕ → ℕ) → ℕ → ℕ
  sift_up zero child cells = cells
  sift_up (suc fuel) child cells =
      let parent = (child - 1) / 2 in
      let moved = sift_up fuel parent (swap cells child parent) in
      if child == 0
      then cells
      else if not (head_less (cells child) (cells parent))
      then cells
      else moved

  -- `fb_heap_push`
  unfoldable pub heap_push : ℕ → Heap → Heap
  unfolding sift_up
  heap_push segment h = record {
    cells = sift_up h.heap_size h.heap_size (update h.cells h.heap_size segment);
    heap_size = h.heap_size + 1;
  }

  -- The child that a cell is held against.
  unfoldable pub smallest_child : ℕ → ℕ → (ℕ → ℕ) → ℕ
  smallest_child size parent cells =
      let left = parent * 2 + 1 in
      let right = left + 1 in
      if ltb right size && head_less (cells right) (cells left) then right else left

  -- The loop of `fb_heap_pop`, on fuel.
  unfoldable pub sift_down : ℕ → ℕ → ℕ → (ℕ → ℕ) → ℕ → ℕ
  unfolding smallest_child
  sift_down zero size parent cells = cells
  sift_down (suc fuel) size parent cells =
      let smallest = smallest_child size parent cells in
      let moved = sift_down fuel size smallest (swap cells smallest parent) in
      if leb size (parent * 2 + 1)
      then cells
      else if not (head_less (cells smallest) (cells parent))
      then cells
      else moved

  -- `fb_heap_pop`
  unfoldable pub heap_pop : Heap → Popped
  unfolding sift_down
  heap_pop h =
      let size = h.heap_size - 1 in
      record {
        segment = h.cells 0;
        remaining = record {
          cells =
              if size == 0
              then h.cells
              else sift_down size size 0 (update h.cells 0 (h.cells size));
          heap_size = size;
        };
      }

-- ===== src/EliasFano/Overlap.antt =====
-- The overlap check of src/laion/native/elias_fano_topk.cpp.
use Prim.Native.Nat.{max}
use booleann.Base.{ℕ, ◌+◌, ◌≤◌, ◌<◌, ◌≡◌, ◌↔◌, true, arith}
use booleann.EliasFano.{max_u64}
use booleann.EliasFano.Encode.{ranges_overlap}

-- Two ranges that do not start at null and end inside the address space are found to overlap exactly if
-- some address lies in both.
pub ranges_overlap_iff :
    (left left_bytes right right_bytes : ℕ)
    → 0 < left
    → 0 < right
    → left + left_bytes ≤ max_u64
    → right + right_bytes ≤ max_u64
    → (ranges_overlap left left_bytes right right_bytes ≡ true) ↔ (
        (address : ℕ) × (left ≤ address)
        × (address < left + left_bytes)
        × (right ≤ address)
        × (address < right + right_bytes))
unfolding ranges_overlap
ranges_overlap_iff left left_bytes right right_bytes h k m n = (
  λ e. (max left right, omega arith, ground arith, omega arith, ground arith),
  λ (address, a, b, c, d). ground arith,
)

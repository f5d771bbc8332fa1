-- ===== src/Compositor/Step.antt =====
-- `advance` and the push behind it, in src/laion/native/fixed_block_compositor.cpp, on a segment that is not in the
-- heap: the streams stand for its remaining rows again.
use booleann.Base.{
  ℕ, ◌+◌, ◌<◌, ◌≡◌, ◌≢◌, refl, sym, Bool, true, false, Option, List, [], ◌∷◌, ◌==◌, if◌then◌else◌,
  arith, Bool-cases, inl, inr,
}
use booleann.Base.Arrays.{update}
use booleann.Base.Result.{ok, two_steps}
use booleann.Base.Ordered.{IsSupport}
use booleann.Compositor.Heap.{heap_push}
use booleann.Compositor.Heap.Kept.{total, heap_push-total}
use booleann.Compositor.Heap.Order.{IsHeap, parent_of, heap_push-IsHeap}
use booleann.Compositor.Stream.{Stream, Advanced, Streams, heads, advance, advance_segment}
use booleann.Compositor.Pending.{
  admitted, first_after, Represents, IsPending, advance_rows-Represents, is_segment, has_rows,
  total-least,
}

-- The streams stand for the pending rows but at one segment, which is not in the heap and has rows behind it
-- that ascend.
pub record IsReady (base_rows : ℕ) (filters : ℕ → Option (ℕ → Bool)) (st : Streams)
    (pending : ℕ → List ℕ) (g : ℕ) : Type 0 where
  pub ordered : IsHeap (heads st.stream_of) st.heap.heap_size st.heap.cells
  pub absent : total (is_segment g) st.heap.heap_size st.heap.cells ≡ 0
  pub members :
      (s : ℕ) → s ≢ g → total (is_segment s) st.heap.heap_size st.heap.cells ≡ has_rows (pending s)
  pub represented : (s : ℕ) → s ≢ g → Represents base_rows (filters s) (st.stream_of s) (pending s)
  pub supported : IsSupport (first_after (st.stream_of g).previous) base_rows (st.stream_of g).rest

-- A segment that is not counted stands in no cell.
absent-cell :
    (g n i : ℕ) (cells : ℕ → ℕ) → total (is_segment g) n cells ≡ 0 → i < n → (g == cells i) ≡ false
absent-cell g n i cells h l =
    let least = total-least (is_segment g) n i cells l in
    elim (Bool-cases (g == cells i)) [
      | inl e ↦ let one : is_segment g (cells i) ≡ 1 = rw e refl in absurd (omega arith)
      | inr e ↦ e
    ]

-- A heap without a segment stays one when that segment's head moves.
moved-IsHeap :
    (stream_of : ℕ → Stream) (g : ℕ) (a : Stream) (n : ℕ) (cells : ℕ → ℕ)
    → total (is_segment g) n cells ≡ 0
    → IsHeap (heads stream_of) n cells
    → IsHeap (heads (update stream_of g a)) n cells
moved-IsHeap stream_of g a n cells h o = λ i positive inside.
    let here = absent-cell g n i cells h inside in
    let there = absent-cell g n (parent_of i) cells h (omega arith) in
    let same : heads (update stream_of g a) (cells i) ≡ heads stream_of (cells i) =
      rw (heads, here) refl in
    let above : heads (update stream_of g a) (cells (parent_of i))
        ≡ heads stream_of (cells (parent_of i)) =
      rw (heads, there) refl in
    ground (arith, o i positive inside, same, above)

module _ (base_rows : ℕ) (filters : ℕ → Option (ℕ → Bool)) (st : Streams) (pending : ℕ → List ℕ)
    (g : ℕ) (r : IsReady base_rows filters st pending g) where
  abbrev advanced_to : Advanced → Streams
  advanced_to a =
      let moved = update st.stream_of g a.stream in
      record {
        heap = if a.stream.live then heap_push (heads moved) g st.heap else st.heap;
        stream_of = moved;
        boundary_checks = a.checks;
      }

  represented_after :
      (a : Advanced) (rows : List ℕ) (s : ℕ)
      → Represents base_rows (filters g) a.stream rows
      → Represents base_rows
          (filters s)
          (update st.stream_of g a.stream s)
          (update pending g rows s)
  represented_after a rows s h = elim (Bool-cases (g == s)) [
    | inl e ↦ let same : s ≡ g = ground arith in rw (e, same) h
    | inr e ↦ rw e (r.represented s (ground arith))
  ]

  advanced_to-IsPending :
      (a : Advanced) (rows : List ℕ)
      → Represents base_rows (filters g) a.stream rows
      → IsPending base_rows filters (advanced_to a) (update pending g rows)
  advanced_to-IsPending a [] h =
      let still : a.stream.live ≡ false = h in
      simp still (record {
        ordered =
            moved-IsHeap st.stream_of g a.stream st.heap.heap_size st.heap.cells r.absent r.ordered;
        members = λ s. elim (Bool-cases (g == s)) [
          | inl e ↦ let same : s ≡ g = ground arith in rw (e, same) r.absent
          | inr e ↦ rw e (r.members s (ground arith))
        ];
        represented = λ s. represented_after a [] s h;
      })
  advanced_to-IsPending a (x ∷ xs) h =
      let live : a.stream.live ≡ true = h.0 in
      let moved = update st.stream_of g a.stream in
      let size : (heap_push (heads moved) g st.heap).heap_size ≡ st.heap.heap_size + 1 =
        unfold heap_push in refl in
      simp live (record {
        ordered = rw size (
            heap_push-IsHeap (heads moved) g st.heap (
              moved-IsHeap st.stream_of g a.stream st.heap.heap_size st.heap.cells r.absent
                r.ordered));
        members = λ s.
            let pushed = heap_push-total (heads moved) (is_segment s) g st.heap in
            elim (Bool-cases (g == s)) [
              | inl e ↦
                  let same : s ≡ g = ground arith in
                  let mine : (g == g) ≡ true = ground arith in
                  rw (size, pushed, e, same, r.absent, mine) refl
              | inr e ↦
                  let other : (s == g) ≡ false = ground arith in
                  rw (size, pushed, e, other, r.members s (ground arith)) (omega arith)
            ];
        represented = λ s. represented_after a (x ∷ xs) s h;
      })

  pub advance_segment-IsPending :
      (after : Streams) × (advance_segment base_rows filters g st ≡ ok after)
      × IsPending base_rows filters after
          (update pending g (admitted (filters g) (st.stream_of g).rest))
  unfolding advance_segment advance
  advance_segment-IsPending =
      let s = st.stream_of g in
      let a =
        advance_rows-Represents base_rows (filters g) s.current s.previous st.boundary_checks s.rest
          r.supported in
      (advanced_to a.0, rw a.1 refl, advanced_to-IsPending a.0 (admitted (filters g) s.rest) a.2)

-- The other streams stay where they are.
pub advance_segment-others :
    (base_rows : ℕ) (filters : ℕ → Option (ℕ → Bool)) (g : ℕ) (st after : Streams)
    → advance_segment base_rows filters g st ≡ ok after
    → (s : ℕ) → s ≢ g
    → after.stream_of s ≡ st.stream_of s
unfolding advance_segment
advance_segment-others base_rows filters g st after e s ne =
    let steps =
      two_steps (advance base_rows (filters g) (st.stream_of g) st.boundary_checks)
        (λ a.
          let moved = update st.stream_of g a.stream in
          ok (record {
            heap = if a.stream.live then heap_push (heads moved) g st.heap else st.heap;
            stream_of = moved;
            boundary_checks = a.checks;
          }))
        after e in
    let moved = update st.stream_of g steps.0.stream in
    let ended : Streams = record {
      heap = if steps.0.stream.live then heap_push (heads moved) g st.heap else st.heap;
      stream_of = moved;
      boundary_checks = steps.0.checks;
    } in
    let same : ended ≡ after = cc (steps.2) in
    let differ : (g == s) ≡ false = ground arith in rw (sym same, differ) refl

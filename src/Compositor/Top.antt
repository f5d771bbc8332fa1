-- ===== src/Compositor/Top.antt =====
-- The segment at the top of the heap of src/laion/native/fixed_block_compositor.cpp has the least row that is pending.
use booleann.Base.{
  ℕ, suc, ◌+◌, ◌-◌, ◌≤◌, ◌<◌, ◌≡◌, refl, sym, ap, subst, ◌∙◌, Bool, true, false, Option, some, List,
  [], ◌∷◌, ◌==◌, arith,
}
use booleann.Base.Ordered.{IsSupport}
use booleann.Compositor.Heap.{heap_pop}
use booleann.Compositor.Heap.Kept.{total, heap_pop-total}
use booleann.Compositor.Heap.Order.{IsHeap, heap-least}
use booleann.Compositor.Heap.Sinking.{heap_pop-IsHeap}
use booleann.Compositor.Stream.{Stream, Streams, heads}
use booleann.Compositor.Pending.{
  admitted, Represents, IsPending, is_segment, has_rows, total-least, total-find,
}
use booleann.Compositor.Step.{IsReady}

-- The head that is pending at a segment with rows.
represented-head :
    (base_rows : ℕ) (filter : Option (ℕ → Bool)) (s : Stream) (rows : List ℕ)
    → Represents base_rows filter s rows
    → 0 < has_rows rows
    → rows ≡ s.current ∷ admitted filter s.rest
represented-head base_rows filter s [] h k = absurd (omega arith)
represented-head base_rows filter s (x ∷ xs) h k = rw (h.1, h.4) refl

represented-supported :
    (base_rows : ℕ) (filter : Option (ℕ → Bool)) (s : Stream) (rows : List ℕ)
    → Represents base_rows filter s rows
    → 0 < has_rows rows
    → (s.previous ≡ some s.current) × IsSupport (s.current + 1) base_rows s.rest
represented-supported base_rows filter s [] h k = absurd (omega arith)
represented-supported base_rows filter s (x ∷ xs) h k = rw h.1 (h.2, h.3)

module _ (base_rows : ℕ) (filters : ℕ → Option (ℕ → Bool)) where
  -- The segment at the top has the least row that is pending.
  pub top-least :
      (st : Streams) (pending : ℕ → List ℕ) (s x : ℕ) (xs : List ℕ)
      → IsPending base_rows filters st pending
      → pending s ≡ x ∷ xs
      → (0 < st.heap.heap_size) × (heads st.stream_of (st.heap.cells 0) ≤ x)
  top-least st pending s x xs h e =
      let counted : total (is_segment s) st.heap.heap_size st.heap.cells ≡ 1 =
        h.members s ∙ ap has_rows e in
      let found = total-find s st.heap.heap_size st.heap.cells (omega (arith, counted)) in
      let least =
        heap-least (heads st.stream_of) found.0 st.heap.heap_size found.0 st.heap.cells
          (omega arith) found.1 h.ordered in
      let represented =
        subst (Represents base_rows (filters s) (st.stream_of s)) e (h.represented s) in
      let here : heads st.stream_of (st.heap.cells found.0) ≡ x =
        ap (heads st.stream_of) found.2 ∙ represented.1 in
      (omega (arith, found.1), ground (arith, least, here))

  -- The popped segment had rows, and is ready to be advanced.
  pub popped-IsReady :
      (st : Streams) (pending : ℕ → List ℕ)
      → IsPending base_rows filters st pending
      → 0 < st.heap.heap_size
      → (pending (st.heap.cells 0)
          ≡ heads st.stream_of (st.heap.cells 0)
            ∷ admitted (filters (st.heap.cells 0)) (st.stream_of (st.heap.cells 0)).rest)
        × IsReady base_rows filters
            (record st { heap = (heap_pop (heads st.stream_of) st.heap).remaining })
            pending
            (st.heap.cells 0)
  popped-IsReady st pending h positive =
      let g = st.heap.cells 0 in
      let current = heads st.stream_of in
      let m = st.heap.heap_size - 1 in
      let size : st.heap.heap_size ≡ suc m = omega arith in
      let mine : is_segment g g ≡ 1 = (let e : (g == g) ≡ true = ground arith in rw e refl) in
      let least = total-least (is_segment g) st.heap.heap_size 0 st.heap.cells positive in
      let has : 0 < has_rows (pending g) = omega (arith, h.members g, mine, least) in
      let popped = heap_pop current st.heap in
      let top : popped.segment ≡ g = unfold heap_pop in refl in
      let smaller : popped.remaining.heap_size ≡ m = unfold heap_pop in refl in
      let counts : (s : ℕ)
          → total (is_segment s) m popped.remaining.cells + is_segment s g ≡ has_rows (pending s) =
        λ s.
          ap (λ v. total (is_segment s) m popped.remaining.cells + is_segment s v) (sym top)
          ∙ heap_pop-total current (is_segment s) st.heap m size
          ∙ ap (λ n. total (is_segment s) n st.heap.cells) (sym size)
          ∙ h.members s in
      let head =
        represented-head base_rows (filters g) (st.stream_of g) (pending g) (h.represented g) has in
      let one : has_rows (pending g) ≡ 1 = ap has_rows head in
      let supported =
        represented-supported base_rows (filters g) (st.stream_of g) (pending g) (h.represented g)
          has in
      let old : IsHeap current (suc m) st.heap.cells =
        subst (λ n. IsHeap current n st.heap.cells) size h.ordered in
      (
        head,
        record {
          ordered = rw smaller (heap_pop-IsHeap current st.heap m size old);
          absent = rw smaller (omega (arith, counts g, mine, one));
          members = λ s ne.
              let other : is_segment s g ≡ 0 =
                (let differ : (s == g) ≡ false = ground arith in rw differ refl) in
              rw smaller (omega (arith, counts s, other));
          represented = λ s ne. h.represented s;
          supported = rw supported.0 supported.1;
        },
      )

-- ===== src/Compositor/Drain.antt =====
-- The inner loop of the merge in src/laion/native/fixed_block_compositor.cpp: it takes the least row off all segments
-- that have it.
use booleann.Base.{
  ℕ, zero, suc, ◌+◌, ◌≤◌, ◌<◌, ◌≡◌, ◌≢◌, refl, sym, ap, subst, ◌∙◌, Bool, false, not, ◌&&◌, Option,
  List, [], ◌∷◌, ltb, ◌==◌, if◌then◌else◌, length, arith, Bool-cases, inl, inr,
}
use booleann.Base.Arrays.{update}
use booleann.Base.Result.{Result, ok, ◌>>=◌}
use booleann.Base.Ordered.{IsAscendingFrom, IsAscendingFrom-weaken, contains}
use booleann.Compositor.Heap.{heap_pop}
use booleann.Compositor.Heap.Kept.{total, total-update}
use booleann.Compositor.Stream.{Streams, heads, advance_segment}
use booleann.Compositor.Merge.{Drained, drain}
use booleann.Compositor.Pending.{admitted, IsPending}
use booleann.Compositor.Step.{advance_segment-IsPending}
use booleann.Compositor.Top.{top-least, popped-IsReady}

-- What the inner loop does to the pending rows.
pub record IsDrained (base_rows : ℕ) (filters : ℕ → Option (ℕ → Bool)) (n next : ℕ)
    (pending : ℕ → List ℕ) (st : Streams) (left : ℕ → List ℕ) : Type 0 where
  pub standing : IsPending base_rows filters st left
  pub above : (s : ℕ) → IsAscendingFrom (next + 1) (left s)
  pub others : (s x : ℕ) → x ≢ next → contains (left s) x ≡ contains (pending s) x
  pub fewer : total length n left < total length n pending
  pub outside : (s : ℕ) → n ≤ s → left s ≡ []

-- Rows behind the first are above it.
above-behind :
    (next : ℕ) (xs : List ℕ) → IsAscendingFrom next (next ∷ xs) → IsAscendingFrom (next + 1) xs
above-behind next xs h = h.1

module _ (base_rows : ℕ) (filters : ℕ → Option (ℕ → Bool)) (n : ℕ) where
  -- Taking the first row off one segment.
  module _ (next g : ℕ) (xs : List ℕ) (pending : ℕ → List ℕ) (e : pending g ≡ next ∷ xs)
      (a : (s : ℕ) → IsAscendingFrom next (pending s)) where
    left-above : (s : ℕ) → IsAscendingFrom next (update pending g xs s)
    left-above s = elim (Bool-cases (g == s)) [
      | inl f ↦ rw f (
          IsAscendingFrom-weaken (next + 1) next xs (omega arith)
            (above-behind next xs (subst (IsAscendingFrom next) e (a g))))
      | inr f ↦ rw f (a s)
    ]

    left-others : (s x : ℕ) → x ≢ next → contains (update pending g xs s) x ≡ contains (pending s) x
    left-others s x ne = elim (Bool-cases (g == s)) [
      | inl f ↦
          let same : s ≡ g = ground arith in
          let differ : (next == x) ≡ false = ground arith in rw (f, same, e, differ) refl
      | inr f ↦ rw f refl
    ]

    left-fewer : g < n → total length n (update pending g xs) + 1 ≡ total length n pending
    left-fewer h =
        let changed = total-update length n g xs pending h in
        let size : length (pending g) ≡ suc (length xs) = ap length e in omega arith

    left-outside :
        ((s : ℕ) → n ≤ s → pending s ≡ []) → g < n → (s : ℕ) → n ≤ s → update pending g xs s ≡ []
    left-outside o h s k = let differ : (g == s) ≡ false = ground arith in rw differ (o s k)

  -- When the top has another row, no segment has this one.
  no_more :
      (st : Streams) (pending : ℕ → List ℕ) (next : ℕ) (rows : List ℕ) (s : ℕ)
      → IsPending base_rows filters st pending
      → ((t : ℕ) → IsAscendingFrom next (pending t))
      → (not (st.heap.heap_size == 0) && heads st.stream_of (st.heap.cells 0) == next) ≡ false
      → pending s ≡ rows
      → IsAscendingFrom next rows
      → IsAscendingFrom (next + 1) rows
  no_more st pending next [] s h a t e b = tt
  no_more st pending next (y ∷ ys) s h a t e b =
      let top = top-least base_rows filters st pending s y ys h e in
      let head = (popped-IsReady base_rows filters st pending h top.0).0 in
      let bound = (subst (IsAscendingFrom next) head (a (st.heap.cells 0))).0 in
      (ground (arith, top.0, top.1, bound, t), b.1)

  -- All rows are at the top's or above.
  pub above_top :
      (st : Streams) (pending : ℕ → List ℕ) (lo s : ℕ) (rows : List ℕ)
      → IsPending base_rows filters st pending
      → pending s ≡ rows
      → IsAscendingFrom lo rows
      → IsAscendingFrom (heads st.stream_of (st.heap.cells 0)) rows
  above_top st pending lo s [] h e a = tt
  above_top st pending lo s (y ∷ ys) h e a =
      ((top-least base_rows filters st pending s y ys h e).1, a.1)

  -- A turn of the loop whose advance succeeds.
  drain_turn :
      (fuel equal next : ℕ) (st after : Streams)
      → advance_segment base_rows filters
          (st.heap.cells 0)
          (record st { heap = (heap_pop (heads st.stream_of) st.heap).remaining })
        ≡ ok after
      → drain base_rows filters (suc fuel) next equal st ≡ (
          if not (after.heap.heap_size == 0) && heads after.stream_of (after.heap.cells 0) == next
          then drain base_rows filters fuel next (equal + 1) after
          else ok (record { streams = after; equal_streams = equal + 1 }))
  unfolding drain
  drain_turn fuel equal next st after e =
      ap
        (λ (m : Result ℕ Streams). m >>= λ after.
          (if not (after.heap.heap_size == 0) && heads after.stream_of (after.heap.cells 0) == next
            then drain base_rows filters fuel next (equal + 1) after
            else ok (record { streams = after; equal_streams = equal + 1 })))
        e

  has_rows-inside :
      (pending : ℕ → List ℕ) (g x : ℕ) (xs : List ℕ)
      → ((s : ℕ) → n ≤ s → pending s ≡ [])
      → pending g ≡ x ∷ xs
      → g < n
  has_rows-inside pending g x xs o e = elim (Bool-cases (ltb g n)) [
    | inl f ↦ ground arith
    | inr f ↦
        let none_left = ap length (o g (ground arith)) in
        let some_left = ap length e in absurd (omega arith)
  ]

  pub drain-IsDrained :
      (fuel equal : ℕ) (st : Streams) (pending : ℕ → List ℕ) (next : ℕ)
      → IsPending base_rows filters st pending
      → 0 < st.heap.heap_size
      → heads st.stream_of (st.heap.cells 0) ≡ next
      → ((s : ℕ) → IsAscendingFrom next (pending s))
      → ((s : ℕ) → n ≤ s → pending s ≡ [])
      → total length n pending ≤ fuel
      → (d : Drained) × (drain base_rows filters fuel next equal st ≡ ok d)
        × (left : ℕ → List ℕ) × IsDrained base_rows filters n next pending d.streams left
  drain-IsDrained zero equal st pending next h k e a o f =
      let g = st.heap.cells 0 in
      let first = (popped-IsReady base_rows filters st pending h k).0 in
      let rows = admitted (filters g) (st.stream_of g).rest in
      let inside = has_rows-inside pending g (heads st.stream_of g) rows o first in
      let changed = total-update length n g rows pending inside in
      let size : length (pending g) ≡ suc (length rows) = ap length first in absurd (omega arith)
  drain-IsDrained (suc fuel) equal st pending next h k e a o f =
      let g = st.heap.cells 0 in
      let ready = popped-IsReady base_rows filters st pending h k in
      let xs = admitted (filters g) (st.stream_of g).rest in
      let first : pending g ≡ next ∷ xs = rw (sym e) ready.0 in
      let inside : g < n = has_rows-inside pending g next xs o first in
      let step =
        advance_segment-IsPending base_rows filters
          (record st { heap = (heap_pop (heads st.stream_of) st.heap).remaining }) pending g
          ready.1 in
      let after = step.0 in
      let turn = drain_turn fuel equal next st after step.1 in
      let left = update pending g xs in
      let above = left-above next g xs pending first a in
      let count = left-fewer next g xs pending first a inside in
      let outside = left-outside next g xs pending first a o inside in
      elim (Bool-cases
        (not (after.heap.heap_size == 0) && heads after.stream_of (after.heap.cells 0) == next)) [
          | inl t ↦
              let more =
                drain-IsDrained fuel (equal + 1) after left next step.2 (ground (arith, t))
                  (ground (arith, t)) above outside (omega arith) in
              (
                more.0,
                turn ∙ rw t more.1,
                more.2,
                record {
                  standing = more.3.standing;
                  above = more.3.above;
                  others =
                      λ s x ne. more.3.others s x ne ∙ left-others next g xs pending first a s x ne;
                  fewer = omega (arith, more.3.fewer);
                  outside = more.3.outside;
                },
              )
          | inr t ↦ (
            record { streams = after; equal_streams = equal + 1 },
            turn ∙ rw t refl,
            left,
            record {
              standing = step.2;
              above = λ s. no_more after left next (left s) s step.2 above t refl (above s);
              others = left-others next g xs pending first a;
              fewer = omega arith;
              outside = outside;
            },
          )
        ]

-- ===== src/Compositor/Started.antt =====
-- The first advance of each segment in src/laion/native/fixed_block_compositor.cpp, which brings the streams to their
-- first rows.
use booleann.Base.{
  ℕ, zero, suc, ◌≤◌, ◌<◌, ◌≡◌, refl, ap, subst, ◌∙◌, Bool, true, false, Option, List, [], ltb, ◌==◌,
  if◌then◌else◌, get_or, arith, Bool-cases, inl, inr,
}
use booleann.Base.Arrays.{update}
use booleann.Base.Double.{Double}
use booleann.Base.Result.{ok}
use booleann.Base.Ordered.{IsSupport}
use booleann.Compositor.{Scorer}
use booleann.Compositor.Heap.Kept.{total}
use booleann.Compositor.Stream.{Stream, Streams}
use booleann.Compositor.Prepare.{Objects}
use booleann.Compositor.Search.{Query, filter_of, first_streams, start_segments}
use booleann.Compositor.Pending.{admitted, Represents, IsPending, has_rows}
use booleann.Compositor.Step.{IsReady, advance_segment-IsPending, advance_segment-others}

IsPending-same :
    (base_rows : ℕ) (filters : ℕ → Option (ℕ → Bool)) (st : Streams) (pending others : ℕ → List ℕ)
    → ((s : ℕ) → pending s ≡ others s)
    → IsPending base_rows filters st pending
    → IsPending base_rows filters st others
IsPending-same base_rows filters st pending others e h = record {
  ordered = h.ordered;
  members = λ s. h.members s ∙ ap has_rows (e s);
  represented =
      λ s. subst (Represents base_rows (filters s) (st.stream_of s)) (e s) (h.represented s);
}

module _ (d : Double) (s : Scorer) (q : Query d) (o : Objects) (decoded : List (List ℕ)) where
  -- The rows of a segment before they are filtered.
  abbrev pub raw_rows : ℕ → List ℕ
  raw_rows t = get_or decoded (get_or o.local_objects t 0) []

  -- The rows that are pending once `k` segments are started.
  abbrev pub pending_at : ℕ → ℕ → List ℕ
  pending_at k t = if ltb t k then admitted (filter_of d s q t) (raw_rows t) else []

  pub start_segments-IsPending :
      (k n : ℕ)
      → k ≤ n
      → ((t : ℕ) → t < n → IsSupport 0 q.base_rows (raw_rows t))
      → (st : Streams) × (start_segments d s q k (first_streams d s q o decoded) ≡ ok st)
        × IsPending q.base_rows (filter_of d s q) st (pending_at k)
        × ((t : ℕ) → k ≤ t → st.stream_of t ≡ (first_streams d s q o decoded).stream_of t)
  unfolding start_segments
  start_segments-IsPending zero n h a = (
    first_streams d s q o decoded,
    refl,
    record {
      ordered = λ i positive inside. absurd (omega arith);
      members =
          λ t. let none_yet : ltb t 0 ≡ false = ground arith in rw none_yet (unfold total in refl);
      represented = λ t. let none_yet : ltb t 0 ≡ false = ground arith in rw none_yet refl;
    },
    λ t i. refl,
  )
  start_segments-IsPending (suc k) n h a =
      let before = start_segments-IsPending k n (omega arith) a in
      let st = before.0 in
      let at_start = before.3 k (omega arith) in
      let not_yet : ltb k k ≡ false = ground arith in
      let empty : pending_at k k ≡ [] = rw not_yet refl in
      let ready : IsReady q.base_rows (filter_of d s q) st (pending_at k) k = record {
        ordered = before.2.ordered;
        absent = before.2.members k ∙ ap has_rows empty;
        members = λ t ne. before.2.members t;
        represented = λ t ne. before.2.represented t;
        supported = rw at_start (a k (omega arith));
      } in
      let step =
        advance_segment-IsPending q.base_rows (filter_of d s q) st (pending_at k) k ready in
      let rest : (st.stream_of k).rest ≡ raw_rows k = ap (λ (x : Stream). x.rest) at_start in
      (
        step.0,
        rw before.1 step.1,
        IsPending-same q.base_rows (filter_of d s q) step.0
            (update (pending_at k) k (admitted (filter_of d s q k) (st.stream_of k).rest))
            (pending_at (suc k))
            (λ t. elim (Bool-cases (k == t)) [
              | inl e ↦
                  let same : t ≡ k = ground arith in
                  let now : ltb k (suc k) ≡ true = ground arith in
                  rw (e, same, now) (ap (admitted (filter_of d s q k)) rest)
              | inr e ↦ elim (Bool-cases (ltb t k)) [
                | inl f ↦ let still : ltb t (suc k) ≡ true = ground arith in rw (e, f, still) refl
                | inr f ↦ let still : ltb t (suc k) ≡ false = ground arith in rw (e, f, still) refl
              ]
            ])
            step.2,
        λ t i.
            advance_segment-others q.base_rows (filter_of d s q) k st step.0 step.1 t (ground arith)
            ∙ before.3 t (omega arith),
      )

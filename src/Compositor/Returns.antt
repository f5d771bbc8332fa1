-- ===== src/Compositor/Returns.antt =====
-- The merge of src/laion/native/fixed_block_compositor.cpp comes to its end.
use booleann.Base.{
  ℕ, zero, suc, ◌+◌, ◌≤◌, ◌<◌, ◌≡◌, refl, sym, ap, subst, ◌∙◌, Bool, true, Option, List, [], ◌∷◌,
  ◌++◌, ◌==◌, length, arith, Bool-cases, inl, inr,
}
use booleann.Base.Result.{ok}
use booleann.Base.Ordered.{IsAscendingFrom, IsBelow, IsSupport, contains}
use booleann.Compositor.{Scorer, batch_ids}
use booleann.Compositor.Heap.Kept.{total}
use booleann.Compositor.Stream.{Streams, heads}
use booleann.Compositor.Merge.{Gathered, Merged, gather, merge}
use booleann.Compositor.Pending.{IsPending}
use booleann.Compositor.Score.{Scoring, scorer}
use booleann.Compositor.Scored.{IsFinite, score_rows_iff}
use booleann.Compositor.Top.{popped-IsReady}
use booleann.Compositor.Union.{IsMerged, merge-IsMerged}
use booleann.Compositor.Drain.{above_top, drain-IsDrained}

-- A batch of rows that increase strictly and lie below `lo` and below the number of base rows.
abbrev pub IsBatch : ℕ → ℕ → List ℕ → Type 0
IsBatch base_rows lo ids = IsSupport 0 base_rows ids × IsBelow lo ids

IsBelow-weaken : (lo hi : ℕ) (ids : List ℕ) → lo ≤ hi → IsBelow lo ids → IsBelow hi ids
IsBelow-weaken lo hi [] h b = tt
IsBelow-weaken lo hi (id ∷ ids) h b = (omega (arith, b.0), IsBelow-weaken lo hi ids h b.1)

IsBelow-append :
    (hi next : ℕ) (ids : List ℕ) → next < hi → IsBelow hi ids → IsBelow hi (ids ++ next ∷ [])
IsBelow-append hi next [] h b = (h, tt)
IsBelow-append hi next (id ∷ ids) h b = (b.0, IsBelow-append hi next ids h b.1)

IsAscendingFrom-append :
    (lo next : ℕ) (ids : List ℕ)
    → lo ≤ next
    → IsBelow next ids
    → IsAscendingFrom lo ids
    → IsAscendingFrom lo (ids ++ next ∷ [])
IsAscendingFrom-append lo next [] h b a = (h, tt)
IsAscendingFrom-append lo next (id ∷ ids) h b a =
    (a.0, IsAscendingFrom-append (id + 1) next ids (omega (arith, b.0)) b.1 a.1)

IsBatch-append :
    (base_rows lo next : ℕ) (ids : List ℕ)
    → lo ≤ next
    → next < base_rows
    → IsBatch base_rows lo ids
    → IsBatch base_rows (next + 1) (ids ++ next ∷ [])
IsBatch-append base_rows lo next ids h k b = (
  (
    IsAscendingFrom-append 0 next ids (omega arith) (IsBelow-weaken lo next ids h b.1) b.0.0,
    IsBelow-append base_rows next ids k b.0.1,
  ),
  IsBelow-append (next + 1) next ids (omega arith)
      (IsBelow-weaken lo (next + 1) ids (omega (arith, h)) b.1),
)

-- A scorer that takes every support.
abbrev IsScorer : Scorer → ℕ → Type 0
IsScorer s base_rows =
    (ids : List ℕ) (scores : s.Scores)
    → IsSupport 0 base_rows ids
    → (after : s.Scores) × (s.score_batch ids scores ≡ ok after)

module _ (s : Scorer) (self base_rows : ℕ) (scored : IsScorer s base_rows) where
  gather-returns :
      (lo next equal : ℕ) (g : Gathered s)
      → lo ≤ next
      → next < base_rows
      → IsBatch base_rows lo g.batch
      → (after : Gathered s) × (gather s self next equal g ≡ ok after)
        × IsBatch base_rows (next + 1) after.batch
  unfolding gather
  gather-returns lo next equal g h k b =
      let batch = g.batch ++ next ∷ [] in
      let longer = IsBatch-append base_rows lo next g.batch h k b in
      let kept : Gathered s = record {
        batch = batch;
        scores = g.scores;
        unique_before = g.unique_before + 1;
        unique_after = g.unique_after + 1;
        self_occurrences = g.self_occurrences;
        support = g.support ++ next ∷ [];
      } in
      elim (Bool-cases (next == self)) [
        | inl e ↦ (
          record g {
            unique_before = g.unique_before + 1;
            self_occurrences = g.self_occurrences + equal;
          },
          rw e refl,
          (b.0, IsBelow-weaken lo (next + 1) g.batch (omega (arith, h)) b.1),
        )
        | inr e ↦ elim (Bool-cases (length batch == batch_ids)) [
          | inl f ↦
              let after = scored batch g.scores longer.0 in
              (
                record kept { batch = []; scores = after.0 },
                rw (e, f, after.1) refl,
                ((tt, tt), tt),
              )
          | inr f ↦ (kept, rw (e, f) refl, longer)
        ]
      ]

  module _ (filters : ℕ → Option (ℕ → Bool)) (n : ℕ) where
    -- The merge has returned, and the batch that is left can be scored as well.
    abbrev HasReturned : ℕ → Streams → Gathered s → Type 0
    HasReturned fuel st g =
        (m : Merged s) × (merge s self base_rows filters fuel st g ≡ ok m)
        × IsSupport 0 base_rows m.gathered.batch

    merge-returns :
        (fuel lo : ℕ) (st : Streams) (pending : ℕ → List ℕ) (g : Gathered s)
        → IsPending base_rows filters st pending
        → ((t : ℕ) → IsAscendingFrom lo (pending t))
        → ((t x : ℕ) → contains (pending t) x ≡ true → x < base_rows)
        → ((t : ℕ) → n ≤ t → pending t ≡ [])
        → total length n pending ≤ fuel
        → IsBatch base_rows lo g.batch
        → HasReturned fuel st g
    unfolding merge
    merge-returns zero lo st pending g h a b o f i =
        (record { gathered = g; final = st }, refl, i.0)
    merge-returns (suc fuel) lo st pending g h a b o f i =
        let top = st.heap.cells 0 in
        let next = heads st.stream_of top in
        elim (Bool-cases (st.heap.heap_size == 0)) [
          | inl e ↦ (record { gathered = g; final = st }, rw e refl, i.0)
          | inr e ↦
              let positive : 0 < st.heap.heap_size = ground arith in
              let first = (popped-IsReady base_rows filters st pending h positive).0 in
              let from_lo = subst (IsAscendingFrom lo) first (a top) in
              let itself : (next == next) ≡ true = ground arith in
              let here : contains (pending top) next ≡ true =
                ap (λ rows. contains rows next) first ∙ (rw itself refl) in
              let inside : next < base_rows = b top next here in
              let above : (u : ℕ) → IsAscendingFrom next (pending u) =
                λ u. above_top base_rows filters n st pending lo u (pending u) h refl (a u) in
              let d =
                drain-IsDrained base_rows filters n (suc fuel) 0 st pending next h positive refl
                  above o f in
              let gathered = gather-returns lo next d.0.equal_streams g from_lo.0 inside i in
              let below : (t x : ℕ) → contains (d.2 t) x ≡ true → x < base_rows = λ t x c.
                elim (Bool-cases (x == next)) [
                  | inl q ↦ ground (arith, inside)
                  | inr q ↦ b t x (sym (d.3.others t x (ground arith)) ∙ c)
                ] in
              let rest =
                merge-returns fuel (next + 1) d.0.streams d.2 gathered.0 d.3.standing d.3.above
                  below d.3.outside (omega (arith, d.3.fewer)) gathered.2 in
              (rest.0, rw (e, d.1, gathered.1) rest.1, rest.2)
        ]

module _ {Float : Type 0} (f : Scoring Float) (self base_rows : ℕ) where
  -- Under the scorer of the program and finite distances, from streams that stand for pending rows below the number
  -- of base rows that ascend from `lo`, with fuel for all of them and a batch of rows below `lo`, the merge
  -- returns, and has gathered the rows that are pending at some segment, in order and once each, but for the
  -- query's own; the scorer takes the batch that is left as well.
  pub merge_lem :
      (filters : ℕ → Option (ℕ → Bool)) (n fuel lo : ℕ) (st : Streams) (pending : ℕ → List ℕ)
      (g : Gathered (scorer f base_rows))
      → IsFinite f base_rows
      → IsPending base_rows filters st pending
      → ((t : ℕ) → IsAscendingFrom lo (pending t))
      → ((t x : ℕ) → contains (pending t) x ≡ true → x < base_rows)
      → ((t : ℕ) → n ≤ t → pending t ≡ [])
      → total length n pending ≤ fuel
      → IsBatch base_rows lo g.batch
      → (m : Merged (scorer f base_rows)) × (merge
            (scorer f base_rows)
            self
            base_rows
            filters
            fuel
            st
            g
          ≡ ok m)
        × IsMerged (scorer f base_rows) self lo pending g m.gathered
        × ((scores : (scorer f base_rows).Scores) × ((scorer f base_rows).score_batch
                m.gathered.batch m.gathered.scores
              ≡ ok scores))
  merge_lem filters n fuel lo st pending g finite h a b o e i =
      let s = scorer f base_rows in
      let takes : IsScorer s base_rows =
        λ ids scores k. (score_rows_iff f base_rows ids scores finite).1 k in
      let m = merge-returns s self base_rows takes filters n fuel lo st pending g h a b o e i in
      (
        m.0,
        m.1,
        merge-IsMerged s self base_rows filters n fuel lo st pending g m.0 h a o e m.1,
        takes m.0.gathered.batch m.0.gathered.scores m.2,
      )

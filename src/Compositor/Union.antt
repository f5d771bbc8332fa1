-- ===== src/Compositor/Union.antt =====
-- The merge of src/laion/native/fixed_block_compositor.cpp gathers the rows that are pending at any segment, in order
-- and once each, but for the query's own.
use mathlib.Core.List.{append_assoc, append-nil}
use booleann.Base.{
  ℕ, zero, suc, ◌+◌, ◌≤◌, ◌<◌, ◌≡◌, ◌≢◌, refl, sym, ap, subst, ◌∙◌, Bool, true, false, Option, List,
  [], ◌∷◌, ◌++◌, ltb, ◌==◌, length, arith, Bool-cases, inl, inr,
}
use booleann.Base.Result.{ok, two_steps}
use booleann.Base.Ordered.{IsAscendingFrom, contains, remove}
use booleann.Compositor.{Scorer, batch_ids}
use booleann.Compositor.Heap.Kept.{total}
use booleann.Compositor.Stream.{Streams, heads}
use booleann.Compositor.Merge.{Gathered, Merged, gather, merge}
use booleann.Compositor.Pending.{IsPending, has_rows, is_segment, total-least}
use booleann.Compositor.Top.{popped-IsReady}
use booleann.Compositor.Drain.{above_top, drain-IsDrained}

-- A row is in the list exactly if it is pending somewhere.
pub record IsUnion (pending : ℕ → List ℕ) (rows : List ℕ) : Type 0 where
  pub sound : (x : ℕ) → contains rows x ≡ true → (s : ℕ) × (contains (pending s) x ≡ true)
  pub complete : (x s : ℕ) → contains (pending s) x ≡ true → contains rows x ≡ true

module _ (s : Scorer) (self : ℕ) where
  -- What `gather` adds for a row.
  abbrev own : ℕ → List ℕ
  own next = remove self (next ∷ [])

  record IsGathered (next : ℕ) (g after : Gathered s) : Type 0 where
    support_grows : after.support ≡ g.support ++ own next
    before_grows : after.unique_before ≡ g.unique_before + 1
    after_grows : after.unique_after ≡ g.unique_after + length (own next)

  gather-IsGathered :
      (next equal : ℕ) (g after : Gathered s)
      → gather s self next equal g ≡ ok after
      → IsGathered next g after
  unfolding gather remove
  gather-IsGathered next equal g after e = elim (Bool-cases (next == self)) [
    | inl f ↦
        let kept : Gathered s = record g {
          unique_before = g.unique_before + 1;
          self_occurrences = g.self_occurrences + equal;
        } in
        let same : kept ≡ after = cc ((rw f at e)) in
        rw (sym same) (record {
          support_grows = rw f (sym (append-nil g.support));
          before_grows = refl;
          after_grows = rw f (omega arith);
        })
    | inr f ↦
        let batch = g.batch ++ next ∷ [] in
        let kept : Gathered s = record {
          batch = batch;
          scores = g.scores;
          unique_before = g.unique_before + 1;
          unique_after = g.unique_after + 1;
          self_occurrences = g.self_occurrences;
          support = g.support ++ next ∷ [];
        } in
        elim (Bool-cases (length batch == batch_ids)) [
          | inl h ↦
              let scored =
                two_steps (s.score_batch batch g.scores)
                  (λ scores. ok (record kept { batch = []; scores = scores })) after
                  (rw (f, h) at e) in
              let same : record kept { batch = []; scores = scored.0 } ≡ after = cc (scored.2) in
              rw (sym same)
                (record { support_grows = rw f refl; before_grows = refl; after_grows = rw f refl })
          | inr h ↦
              let same : kept ≡ after = cc ((rw (f, h) at e)) in
              rw (sym same)
                (record { support_grows = rw f refl; before_grows = refl; after_grows = rw f refl })
        ]
  ]

-- Without pending rows the union is empty.
IsUnion-empty : (pending : ℕ → List ℕ) → ((s : ℕ) → pending s ≡ []) → IsUnion pending []
IsUnion-empty pending h = record {
  sound = λ x e. absurd (cc e);
  complete = λ x s e.
      let gone : contains (pending s) x ≡ false = ap (λ rows. contains rows x) (h s) in
      absurd (cc (e, gone));
}

no_rows : (rows : List ℕ) → has_rows rows ≡ 0 → rows ≡ []
no_rows [] h = refl
no_rows (x ∷ xs) h = absurd (omega arith)

no_length : (rows : List ℕ) → length rows ≡ 0 → rows ≡ []
no_length [] h = refl
no_length (x ∷ xs) h = absurd (omega arith)

-- The least row in front of the union of what is left behind it.
IsUnion-least :
    (next : ℕ) (pending left : ℕ → List ℕ) (rows : List ℕ) (g : ℕ)
    → contains (pending g) next ≡ true
    → ((s x : ℕ) → x ≢ next → contains (left s) x ≡ contains (pending s) x)
    → IsUnion left rows
    → IsUnion pending (next ∷ rows)
IsUnion-least next pending left rows g here others u = record {
  sound = λ x e. elim (Bool-cases (next == x)) [
    | inl f ↦ let same : x ≡ next = ground arith in (g, rw same here)
    | inr f ↦
        let found = u.sound x (rw f at e) in
        (found.0, sym (others found.0 x (ground arith)) ∙ found.1)
  ];
  complete = λ x s e. elim (Bool-cases (next == x)) [
    | inl f ↦ rw f refl
    | inr f ↦ rw f (u.complete x s (others s x (ground arith) ∙ e))
  ];
}

-- What the merge returns: the rows that were pending, in order, and what it counts of them.
pub record IsMerged (s : Scorer) (self lo : ℕ) (pending : ℕ → List ℕ) (g after : Gathered s)
    : Type 0 where
  pub rows : List ℕ
  pub ascending : IsAscendingFrom lo rows
  pub union : IsUnion pending rows
  pub support_is : after.support ≡ g.support ++ remove self rows
  pub before_is : after.unique_before ≡ g.unique_before + length rows
  pub after_is : after.unique_after ≡ g.unique_after + length (remove self rows)

module _ (s : Scorer) (self base_rows : ℕ) (filters : ℕ → Option (ℕ → Bool)) (n : ℕ) where
  nothing-IsMerged :
      (lo : ℕ) (pending : ℕ → List ℕ) (g : Gathered s)
      → ((t : ℕ) → pending t ≡ [])
      → IsMerged s self lo pending g g
  unfolding remove
  nothing-IsMerged lo pending g h = record {
    rows = [];
    ascending = tt;
    union = IsUnion-empty pending h;
    support_is = sym (append-nil g.support);
    before_is = omega arith;
    after_is = omega arith;
  }

  least-IsMerged :
      (lo next : ℕ) (pending left : ℕ → List ℕ) (g between after : Gathered s) (t : ℕ)
      → lo ≤ next
      → contains (pending t) next ≡ true
      → ((u x : ℕ) → x ≢ next → contains (left u) x ≡ contains (pending u) x)
      → IsGathered s self next g between
      → IsMerged s self (next + 1) left between after
      → IsMerged s self lo pending g after
  unfolding remove
  least-IsMerged lo next pending left g between after t h here others one rest =
      let joined : own s self next ++ remove self rest.rows ≡ remove self (next ∷ rest.rows) =
        elim (Bool-cases (next == self)) [ inl e ↦ rw e refl | inr e ↦ rw e refl ] in
      let sizes : length (own s self next) + length (remove self rest.rows)
          ≡ length (remove self (next ∷ rest.rows)) =
        elim (Bool-cases (next == self)) [
          | inl e ↦ rw e (omega arith)
          | inr e ↦ rw e (omega arith)
        ] in
      record {
        rows = next ∷ rest.rows;
        ascending = (h, rest.ascending);
        union = IsUnion-least next pending left rest.rows t here others rest.union;
        support_is =
            rest.support_is
            ∙ ap (λ l. l ++ remove self rest.rows) one.support_grows
            ∙ append_assoc g.support (own s self next) (remove self rest.rows)
            ∙ ap (◌++◌ g.support) joined;
        before_is = omega (arith, rest.before_is, one.before_grows);
        after_is = omega (arith, rest.after_is, one.after_grows, sizes);
      }

  -- With enough fuel the merge gathers the union of the pending rows, unless a batch cannot be scored.
  pub merge-IsMerged :
      (fuel lo : ℕ) (st : Streams) (pending : ℕ → List ℕ) (g : Gathered s) (m : Merged s)
      → IsPending base_rows filters st pending
      → ((t : ℕ) → IsAscendingFrom lo (pending t))
      → ((t : ℕ) → n ≤ t → pending t ≡ [])
      → total length n pending ≤ fuel
      → merge s self base_rows filters fuel st g ≡ ok m
      → IsMerged s self lo pending g m.gathered
  unfolding merge
  merge-IsMerged zero lo st pending g m h a o f e =
      let same : g ≡ m.gathered = cc e in
      rw (sym same) (
        nothing-IsMerged lo pending g (λ t. elim (Bool-cases (ltb t n)) [
          | inl i ↦
              let least = total-least length n t pending (ground arith) in
              no_length (pending t) (omega arith)
          | inr i ↦ o t (ground arith)
        ]))
  merge-IsMerged (suc fuel) lo st pending g m h a o f e =
      let next = heads st.stream_of (st.heap.cells 0) in
      elim (Bool-cases (st.heap.heap_size == 0)) [
        | inl i ↦
            let same : g ≡ m.gathered = cc ((rw i at e)) in
            let size : st.heap.heap_size ≡ 0 = ground arith in
            rw (sym same) (
              nothing-IsMerged lo pending g (λ t. no_rows (pending t) (
                sym (h.members t)
                ∙ ap (λ k. total (is_segment t) k st.heap.cells) size
                ∙ unfold total in refl)))
        | inr i ↦
            let positive : 0 < st.heap.heap_size = ground arith in
            let first = (popped-IsReady base_rows filters st pending h positive).0 in
            let t = st.heap.cells 0 in
            let from_lo = subst (IsAscendingFrom lo) first (a t) in
            let here : contains (pending t) next ≡ true =
              ap (λ rows. contains rows next) first
              ∙ (let itself : (next == next) ≡ true = ground arith in rw itself refl) in
            let above : (u : ℕ) → IsAscendingFrom next (pending u) =
              λ u. above_top base_rows filters n st pending lo u (pending u) h refl (a u) in
            let d =
              drain-IsDrained base_rows filters n (suc fuel) 0 st pending next h positive refl above
                o f in
            let run = rw (i, d.1) at e in
            let gathered =
              two_steps (gather s self next d.0.equal_streams g)
                (λ after. merge s self base_rows filters fuel d.0.streams after) m run in
            least-IsMerged lo next pending d.2 g gathered.0 m.gathered t from_lo.0 here d.3.others
              (gather-IsGathered s self next d.0.equal_streams g gathered.0 gathered.1)
              (merge-IsMerged fuel (next + 1) d.0.streams d.2 gathered.0 m d.3.standing d.3.above
                d.3.outside (omega (arith, d.3.fewer)) gathered.2)
      ]

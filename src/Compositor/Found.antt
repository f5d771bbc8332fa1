-- ===== src/Compositor/Found.antt =====
-- What a call of `laion1m_lowmem_fixedblock_exact_top10_v1` of src/laion/native/fixed_block_compositor.cpp that succeeds
-- has found.
use booleann.Base.{
  ℕ, zero, suc, ◌+◌, ◌*◌, ◌≤◌, ◌<◌, ◌≡◌, ◌≢◌, refl, sym, ap, subst, ◌∙◌, Bool, true, false, not,
  ◌||◌, Option, List, [], ◌∷◌, ltb, ◌==◌, if◌then◌else◌, length, get_or, pos_part, arith,
  Bool-cases, inl, inr,
}
use booleann.Base.Double.{Double}
use booleann.Base.Result.{Result, ok, ◌>>=◌, two_steps}
use booleann.Base.Ordered.{
  IsAscendingFrom, IsSupport, contains, contains-remove, remove, remove-IsAscendingFrom,
}
use booleann.Codec.{u24_rows}
use booleann.Compositor.{Object, Scorer, top_k}
use booleann.Compositor.Heap.Kept.{total}
use booleann.Compositor.Stream.{Streams, admits}
use booleann.Compositor.Merge.{Gathered, Merged, merge}
use booleann.Compositor.Prepare.{Objects, no_object, first_bytes}
use booleann.Compositor.Search.{
  Query, Output, refuse_if, queried, no_segment, filter_of, first_streams, start_segments, sum_rows,
  rows_of_object, nothing_gathered, finish,
}
use booleann.Compositor.Pending.{IsPending, admitted, admitted-IsAscendingFrom}
use booleann.Compositor.Union.{IsMerged, merge-IsMerged}
use booleann.Compositor.Located.{rows_of}
use booleann.Compositor.Started.{raw_rows, pending_at, start_segments-IsPending}

pub refuse-inv :
    {A : Type 0} (c : Bool) (status : ℕ) (m : Result ℕ A) (a : A)
    → refuse_if c status m ≡ ok a
    → (c ≡ false) × (m ≡ ok a)
refuse-inv true status m a e = absurd (cc e)
refuse-inv false status m a e = (refl, e)

length-admitted :
    (filter : Option (ℕ → Bool)) (rows : List ℕ) → length (admitted filter rows) ≤ length rows
unfolding admitted
length-admitted filter [] = omega arith
length-admitted filter (id ∷ rows) =
    let rest = length-admitted filter rows in
    elim (Bool-cases (admits filter id)) [ inl e ↦ rw e (omega arith) | inr e ↦ rw e (omega arith) ]

length-u24_rows : (n : ℕ) (bytes : ℕ → ℕ) → length (u24_rows (first_bytes (n * 3) bytes)) ≡ n
unfolding u24_rows
length-u24_rows zero bytes = refl
length-u24_rows (suc n) bytes =
    let three : suc n * 3 ≡ suc (suc (suc (n * 3))) = omega arith in
    rw three (ap suc (length-u24_rows n (λ i. bytes (suc (suc (suc i))))))

pub length-rows_of : (o : Object) → length (rows_of o) ≡ o.object_rows
unfolding rows_of
length-rows_of o = length-u24_rows o.object_rows o.payload

-- A sum over the cells, from the first one.
total-front :
    {A : Type 0} (f : A → ℕ) (n : ℕ) (cells : ℕ → A)
    → total f (suc n) cells ≡ f (cells 0) + total f n (λ i. cells (suc i))
unfolding total
total-front f zero cells = omega arith
total-front f (suc n) cells = omega (arith, total-front f n cells)

total-bound :
    (pending : ℕ → List ℕ) (f : ℕ → ℕ) (places : List ℕ)
    → ((t : ℕ) → t < length places → length (pending t) ≤ f (get_or places t 0))
    → total length (length places) pending ≤ sum_rows f places
total-bound pending f [] h = unfold total in omega arith
total-bound pending f (x ∷ xs) h = omega (
  arith,
  total-front length (length xs) pending,
  h 0 (omega arith),
  total-bound (λ t. pending (suc t)) f xs (λ t i. h (suc t) (omega arith)),
)

length-remove_absent :
    (a : ℕ) (xs : List ℕ) → contains xs a ≡ false → length (remove a xs) ≡ length xs
unfolding remove
length-remove_absent a [] h = refl
length-remove_absent a (x ∷ xs) h =
    let differ : (x == a) ≡ false = ground arith in
    let rest : contains xs a ≡ false = ground arith in
    rw differ (ap suc (length-remove_absent a xs rest))

module _ (d : Double) (s : Scorer) (q : Query d) where
  -- The rows of a segment of the query that its filter lets through.
  abbrev pub segment_rows : ℕ → List ℕ
  segment_rows t =
      admitted (filter_of d s q t)
        (rows_of (get_or q.objects (get_or (queried d s q) t (no_segment d s q)).object no_object))

  -- The diagnostic buffer has the rows of the segments in order, once each, but for the query's own.
  pub record IsFound (out : Output s) : Type 0 where
    pub ascending : IsAscendingFrom 0 out.diagnostic
    pub sound :
        (x : ℕ)
        → contains out.diagnostic x ≡ true
        → (t : ℕ) × (t < q.segment_count) × (contains (segment_rows t) x ≡ true)
    pub complete :
        (x t : ℕ)
        → t < q.segment_count
        → x ≢ pos_part q.self_id
        → contains (segment_rows t) x ≡ true
        → contains out.diagnostic x ≡ true
    pub self_in :
        (t : ℕ) × (t < q.segment_count) × (contains (segment_rows t) (pos_part q.self_id) ≡ true)
    pub without_self : contains out.diagnostic (pos_part q.self_id) ≡ false
    pub counted_after : out.support_after ≡ length out.diagnostic
    pub counted_before : out.support_before ≡ length out.diagnostic + 1

  -- What the last steps make of the gathered rows.
  pub finish-outputs :
      (decoded input checks : ℕ) (g : Gathered s) (out : Output s)
      → q.has_diagnostic ≡ true
      → finish d s q decoded input checks g ≡ ok out
      → (out.diagnostic ≡ g.support)
        × (out.support_after ≡ g.unique_after)
        × (out.support_before ≡ g.unique_before)
        × (g.unique_before ≡ g.unique_after + 1)
  unfolding finish
  finish-outputs decoded input checks g out h e =
      let written : s.Scores → Output s = λ scores. record {
        top = s.sorted_hits scores;
        decoded_input_rows = decoded;
        segment_input_rows = input;
        boundary_predicate_checks = checks;
        support_before = g.unique_before;
        support_after = g.unique_after;
        self_fragment_occurrences = g.self_occurrences;
        diagnostic = if q.has_diagnostic then g.support else [];
      } in
      let last : s.Scores → Result ℕ (Output s) = λ scores.
        refuse_if (ltb g.unique_after top_k || not (s.best_size scores == top_k)) 3
          (ok (written scores)) in
      let scored : Result ℕ s.Scores =
        if length g.batch == 0 then ok g.scores else s.score_batch g.batch g.scores in
      let counted =
        refuse-inv (g.self_occurrences == 0 || not (g.unique_before == g.unique_after + 1)) 10
          (scored >>= last) out e in
      let steps = two_steps scored last out counted.1 in
      let ended =
        refuse-inv (ltb g.unique_after top_k || not (s.best_size steps.0 == top_k)) 3
          (ok (written steps.0)) out steps.2 in
      let same : written steps.0 ≡ out = cc (ended.1) in
      rw (sym same, h) (refl, refl, refl, ground (arith, counted.0))

  -- What the merge gathers, as it is written out.
  pub IsFound-from :
      (out : Output s) (pending : ℕ → List ℕ) (g : Gathered s)
      → IsMerged s (pos_part q.self_id) 0 pending (nothing_gathered d s q) g
      → out.diagnostic ≡ g.support
      → out.support_after ≡ g.unique_after
      → out.support_before ≡ g.unique_before
      → g.unique_before ≡ g.unique_after + 1
      → ((t : ℕ) → t < q.segment_count → pending t ≡ segment_rows t)
      → ((t x : ℕ) → contains (pending t) x ≡ true → t < q.segment_count)
      → IsFound out
  IsFound-from out pending g m written after before one here inside =
      let self = pos_part q.self_id in
      let shown : out.diagnostic ≡ remove self m.rows = written ∙ m.support_is in
      record {
        ascending = rw shown (remove-IsAscendingFrom self 0 m.rows m.ascending);
        sound = λ x h.
            let kept : contains (remove self m.rows) x ≡ true = rw shown at h in
            let found = m.union.sound x (ground (arith, contains-remove self x m.rows, kept)) in
            let within = inside found.0 x found.1 in
            (found.0, within, rw (here found.0 within) at found.1);
        complete = λ x t within ne h.
            let waiting : contains (pending t) x ≡ true = rw (here t within) h in
            let found = m.union.complete x t waiting in
            rw shown (ground (arith, contains-remove self x m.rows, found));
        without_self = rw shown (ground (arith, contains-remove self self m.rows));
        self_in = elim (Bool-cases (contains m.rows self)) [
          | inl e ↦
              let found = m.union.sound self e in
              let within = inside found.0 self found.1 in
              (found.0, within, rw (here found.0 within) at found.1)
          | inr e ↦
              absurd
                (omega (arith, one, m.before_is, m.after_is, length-remove_absent self m.rows e))
        ];
        counted_after = omega (arith, after, m.after_is, ap length shown);
        counted_before = omega (arith, before, one, m.after_is, ap length shown);
      }

  -- A merge from the started streams gathers the rows of the segments.
  pub merged :
      (o : Objects) (decoded : List (List ℕ)) (st : Streams) (m : Merged s) (n : ℕ)
      → start_segments d s q n (first_streams d s q o decoded) ≡ ok st
      → merge s
          (pos_part q.self_id)
          q.base_rows
          (filter_of d s q)
          (sum_rows (rows_of_object d s q o) o.local_objects)
          st
          (nothing_gathered d s q)
        ≡ ok m
      → length o.local_objects ≡ n
      → ((t : ℕ) → t < n → IsSupport 0 q.base_rows (raw_rows d s q o decoded t))
      → ((t : ℕ)
          → t < n
          → length (raw_rows d s q o decoded t)
            ≤ rows_of_object d s q o (get_or o.local_objects t 0))
      → IsMerged s
          (pos_part q.self_id)
          0
          (pending_at d s q o decoded n)
          (nothing_gathered d s q)
          m.gathered
  merged o decoded st m n started e size a bounds =
      let begun = start_segments-IsPending d s q o decoded n n (omega arith) a in
      let same : begun.0 ≡ st = cc (sym begun.1 ∙ started) in
      let pending = pending_at d s q o decoded n in
      let rows_here : (t : ℕ)
          → t < n
          → pending t ≡ admitted (filter_of d s q t) (raw_rows d s q o decoded t) =
        λ t h. (let now : ltb t n ≡ true = ground arith in rw now refl) in
      let small : (t : ℕ)
          → t < length o.local_objects
          → length (pending t) ≤ rows_of_object d s q o (get_or o.local_objects t 0) =
        λ t h.
          let inside : t < n = omega arith in
          let shown = ap length (rows_here t inside) in
          omega (
            arith,
            length-admitted (filter_of d s q t) (raw_rows d s q o decoded t),
            bounds t inside,
          ) in
      let enough : total length n pending ≤ sum_rows (rows_of_object d s q o) o.local_objects =
        subst (λ k. total length k pending ≤ sum_rows (rows_of_object d s q o) o.local_objects) size
          (total-bound pending (rows_of_object d s q o) o.local_objects small) in
      merge-IsMerged s (pos_part q.self_id) q.base_rows (filter_of d s q) n
        (sum_rows (rows_of_object d s q o) o.local_objects) 0 st pending (nothing_gathered d s q) m
        (subst (λ begun. IsPending q.base_rows (filter_of d s q) begun pending) same begun.2)
        (λ t. elim (Bool-cases (ltb t n)) [
          | inl f ↦ rw f (
              admitted-IsAscendingFrom (filter_of d s q t) 0 (raw_rows d s q o decoded t)
                (a t (ground arith)).0)
          | inr f ↦ rw f tt
        ])
        (λ t h. (let later : ltb t n ≡ false = ground arith in rw later refl)) enough e

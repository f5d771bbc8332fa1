-- ===== src/Compositor/Searched.antt =====
-- `laion1m_lowmem_fixedblock_exact_top10_v1` of src/laion/native/fixed_block_compositor.cpp, from its arguments to the
-- rows that it finds.
use booleann.Base.{
  ℕ, ◌-◌, ◌^◌, ◌≤◌, ◌<◌, ◌≡◌, sym, ap, subst, ◌∙◌, Bool, true, false, not, ◌&&◌, ◌||◌, List, [],
  ltb, leb, ◌==◌, length, get_or, drop, length-take, length-drop, pos_part, arith, Bool-cases, inl,
  inr,
}
use booleann.Base.Double.{Double}
use booleann.Base.Result.{Result, ok, ◌>>=◌, two_steps}
use booleann.Base.Ordered.{IsSupport, contains}
use booleann.Compositor.{Scorer, max_segments, max_global_objects, max_decoded_rows}
use booleann.Compositor.Stream.{Streams}
use booleann.Compositor.Merge.{Merged, merge}
use booleann.Compositor.Prepare.{Objects, no_object, collect, total_rows, decode_objects}
use booleann.Compositor.Search.{
  Query, Output, refuse_if, is_negative, queried, no_segment, filter_of, first_streams,
  start_segments, sum_rows, rows_of_object, nothing_gathered, finish, search,
}
use booleann.Compositor.Pending.{admitted}
use booleann.Compositor.Located.{rows_of, collect-IsLocated, decode_objects-rows}
use booleann.Compositor.Started.{raw_rows, pending_at}
use booleann.Compositor.Found.{
  refuse-inv, length-rows_of, segment_rows, IsFound, IsFound-from, finish-outputs, merged,
}

module _ (d : Double) (s : Scorer) (q : Query d) where
  -- The intermediate results of a call that succeeds.
  record IsTraced (out : Output s) : Type 0 where
    objects : Objects
    total : ℕ
    decoded : List (List ℕ)
    started : Streams
    final : Merged s
    counts :
        ltb (length q.segments) q.segment_begin
          || ltb (length q.segments - q.segment_begin) q.segment_count
        ≡ false
    collected : collect d (length q.objects) q.attributes (queried d s q) [] ≡ ok objects
    decoding : decode_objects q.scratch_capacity q.objects objects.unique_objects 0 ≡ ok decoded
    starting :
        start_segments d s q q.segment_count (first_streams d s q objects decoded) ≡ ok started
    merging :
        merge s
          (pos_part q.self_id)
          q.base_rows
          (filter_of d s q)
          (sum_rows (rows_of_object d s q objects) objects.local_objects)
          started
          (nothing_gathered d s q)
        ≡ ok final
    finishing :
        finish d s q total
          (sum_rows (rows_of_object d s q objects) objects.local_objects)
          final.final.boundary_checks
          final.gathered
        ≡ ok out

  search-IsTraced : (out : Output s) → search d s q ≡ ok out → IsTraced out
  unfolding search
  search-IsTraced out e =
      let self = pos_part q.self_id in
      let total_segments = length q.segments in
      let bad_base =
        q.base_rows == 0
        || ltb (2 ^ 31 - 1) q.base_rows
        || is_negative q.self_id
        || leb q.base_rows self in
      let bad_counts =
        length q.objects == 0
        || ltb max_global_objects (length q.objects)
        || q.segment_count == 0
        || ltb max_segments q.segment_count
        || length q.attributes == 0
        || ltb 255 (length q.attributes)
        || ltb total_segments q.segment_begin
        || ltb (total_segments - q.segment_begin) q.segment_count in
      let input : Objects → ℕ = λ o. sum_rows (rows_of_object d s q o) o.local_objects in
      let end_with : Objects → ℕ → Merged s → Result ℕ (Output s) =
        λ o total m. finish d s q total (input o) m.final.boundary_checks m.gathered in
      let merge_with : Objects → ℕ → Streams → Result ℕ (Output s) = λ o total st.
        merge s self q.base_rows (filter_of d s q) (input o) st (nothing_gathered d s q)
        >>= end_with o total in
      let start_with : Objects → ℕ → List (List ℕ) → Result ℕ (Output s) = λ o total decoded.
        start_segments d s q q.segment_count (first_streams d s q o decoded)
        >>= merge_with o total in
      let decode_with : Objects → ℕ → Result ℕ (Output s) = λ o total.
        decode_objects q.scratch_capacity q.objects o.unique_objects 0 >>= start_with o total in
      let bad_total : ℕ → Bool =
        λ total. total == 0 || ltb q.scratch_capacity total || ltb max_decoded_rows total in
      let bad_diagnostic : ℕ → Bool = λ total.
        (not q.has_diagnostic && not (q.diagnostic_capacity == 0))
        || (q.has_diagnostic && q.diagnostic_capacity == 0)
        || (q.has_diagnostic && ltb q.diagnostic_capacity total) in
      let room_for : Objects → ℕ → Result ℕ (Output s) = λ o total.
        refuse_if (bad_total total) 2 (refuse_if (bad_diagnostic total) 11 (decode_with o total)) in
      let add_up : Objects → Result ℕ (Output s) =
        λ o. total_rows q.objects o.unique_objects 0 >>= room_for o in
      let collecting = collect d (length q.objects) q.attributes (queried d s q) [] in
      let a = refuse-inv bad_base 2 (refuse_if bad_counts 7 (collecting >>= add_up)) out e in
      let b = refuse-inv bad_counts 7 (collecting >>= add_up) out a.1 in
      let c = two_steps collecting add_up out b.1 in
      let o = c.0 in
      let t = two_steps (total_rows q.objects o.unique_objects 0) (room_for o) out c.2 in
      let total = t.0 in
      let u =
        refuse-inv (bad_total total) 2 (refuse_if (bad_diagnostic total) 11 (decode_with o total))
          out t.2 in
      let v = refuse-inv (bad_diagnostic total) 11 (decode_with o total) out u.1 in
      let w =
        two_steps (decode_objects q.scratch_capacity q.objects o.unique_objects 0)
          (start_with o total) out v.1 in
      let x =
        two_steps (start_segments d s q q.segment_count (first_streams d s q o w.0))
          (merge_with o total) out w.2 in
      let y =
        two_steps
          (merge s self q.base_rows (filter_of d s q) (input o) x.0 (nothing_gathered d s q))
          (end_with o total) out x.2 in
      record {
        objects = o;
        total = total;
        decoded = w.0;
        started = x.0;
        final = y.0;
        counts = ground (arith, b.0);
        collected = c.1;
        decoding = w.1;
        starting = x.1;
        merging = y.1;
        finishing = y.2;
      }

  -- Only segments of the query have pending rows.
  inside_of :
      (o : Objects) (decoded : List (List ℕ)) (n t x : ℕ)
      → contains (pending_at d s q o decoded n t) x ≡ true
      → t < n
  inside_of o decoded n t x h = elim (Bool-cases (ltb t n)) [
    | inl e ↦ ground arith
    | inr e ↦ absurd (cc ((rw e at h)))
  ]

  -- If the payload of every object lays out rows that increase strictly below the number of base rows, and there
  -- is a diagnostic buffer, then a call that succeeds fills it with the rows that some segment of the query has
  -- in its object and lets through its filter, in increasing order and once each, but for the query's own row,
  -- which some segment has as well, and counts them with and without that one.
  pub search-IsFound :
      (out : Output s)
      → ((i : ℕ) → IsSupport 0 q.base_rows (rows_of (get_or q.objects i no_object)))
      → q.has_diagnostic ≡ true
      → search d s q ≡ ok out
      → IsFound d s q out
  search-IsFound out valid has e =
      let trace = search-IsTraced out e in
      let o = trace.objects in
      let self = pos_part q.self_id in
      let n = q.segment_count in
      let located =
        collect-IsLocated d (length q.objects) q.attributes (no_segment d s q) (queried d s q) [] o
          trace.collected in
      let counts = trace.counts in
      let size : length (queried d s q) ≡ n = ground (
        arith,
        counts,
        length-take n (drop q.segment_begin q.segments),
        length-drop q.segment_begin q.segments,
      ) in
      let at_place : (t : ℕ)
          → t < n
          → raw_rows d s q o trace.decoded t
            ≡ rows_of (
                get_or q.objects (get_or o.unique_objects (get_or o.local_objects t 0) 0)
                  no_object) =
        λ t h.
          decode_objects-rows q.scratch_capacity q.objects o.unique_objects 0 trace.decoded
            trace.decoding (get_or o.local_objects t 0) (located.inside t (omega arith)) in
      let at_object : (t : ℕ)
          → t < n
          → raw_rows d s q o trace.decoded t
            ≡ rows_of
                (get_or q.objects (get_or (queried d s q) t (no_segment d s q)).object no_object) =
        λ t h.
          at_place t h
          ∙ ap (λ i. rows_of (get_or q.objects i no_object)) (located.located t (omega arith)) in
      let supported : (t : ℕ) → t < n → IsSupport 0 q.base_rows (raw_rows d s q o trace.decoded t) =
        λ t h.
          subst (IsSupport 0 q.base_rows) (sym (at_object t h))
            (valid (get_or (queried d s q) t (no_segment d s q)).object) in
      let bounds : (t : ℕ)
          → t < n
          → length (raw_rows d s q o trace.decoded t)
            ≤ rows_of_object d s q o (get_or o.local_objects t 0) =
        λ t h.
          let shown = ap length (at_place t h) in
          omega (
            arith,
            length-rows_of (
                get_or q.objects (get_or o.unique_objects (get_or o.local_objects t 0) 0)
                  no_object),
          ) in
      let m =
        merged d s q o trace.decoded trace.started trace.final n trace.starting trace.merging
          (located.count ∙ size) supported bounds in
      let input = sum_rows (rows_of_object d s q o) o.local_objects in
      let fin =
        finish-outputs d s q trace.total input trace.final.final.boundary_checks
          trace.final.gathered out has trace.finishing in
      let here : (t : ℕ) → t < n → pending_at d s q o trace.decoded n t ≡ segment_rows d s q t =
        λ t h.
          let now : ltb t n ≡ true = ground arith in
          rw now (ap (admitted (filter_of d s q t)) (at_object t h)) in
      IsFound-from d s q out (pending_at d s q o trace.decoded n) trace.final.gathered m fin.0 fin.1
        fin.2 fin.3 here (inside_of o trace.decoded n)

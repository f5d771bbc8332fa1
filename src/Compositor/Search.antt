-- ===== src/Compositor/Search.antt =====
-- `laion1m_lowmem_fixedblock_exact_top10_v1` of src/laion/native/fixed_block_compositor.cpp.
use booleann.Base.{
  ℕ, zero, suc, ◌+◌, ◌-◌, ◌^◌, Bool, true, false, not, ◌&&◌, ◌||◌, Option, none, some, List, [],
  ◌∷◌, length, get_or, take, drop, ltb, leb, ◌==◌, if◌then◌else◌, ℤ, pos_part, pos, negsuc,
}
use booleann.Base.Double.{Double}
use booleann.Base.Result.{Result, ok, err, ◌>>=◌}
use booleann.Compositor.{
  Object, Attribute, Segment, Scorer, max_segments, max_global_objects, max_decoded_rows, top_k,
}
use booleann.Compositor.Stream.{Streams, in_bounds, advance_segment}
use booleann.Compositor.Merge.{Gathered, merge}
use booleann.Compositor.Prepare.{
  Objects, no_object, no_attribute, collect, total_rows, decode_objects,
}

-- The arguments. Pointers but that of the diagnostic buffer are not null; an array comes with its size.
pub record Query (d : Double) : Type 0 where
  pub base_rows : ℕ
  pub self_id : ℤ
  pub objects : List Object
  pub attributes : List (Attribute d)
  pub segments : List (Segment d)
  pub segment_begin : ℕ
  pub segment_count : ℕ
  pub scratch_capacity : ℕ
  pub has_diagnostic : Bool
  pub diagnostic_capacity : ℕ

-- What is written on success, with the rows of the diagnostic buffer.
pub record Output (s : Scorer) : Type 0 where
  pub top : List s.Hit
  pub decoded_input_rows : ℕ
  pub segment_input_rows : ℕ
  pub boundary_predicate_checks : ℕ
  pub support_before : ℕ
  pub support_after : ℕ
  pub self_fragment_occurrences : ℕ
  pub diagnostic : List ℕ

-- A status other than 0 ends the call.
abbrev pub refuse_if : {A : Type 0} → Bool → ℕ → Result ℕ A → Result ℕ A
refuse_if true status rest = err status
refuse_if false status rest = rest

abbrev pub is_negative : ℤ → Bool
is_negative (pos n) = false
is_negative (negsuc n) = true

abbrev pub sum_rows : (ℕ → ℕ) → List ℕ → ℕ
sum_rows f [] = 0
sum_rows f (x ∷ xs) = f x + sum_rows f xs

module _ (d : Double) (s : Scorer) (q : Query d) where
  abbrev pub queried : List (Segment d)
  queried = take q.segment_count (drop q.segment_begin q.segments)

  abbrev pub no_segment : Segment d
  no_segment = record { object = 0; filter_code = 0; lower = d.zero; upper = d.zero }

  -- The filter of a segment of the query.
  unfoldable pub filter_of : ℕ → Option (ℕ → Bool)
  unfolding in_bounds
  filter_of segment =
      let g = get_or queried segment no_segment in
      if g.filter_code == 0
      then none
      else some (in_bounds d (get_or q.attributes (g.filter_code - 1) (no_attribute d)) g)

  -- The streams before any of them is advanced.
  abbrev pub first_streams : Objects → List (List ℕ) → Streams
  first_streams o decoded = record {
    heap = record { cells = λ _. 0; heap_size = 0 };
    stream_of = λ segment. record {
      rest = get_or decoded (get_or o.local_objects segment 0) [];
      previous = none;
      current = 0;
      live = false;
    };
    boundary_checks = 0;
  }

  -- The loop that brings the first `n` segments to their first rows.
  unfoldable pub start_segments : ℕ → Streams → Result ℕ Streams
  unfolding advance_segment filter_of
  start_segments zero st = ok st
  start_segments (suc n) st =
      start_segments n st >>= λ before. advance_segment q.base_rows filter_of n before

  abbrev pub rows_of_object : Objects → ℕ → ℕ
  rows_of_object o local =
      (get_or q.objects (get_or o.unique_objects local 0) no_object).object_rows

  abbrev pub nothing_gathered : Gathered s
  nothing_gathered = record {
    batch = [];
    scores = s.no_scores;
    unique_before = 0;
    unique_after = 0;
    self_occurrences = 0;
    support = [];
  }

  -- The last batch is scored, and the results are written.
  unfoldable pub finish : ℕ → ℕ → ℕ → Gathered s → Result ℕ (Output s)
  finish decoded input checks g =
      refuse_if (g.self_occurrences == 0 || not (g.unique_before == g.unique_after + 1)) 10 (
        (if length g.batch == 0 then ok g.scores else s.score_batch g.batch g.scores) >>= λ scores.
        refuse_if (ltb g.unique_after top_k || not (s.best_size scores == top_k)) 3 (
          ok (record {
            top = s.sorted_hits scores;
            decoded_input_rows = decoded;
            segment_input_rows = input;
            boundary_predicate_checks = checks;
            support_before = g.unique_before;
            support_after = g.unique_after;
            self_fragment_occurrences = g.self_occurrences;
            diagnostic = if q.has_diagnostic then g.support else [];
          })))

  -- `laion1m_lowmem_fixedblock_exact_top10_v1`; the test that the decoded rows add up to the total is left out,
  -- since both are the same sum
  unfoldable pub search : Result ℕ (Output s)
  unfolding collect total_rows decode_objects start_segments merge filter_of finish
  search =
      let self = pos_part q.self_id in
      let total_segments = length q.segments in
      refuse_if
        (q.base_rows == 0
          || ltb (2 ^ 31 - 1) q.base_rows
          || is_negative q.self_id
          || leb q.base_rows self)
        2
        (refuse_if
          (length q.objects == 0
            || ltb max_global_objects (length q.objects)
            || q.segment_count == 0
            || ltb max_segments q.segment_count
            || length q.attributes == 0
            || ltb 255 (length q.attributes)
            || ltb total_segments q.segment_begin
            || ltb (total_segments - q.segment_begin) q.segment_count)
          7
          (collect d (length q.objects) q.attributes queried [] >>= λ o.
            total_rows q.objects o.unique_objects 0 >>= λ total.
            refuse_if (total == 0 || ltb q.scratch_capacity total || ltb max_decoded_rows total) 2 (
              refuse_if
                ((not q.has_diagnostic && not (q.diagnostic_capacity == 0))
                  || (q.has_diagnostic && q.diagnostic_capacity == 0)
                  || (q.has_diagnostic && ltb q.diagnostic_capacity total))
                11
                (decode_objects q.scratch_capacity q.objects o.unique_objects 0 >>= λ decoded.
                  let input = sum_rows (rows_of_object o) o.local_objects in
                  start_segments q.segment_count (first_streams o decoded) >>= λ st.
                  merge s self q.base_rows filter_of input st nothing_gathered >>= λ m.
                  finish total input m.final.boundary_checks m.gathered))))

-- ===== src/Compositor/Tests.antt =====
-- A run of the search of src/laion/native/fixed_block_compositor.cpp, and the theorems at it.
use booleann.Base.{
  ℕ, zero, suc, ◌+◌, ◌/◌, ◌%◌, ◌≡◌, refl, true, false, List, [], ◌∷◌, ◌++◌, length, take, get_or,
  leb, ◌==◌, if◌then◌else◌, pos, arith,
}
use booleann.Base.Double.{whole}
use booleann.Base.Result.{ok}
use booleann.Base.Ordered.{IsSupport}
use booleann.Codec.{u24_rows, read_u24, u24le_decode}
use booleann.Compositor.{Object, Segment, Scorer}
use booleann.Compositor.Heap.{
  Heap, head_less, heap_push, heap_pop, sift_up, sift_down, smallest_child,
}
use booleann.Compositor.Heap.Order.{IsHeap}
use booleann.Compositor.Heap.Kept.{total}
use booleann.Compositor.Heap.Sinking.{heap_pop_lem}
use booleann.Compositor.Stream.{in_bounds, advance_rows, advance, advance_segment}
use booleann.Compositor.Merge.{drain, gather, merge}
use booleann.Compositor.Prepare.{
  no_object, no_attribute, local_object, bad_filter, collect, total_rows, decode_object,
  decode_objects,
}
use booleann.Compositor.Search.{Query, Output, filter_of, start_segments, finish, search}
use booleann.Compositor.Located.{rows_of}
use booleann.Compositor.Found.{IsFound}
use booleann.Compositor.Searched.{search-IsFound}

-- Hits in the order of arrival stand for scores.
abbrev arrivals : Scorer
arrivals = record {
  Scores = List ℕ;
  Hit = ℕ;
  no_scores = [];
  score_batch = λ ids scores. ok (scores ++ ids);
  best_size = λ scores. if leb 10 (length scores) then 10 else length scores;
  sorted_hits = λ scores. take 10 scores;
}

-- The rows 0 to 10.
abbrev eleven : Object
eleven = record {
  has_payload = true;
  payload = λ i. if i % 3 == 0 then i / 3 else 0;
  object_rows = 11;
}

abbrev unfiltered : Segment whole
unfiltered = record { object = 0; filter_code = 0; lower = pos 0; upper = pos 1 }

-- Two segments of the same object, the query's own row being 4.
abbrev query : Query whole
query = record {
  base_rows = 12;
  self_id = pos 4;
  objects = eleven ∷ [];
  attributes = no_attribute whole ∷ [];
  segments = unfiltered ∷ unfiltered ∷ [];
  segment_begin = 0;
  segment_count = 2;
  scratch_capacity = 100;
  has_diagnostic = true;
  diagnostic_capacity = 11;
}

abbrev others : List ℕ
others = 0 ∷ 1 ∷ 2 ∷ 3 ∷ 5 ∷ 6 ∷ 7 ∷ 8 ∷ 9 ∷ 10 ∷ []

abbrev output : Output arrivals
output = record {
  top = others;
  decoded_input_rows = 11;
  segment_input_rows = 22;
  boundary_predicate_checks = 0;
  support_before = 11;
  support_after = 10;
  self_fragment_occurrences = 2;
  diagnostic = others;
}

search_run : search whole arrivals query ≡ ok output
unfolding search collect local_object bad_filter total_rows decode_objects decode_object
    u24le_decode u24_rows read_u24 start_segments filter_of in_bounds advance_segment advance
    advance_rows heap_push sift_up heap_pop sift_down smallest_child merge drain gather finish
search_run = refl

eleven-rows : rows_of eleven ≡ 0 ∷ 1 ∷ 2 ∷ 3 ∷ 4 ∷ 5 ∷ 6 ∷ 7 ∷ 8 ∷ 9 ∷ 10 ∷ []
unfolding rows_of u24_rows read_u24
eleven-rows = refl

objects-IsSupport : (i : ℕ) → IsSupport 0 12 (rows_of (get_or (eleven ∷ []) i no_object))
objects-IsSupport zero = rw eleven-rows (
  (
    omega arith,
    (
      omega arith,
      (
        omega arith,
        (
          omega arith,
          (
            omega arith,
            (
              omega arith,
              (omega arith, (omega arith, (omega arith, (omega arith, (omega arith, tt))))),
            ),
          ),
        ),
      ),
    ),
  ),
  (
    omega arith,
    (
      omega arith,
      (
        omega arith,
        (
          omega arith,
          (
            omega arith,
            (
              omega arith,
              (omega arith, (omega arith, (omega arith, (omega arith, (omega arith, tt))))),
            ),
          ),
        ),
      ),
    ),
  ),
)
objects-IsSupport (suc i) = unfold rows_of u24_rows in (tt, tt)

search-IsFound_example : IsFound whole arrivals query output
search-IsFound_example =
    search-IsFound whole arrivals query output objects-IsSupport refl search_run

-- Segment 1 is at row 3, segment 0 at row 5.
abbrev two_heads : ℕ → ℕ
two_heads segment = if segment == 0 then 5 else 3

abbrev two_cells : Heap
two_cells = record { cells = λ i. if i == 0 then 1 else 0; heap_size = 2 }

two_cells-IsHeap : IsHeap two_heads 2 two_cells.cells
two_cells-IsHeap i a b = let one : i ≡ 1 = omega arith in rw one refl

heap_pop_example :
    (head_less two_heads (two_cells.cells 1) (heap_pop two_heads two_cells).segment ≡ false)
    × IsHeap two_heads 1 (heap_pop two_heads two_cells).remaining.cells
    × (total (λ v. v) 1 (heap_pop two_heads two_cells).remaining.cells
          + (heap_pop two_heads two_cells).segment
        ≡ total (λ v. v) 2 two_cells.cells)
heap_pop_example = heap_pop_lem two_heads two_cells 1 1 (λ v. v) refl two_cells-IsHeap (omega arith)

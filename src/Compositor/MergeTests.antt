-- ===== src/Compositor/MergeTests.antt =====
-- Runs of the scoring of src/laion/native/fixed_block_compositor.cpp, and its merge at one segment.
use booleann.Base.{
  ℕ, zero, suc, ◌+◌, ◌≡◌, refl, true, false, List, [], ◌∷◌, ◌++◌, take, ◌==◌, arith,
}
use booleann.Base.Result.{ok}
use booleann.Compositor.Heap.Kept.{total}
use booleann.Compositor.Merge.{merge}
use booleann.Base.{Option, some, none, Bool, ◌≤◌}
use booleann.Base.Ordered.{IsAscendingFrom}
use booleann.Compositor.Stream.{Stream, Streams}
use booleann.Compositor.Merge.{Gathered, Merged}
use booleann.Compositor.Pending.{IsPending, Represents, admitted, is_segment, has_rows}
use booleann.Compositor.Union.{IsMerged}
use booleann.Compositor.Score.{
  Candidate, Scoring, check_ids, nearer, consume, score_each, score_rows, scorer,
}
use booleann.Compositor.Scored.{IsFinite}
use booleann.Compositor.Returns.{merge_lem}
use booleann.Base.{◌<◌, ltb, drop, ◌*◌}
use booleann.Base.Ordered.{contains}
use booleann.Base.Result.{err}
use booleann.Protocol.Truth.{sort}

-- One segment, at row 3 with row 5 behind it.
abbrev one_pending : ℕ → List ℕ
one_pending zero = 3 ∷ 5 ∷ []
one_pending (suc t) = []

abbrev one_stream : ℕ → Stream
one_stream zero = record { rest = 5 ∷ []; previous = some 3; current = 3; live = true }
one_stream (suc t) = record { rest = []; previous = none; current = 0; live = false }

abbrev one_live : Streams
one_live = record {
  heap = record { cells = λ _. 0; heap_size = 1 };
  stream_of = one_stream;
  boundary_checks = 0;
}

abbrev all_rows : ℕ → Option (ℕ → Bool)
all_rows t = none

one_live-IsPending : IsPending 10 all_rows one_live one_pending
unfolding total
one_live-IsPending = record {
  ordered = λ i a b. absurd (omega arith);
  members = counted;
  represented = represented;
}
  where
    counted : (t : ℕ) → total (is_segment t) 1 (λ _. 0) ≡ has_rows (one_pending t)
    counted zero = refl
    counted (suc t) = let differ : (suc t == 0) ≡ false = ground arith in rw differ refl

    represented : (t : ℕ) → Represents 10 (all_rows t) (one_stream t) (one_pending t)
    represented zero =
        (refl, refl, refl, ((omega arith, tt), (omega arith, tt)), unfold admitted in refl)
    represented (suc t) = refl

one_pending-IsAscendingFrom : (t : ℕ) → IsAscendingFrom 0 (one_pending t)
one_pending-IsAscendingFrom zero = (omega arith, (omega arith, tt))
one_pending-IsAscendingFrom (suc t) = tt

one_pending-inside : (t x : ℕ) → contains (one_pending t) x ≡ true → x < 10
one_pending-inside zero x h = ground (arith, h)
one_pending-inside (suc t) x h = absurd (cc h)

one_pending-outside : (t : ℕ) → 1 ≤ t → one_pending t ≡ []
one_pending-outside zero h = absurd (omega arith)
one_pending-outside (suc t) h = refl

-- Whole numbers for distances, all below 1000 finite. A list in descending order is a heap.
abbrev scoring : Scoring ℕ
scoring = record {
  interleaved = λ id. id * 100;
  single = λ id. id * 100 + 1;
  is_finite = λ distance. ltb distance 1000;
  less = ltb;
  same = λ left right. left == right;
  push_heap = λ less best. sort (λ left right. less right left) best;
  pop_heap = λ less best. drop 1 best ++ take 1 best;
  sort = sort;
}

-- A group of eight rows, and one row behind it.
score_run :
    score_rows scoring 12 (0 ∷ 1 ∷ 2 ∷ 3 ∷ 4 ∷ 5 ∷ 6 ∷ 7 ∷ 8 ∷ []) []
    ≡ ok (
        record { distance = 801; id = 8 }
        ∷ record { distance = 700; id = 7 }
        ∷ record { distance = 600; id = 6 }
        ∷ record { distance = 500; id = 5 }
        ∷ record { distance = 400; id = 4 }
        ∷ record { distance = 300; id = 3 }
        ∷ record { distance = 200; id = 2 }
        ∷ record { distance = 100; id = 1 }
        ∷ record { distance = 0; id = 0 }
        ∷ [])
unfolding score_rows check_ids score_each consume nearer sort
score_run = refl

out_of_range : score_rows scoring 12 (3 ∷ 12 ∷ []) [] ≡ err 4
unfolding score_rows check_ids
out_of_range = refl

not_increasing : score_rows scoring 12 (3 ∷ 3 ∷ []) [] ≡ err 5
unfolding score_rows check_ids
not_increasing = refl

not_finite : score_rows scoring 12 (3 ∷ 10 ∷ []) [] ≡ err 6
unfolding score_rows check_ids score_each
not_finite = refl

scoring-IsFinite : IsFinite scoring 10
scoring-IsFinite id h = (ground (arith, h), ground (arith, h))

abbrev nothing : Gathered (scorer scoring 10)
nothing = record {
  batch = [];
  scores = [];
  unique_before = 0;
  unique_after = 0;
  self_occurrences = 0;
  support = [];
}

merge_example :
    (m : Merged (scorer scoring 10)) × (merge (scorer scoring 10) 5 10 all_rows 2 one_live nothing
      ≡ ok m)
    × IsMerged (scorer scoring 10) 5 0 one_pending nothing m.gathered
    × ((scores : List (Candidate ℕ)) × (score_rows scoring 10 m.gathered.batch m.gathered.scores
          ≡ ok scores))
merge_example =
    merge_lem scoring 5 10 all_rows 1 2 0 one_live one_pending nothing scoring-IsFinite
      one_live-IsPending one_pending-IsAscendingFrom one_pending-inside one_pending-outside
      (unfold total in omega arith) ((tt, tt), tt)

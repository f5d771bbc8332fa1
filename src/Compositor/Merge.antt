-- ===== src/Compositor/Merge.antt =====
-- The merge of src/laion/native/fixed_block_compositor.cpp: the streams at the least row are advanced together, the
-- row is counted once, and all but the query's own go to the scorer in batches.
use booleann.Base.{
  ℕ, zero, suc, ◌+◌, Bool, not, ◌&&◌, Option, List, [], ◌∷◌, ◌++◌, length, ◌==◌, if◌then◌else◌,
}
use booleann.Base.Result.{Result, ok, ◌>>=◌}
use booleann.Compositor.{Scorer, batch_ids}
use booleann.Compositor.Heap.{heap_pop}
use booleann.Compositor.Stream.{Streams, heads, advance_segment}

-- The streams behind the inner loop, and `equal_streams`.
pub record Drained : Type 0 where
  pub streams : Streams
  pub equal_streams : ℕ

module _ (base_rows : ℕ) (filters : ℕ → Option (ℕ → Bool)) where
  -- The inner loop, on fuel.
  unfoldable pub drain : ℕ → ℕ → ℕ → Streams → Result ℕ Drained
  unfolding advance_segment heap_pop
  drain zero next_id equal st = ok (record { streams = st; equal_streams = equal })
  drain (suc fuel) next_id equal st =
      let p = heap_pop (heads st.stream_of) st.heap in
      advance_segment base_rows filters p.segment (record st { heap = p.remaining }) >>= λ after.
      if not (after.heap.heap_size == 0) && heads after.stream_of (after.heap.cells 0) == next_id
      then drain fuel next_id (equal + 1) after
      else ok (record { streams = after; equal_streams = equal + 1 })

-- What the outer loop has gathered. The rows of `support` are those of the diagnostic buffer, if there is one.
pub record Gathered (s : Scorer) : Type 0 where
  pub batch : List ℕ
  pub scores : s.Scores
  pub unique_before : ℕ
  pub unique_after : ℕ
  pub self_occurrences : ℕ
  pub support : List ℕ

-- The same with the streams behind the outer loop.
pub record Merged (s : Scorer) : Type 0 where
  pub gathered : Gathered s
  pub final : Streams

module _ (s : Scorer) (self : ℕ) where
  -- A row that is unique, with the number of its streams.
  unfoldable pub gather : ℕ → ℕ → Gathered s → Result ℕ (Gathered s)
  gather next_id equal_streams g =
      let batch = g.batch ++ next_id ∷ [] in
      let kept : Gathered s = record {
        batch = batch;
        scores = g.scores;
        unique_before = g.unique_before + 1;
        unique_after = g.unique_after + 1;
        self_occurrences = g.self_occurrences;
        support = g.support ++ next_id ∷ [];
      } in
      if next_id == self
      then ok (record g {
        unique_before = g.unique_before + 1;
        self_occurrences = g.self_occurrences + equal_streams;
      })
      else if length batch == batch_ids
      then (s.score_batch batch g.scores >>= λ scores.
          ok (record kept { batch = []; scores = scores }))
      else ok kept

  module _ (base_rows : ℕ) (filters : ℕ → Option (ℕ → Bool)) where
    -- The outer loop, on fuel.
    unfoldable pub merge : ℕ → Streams → Gathered s → Result ℕ (Merged s)
    unfolding drain gather
    merge zero st g = ok (record { gathered = g; final = st })
    merge (suc fuel) st g =
        let next_id = heads st.stream_of (st.heap.cells 0) in
        if st.heap.heap_size == 0
        then ok (record { gathered = g; final = st })
        else (drain base_rows filters (suc fuel) next_id 0 st >>= λ d.
            gather next_id d.equal_streams g >>= λ after. merge fuel d.streams after)

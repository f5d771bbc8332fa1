-- ===== src/Compositor/Stream.antt =====
-- The segments of a query in src/laion/native/fixed_block_compositor.cpp as streams of their admitted rows, and
-- `advance`, which moves one of them to its next row. Decoded rows are not negative.
use booleann.Base.{
  ℕ, ◌+◌, Bool, true, false, ◌&&◌, Option, none, some, List, [], ◌∷◌, leb, ◌==◌, if◌then◌else◌,
}
use booleann.Base.Double.{Double}
use booleann.Base.Arrays.{update}
use booleann.Base.Result.{Result, ok, err, ◌>>=◌}
use booleann.Compositor.{Attribute, Segment}
use booleann.Compositor.Heap.{Heap, heap_push}

-- The rows behind `positions`, `previous_raw` with its flag, `current` and `live` of a segment.
pub record Stream : Type 0 where
  pub rest : List ℕ
  pub previous : Option ℕ
  pub current : ℕ
  pub live : Bool

-- The value of a row, and whether it is inside of the bounds.
unfoldable pub in_bounds : (d : Double) → Attribute d → Segment d → ℕ → Bool
in_bounds d a s id =
    let value : d.Value = if a.kind == 1 then a.doubles id else d.of_int64 (a.integers id) in
    a.valid id && d.is_finite value && d.at_most s.lower value && d.less value s.upper

-- Whether a row does not come behind the one before.
abbrev pub falls_back : Option ℕ → ℕ → Bool
falls_back none id = false
falls_back (some previous) id = leb id previous

-- A stream and the number of boundary checks so far.
pub record Advanced : Type 0 where
  pub stream : Stream
  pub checks : ℕ

-- The filter of a segment, if it has one.
abbrev pub admits : Option (ℕ → Bool) → ℕ → Bool
admits none id = true
admits (some filter) id = filter id

abbrev pub counted : Option (ℕ → Bool) → ℕ → ℕ
counted none checks = checks
counted (some filter) checks = checks + 1

module _ (base_rows : ℕ) (filter : Option (ℕ → Bool)) (current : ℕ) where
  -- The loop of `advance` over the rows that are left.
  unfoldable pub advance_rows : Option ℕ → ℕ → List ℕ → Result ℕ Advanced
  advance_rows previous checks [] = ok (record {
    stream = record { rest = []; previous = previous; current = current; live = false };
    checks = checks;
  })
  advance_rows previous checks (id ∷ rows) =
      let further = advance_rows (some id) (counted filter checks) rows in
      if leb base_rows id
      then err 4
      else if falls_back previous id
      then err 5
      else if admits filter id
      then ok (record {
        stream = record { rest = rows; previous = some id; current = id; live = true };
        checks = counted filter checks;
      })
      else further

-- `advance`
unfoldable pub advance : ℕ → Option (ℕ → Bool) → Stream → ℕ → Result ℕ Advanced
unfolding advance_rows
advance base_rows filter s checks = advance_rows base_rows filter s.current s.previous checks s.rest

-- The streams, by segment, and the heap of those that are live.
pub record Streams : Type 0 where
  pub heap : Heap
  pub stream_of : ℕ → Stream
  pub boundary_checks : ℕ

abbrev pub heads : (ℕ → Stream) → ℕ → ℕ
heads stream_of segment = (stream_of segment).current

-- A segment is advanced, and pushed if it is live.
unfoldable pub advance_segment : ℕ → (ℕ → Option (ℕ → Bool)) → ℕ → Streams → Result ℕ Streams
unfolding advance
advance_segment base_rows filters segment st =
    advance base_rows (filters segment) (st.stream_of segment) st.boundary_checks >>= λ a.
    let moved = update st.stream_of segment a.stream in
    ok (record {
      heap = if a.stream.live then heap_push (heads moved) segment st.heap else st.heap;
      stream_of = moved;
      boundary_checks = a.checks;
    })

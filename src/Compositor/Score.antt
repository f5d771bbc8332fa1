-- ===== src/Compositor/Score.antt =====
-- The scoring of a batch in src/laion/native/fixed_block_compositor.cpp (fb_score_batch), with the loops of
-- src/laion/native/exact_topk_avx2.cpp that it calls. The distances, which are sums of 32-bit floats by vector
-- instructions, the tests of floats and the heap routines of the standard library are a parameter. Rows are
-- natural numbers, so no id is negative.
use booleann.Base.{
  ℕ, ◌*◌, ◌/◌, ◌-◌, Bool, not, ◌&&◌, ◌||◌, Option, none, some, List, [], ◌∷◌, ◌++◌, length, take,
  drop, get_or, ltb, leb, if◌then◌else◌,
}
use booleann.Base.Result.{Result, ok, err, ◌>>=◌, ◌>>◌}
use booleann.Compositor.{Scorer, top_k}
use booleann.Compositor.Stream.{falls_back}

pub record Candidate (Float : Type 0) : Type 0 where
  pub distance : Float
  pub id : ℕ

-- The distances of the rows to the query, of a row in a group of eight and of one behind the last group; what
-- the code asks of a float; and `std::push_heap`, `std::pop_heap` and `std::sort` under an order.
pub record Scoring (Float : Type 0) : Type 0 where
  pub interleaved : ℕ → Float
  pub single : ℕ → Float
  pub is_finite : Float → Bool
  pub less : Float → Float → Bool
  pub same : Float → Float → Bool
  pub push_heap :
      (Candidate Float → Candidate Float → Bool) → List (Candidate Float) → List (Candidate Float)
  pub pop_heap :
      (Candidate Float → Candidate Float → Bool) → List (Candidate Float) → List (Candidate Float)
  pub sort :
      (Candidate Float → Candidate Float → Bool) → List (Candidate Float) → List (Candidate Float)

-- `kRetainedInterleaveRows`
abbrev pub interleave_rows : ℕ
interleave_rows = 8

-- The first loop of `for_each_retained_score_interleaved8`, with the id before.
unfoldable pub check_ids : ℕ → Option ℕ → List ℕ → Result ℕ (Unit {0})
check_ids base_rows previous_id [] = ok tt
check_ids base_rows previous_id (id ∷ support_ids) =
    let rest = check_ids base_rows (some id) support_ids in
    if leb base_rows id then err 4 else if falls_back previous_id id then err 5 else rest

module _ {Float : Type 0} (f : Scoring Float) where
  -- `candidate_less`
  unfoldable pub nearer : Candidate Float → Candidate Float → Bool
  nearer left right =
      f.less left.distance right.distance
      || (f.same left.distance right.distance && ltb left.id right.id)

  -- The consumer of `fb_score_batch`.
  unfoldable pub consume : Candidate Float → List (Candidate Float) → List (Candidate Float)
  unfolding nearer
  consume scored best =
      if ltb (length best) top_k
      then f.push_heap nearer (best ++ scored ∷ [])
      else if nearer scored (get_or best 0 scored)
      then f.push_heap nearer (take (length best - 1) (f.pop_heap nearer best) ++ scored ∷ [])
      else best

  -- The rows of a loop, under the distances that it computes.
  unfoldable pub score_each :
      (ℕ → Float) → List ℕ → List (Candidate Float) → Result ℕ (List (Candidate Float))
  unfolding consume
  score_each distance [] best = ok best
  score_each distance (id ∷ support_ids) best =
      let rest =
        score_each distance support_ids
          (consume (record { distance = distance id; id = id }) best) in
      if not (f.is_finite (distance id)) then err 6 else rest

  -- `for_each_retained_score_interleaved8`: the groups of eight, and the rows behind them.
  unfoldable pub score_rows :
      ℕ → List ℕ → List (Candidate Float) → Result ℕ (List (Candidate Float))
  unfolding check_ids score_each
  score_rows base_rows support_ids best =
      let grouped = length support_ids / interleave_rows * interleave_rows in
      check_ids base_rows none support_ids
      >> (score_each f.interleaved (take grouped support_ids) best >>= λ others.
          score_each f.single (drop grouped support_ids) others)

  -- The scorer of the compositor.
  abbrev pub scorer : ℕ → Scorer
  scorer base_rows = record {
    Scores = List (Candidate Float);
    Hit = Candidate Float;
    no_scores = [];
    score_batch = score_rows base_rows;
    best_size = length;
    sorted_hits = λ best. take top_k (f.sort nearer best);
  }

-- ===== src/Compositor/Scored.antt =====
-- Which batches the scoring of src/laion/native/fixed_block_compositor.cpp takes.
use booleann.Base.{
  ℕ, zero, suc, ◌*◌, ◌/◌, ◌≤◌, ◌<◌, ◌≡◌, ◌↔◌, refl, true, false, Option, none, some, List, [], ◌∷◌,
  length, take, drop, leb, arith,
}
use booleann.Base.Result.{ok, two_steps, behind_check, ◌>>=◌}
use booleann.Base.Ordered.{IsBelow, IsSupport}
use booleann.Compositor.Stream.{falls_back}
use booleann.Compositor.Pending.{first_after}
use booleann.Compositor.Score.{
  Candidate, Scoring, check_ids, consume, interleave_rows, score_each, score_rows,
}

check_ids-IsSupport :
    (base_rows : ℕ) (previous : Option ℕ) (ids : List ℕ)
    → IsSupport (first_after previous) base_rows ids
    → check_ids base_rows previous ids ≡ ok tt
unfolding check_ids
check_ids-IsSupport base_rows previous [] h = refl
check_ids-IsSupport base_rows previous (id ∷ ids) h =
    let inside : leb base_rows id ≡ false = ground (arith, h.1.0) in
    let forward : falls_back previous id ≡ false = forwards previous id h.0.0 in
    rw (inside, forward) (check_ids-IsSupport base_rows (some id) ids (h.0.1, h.1.1))
  where
    forwards :
        (previous : Option ℕ) (id : ℕ) → first_after previous ≤ id → falls_back previous id ≡ false
    forwards none id h = refl
    forwards (some p) id h = ground arith

check_ids_lem :
    (base_rows : ℕ) (previous : Option ℕ) (ids : List ℕ)
    → check_ids base_rows previous ids ≡ ok tt
    → IsSupport (first_after previous) base_rows ids
unfolding check_ids
check_ids_lem base_rows previous [] e = (tt, tt)
check_ids_lem base_rows previous (id ∷ ids) e =
    let inside = behind_check (leb base_rows id) 4 _ tt e in
    let forward = behind_check (falls_back previous id) 5 _ tt inside.1 in
    let rest = check_ids_lem base_rows (some id) ids forward.1 in
    ((forwards previous forward.0, rest.0), (ground (arith, inside.0), rest.1))
  where
    forwards : (previous : Option ℕ) → falls_back previous id ≡ false → first_after previous ≤ id
    forwards none h = omega arith
    forwards (some p) h = ground (arith, h)

take-IsBelow : (hi n : ℕ) (ids : List ℕ) → IsBelow hi ids → IsBelow hi (take n ids)
take-IsBelow hi zero ids h = tt
take-IsBelow hi (suc n) [] h = tt
take-IsBelow hi (suc n) (id ∷ ids) h = (h.0, take-IsBelow hi n ids h.1)

drop-IsBelow : (hi n : ℕ) (ids : List ℕ) → IsBelow hi ids → IsBelow hi (drop n ids)
drop-IsBelow hi zero ids h = h
drop-IsBelow hi (suc n) [] h = tt
drop-IsBelow hi (suc n) (id ∷ ids) h = drop-IsBelow hi n ids h.1

module _ {Float : Type 0} (f : Scoring Float) (base_rows : ℕ) where
  -- Every row has finite distances.
  abbrev pub IsFinite : Type 0
  IsFinite =
      (id : ℕ)
      → id < base_rows
      → (f.is_finite (f.interleaved id) ≡ true) × (f.is_finite (f.single id) ≡ true)

  score_each-returns :
      (distance : ℕ → Float)
      → ((id : ℕ) → id < base_rows → f.is_finite (distance id) ≡ true)
      → (ids : List ℕ) (best : List (Candidate Float)) → IsBelow base_rows ids
      → (after : List (Candidate Float)) × (score_each f distance ids best ≡ ok after)
  unfolding score_each
  score_each-returns distance finite [] best h = (best, refl)
  score_each-returns distance finite (id ∷ ids) best h = rw (finite id h.0) (
      score_each-returns distance finite ids
        (consume f (record { distance = distance id; id = id }) best) h.1)

  -- Where all distances are finite, exactly the batches that are supports are scored.
  pub score_rows_iff :
      (ids : List ℕ) (best : List (Candidate Float))
      → IsFinite
      → ((after : List (Candidate Float)) × (score_rows f base_rows ids best ≡ ok after))
        ↔ IsSupport 0 base_rows ids
  unfolding score_rows
  score_rows_iff ids best finite =
      let grouped = length ids / interleave_rows * interleave_rows in
      let score = score_each f f.single (drop grouped ids) in
      (
        λ (after, e).
            let checked =
              two_steps (check_ids base_rows none ids)
                (λ _. score_each f f.interleaved (take grouped ids) best >>= score) after e in
            check_ids_lem base_rows none ids checked.1,
        λ h.
            let first =
              score_each-returns f.interleaved (λ id b. (finite id b).0) (take grouped ids) best
                (take-IsBelow base_rows grouped ids h.1) in
            let second =
              score_each-returns f.single (λ id b. (finite id b).1) (drop grouped ids) first.0
                (drop-IsBelow base_rows grouped ids h.1) in
            (second.0, rw (check_ids-IsSupport base_rows none ids h, first.1) second.1),
      )

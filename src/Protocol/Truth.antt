-- ===== src/Protocol/Truth.antt =====
-- src/laion_sieve/laion1m_v19_same_resident_formal_protocol.h: the exact answer to a query. `std::sort` is
-- an insertion sort here: where the comparison of the distances is an order (IsOrdered of Protocol/Ranked)
-- and the ids are distinct, only one order of the candidates is sorted, whichever way they are.
use booleann.Base.{
  ℕ, Bool, true, not, ◌&&◌, ◌||◌, Option, none, some, List, [], ◌∷◌, map, length, take, get_elem?,
  ltb, ◌==◌, if◌then◌else◌, ◌-◌,
}
use booleann.Base.Options.{◌>>=◌}
use booleann.Base.Ordered.{contains}

-- What the code asks of a float.
pub record Floats (Float : Type 0) : Type 0 where
  pub less : Float → Float → Bool
  pub not_negative : Float → Bool
  pub is_infinity : Float → Bool

pub record ExactCandidate (Float : Type 0) : Type 0 where
  pub id : ℕ
  pub distance : Float

pub record ExactTruth (Float : Type 0) : Type 0 where
  pub ranked_ids : List ℕ
  pub strict_set_ids : List ℕ
  pub kth_distance : Float

-- Insertion in front of the first entry that is not less.
unfoldable pub insert {ℓ} : {A : Type ℓ} → (A → A → Bool) → A → List A → List A
insert less x [] = x ∷ []
insert less x (y ∷ ys) = let rest = insert less x ys in if less y x then y ∷ rest else x ∷ y ∷ ys

unfoldable pub sort {ℓ} : {A : Type ℓ} → (A → A → Bool) → List A → List A
unfolding insert
sort less [] = []
sort less (x ∷ xs) = insert less x (sort less xs)

module _ {Float : Type 0} (floats : Floats Float) where
  -- `std::pair{distance, id} < std::pair{distance, id}`
  unfoldable pub candidate_less : ExactCandidate Float → ExactCandidate Float → Bool
  candidate_less left right =
      floats.less left.distance right.distance
      || (not (floats.less right.distance left.distance) && ltb left.id right.id)

  -- The loop over the candidates, with the ids that were inserted before.
  unfoldable pub valid_candidates : List ℕ → List (ExactCandidate Float) → Bool
  valid_candidates candidate_ids [] = true
  valid_candidates candidate_ids (candidate ∷ candidates) =
      not (not (floats.not_negative candidate.distance) || floats.is_infinity candidate.distance)
      && not (contains candidate_ids candidate.id)
      && valid_candidates (candidate.id ∷ candidate_ids) candidates

  unfoldable pub exact_truth : List (ExactCandidate Float) → ℕ → Option (ExactTruth Float)
  unfolding valid_candidates candidate_less sort
  exact_truth candidates k =
      let sorted = sort candidate_less candidates in
      let ranked_ids = map ExactCandidate.id (take k sorted) in
      if k == 0 || ltb (length candidates) k || not (valid_candidates [] candidates)
      then none
      else do
        kth ← get_elem? sorted (k - 1)
        some (record {
          ranked_ids = ranked_ids;
          strict_set_ids = sort ltb ranked_ids;
          kth_distance = kth.distance;
        })

-- ===== src/Protocol/Nearest.antt =====
-- The exact answer of src/laion_sieve/laion1m_v19_same_resident_formal_protocol.h ranks the nearest candidates.
use booleann.Base.{
  ℕ, zero, suc, ◌-◌, ◌≤◌, ◌<◌, ◌≡◌, refl, ◌∙◌, true, false, ◌||◌, some, List, [], ◌∷◌, ◌++◌, map,
  length, length-take, take, drop, get_elem?, ltb, ◌==◌, arith, Bool-cases, inl, inr, Perm,
}
use booleann.Base.Ordered.{IsAscendingFrom, contains}
use booleann.Protocol.Truth.{
  Floats, ExactCandidate, ExactTruth, sort, candidate_less, valid_candidates, exact_truth,
}
use booleann.Protocol.Sorted.{
  All, IsDistinct, sort-Perm, sort-IsAscendingFrom, take-drop, get_elem-lt, take-IsDistinct,
  sort-IsDistinct, take-All, drop-All, length-sort,
}
use booleann.Protocol.Ranked.{IsOrdered, Precedes, IsRanked, IsMeasured, sort-IsRanked}

module _ {Float : Type 0} (floats : Floats Float) where
  take-IsRanked :
      (k : ℕ) (xs : List (ExactCandidate Float)) → IsRanked floats xs → IsRanked floats (take k xs)
  take-IsRanked zero xs h = tt
  take-IsRanked (suc k) [] h = tt
  take-IsRanked (suc k) (x ∷ xs) h = (take-All (Precedes floats x) k xs h.0, take-IsRanked k xs h.1)

  drop-IsRanked :
      (k : ℕ) (xs : List (ExactCandidate Float))
      → IsRanked floats xs
      → All (λ x. All (Precedes floats x) (drop k xs)) (take k xs)
  drop-IsRanked zero xs h = tt
  drop-IsRanked (suc k) [] h = tt
  drop-IsRanked (suc k) (x ∷ xs) h = (drop-All (Precedes floats x) k xs h.0, drop-IsRanked k xs h.1)

  pub valid_candidates-IsDistinct :
      (seen : List ℕ) (xs : List (ExactCandidate Float))
      → valid_candidates floats seen xs ≡ true
      → All (IsMeasured floats) xs
        × IsDistinct (map ExactCandidate.id xs)
        × ((a : ℕ) → contains seen a ≡ true → contains (map ExactCandidate.id xs) a ≡ false)
  unfolding valid_candidates
  valid_candidates-IsDistinct seen [] e = (tt, tt, λ a h. refl)
  valid_candidates-IsDistinct seen (x ∷ xs) e =
      let rest = valid_candidates-IsDistinct (x.id ∷ seen) xs (ground (arith, e)) in
      let itself : (x.id == x.id) ≡ true = ground arith in
      (
        (ground (arith, e), rest.0),
        (rest.2 x.id (rw itself refl), rest.1),
        λ a h. elim (Bool-cases (x.id == a)) [
          | inl f ↦ let same : x.id ≡ a = ground arith in absurd (ground (arith, e, same, h))
          | inr f ↦ rw f (rest.2 a (rw f h))
        ],
      )

  -- What an exact answer holds: the candidates are those that it ranks and those that it leaves, each that it ranks
  -- precedes the ranked ones behind it and all that it leaves, and the strict set are the ranked ids in
  -- increasing order.
  pub record IsNearest (candidates : List (ExactCandidate Float)) (k : ℕ) (r : ExactTruth Float)
      : Type 0 where
    pub ranked : List (ExactCandidate Float)
    pub left : List (ExactCandidate Float)
    pub kth : ExactCandidate Float
    pub all_candidates : Perm (ranked ++ left) candidates
    pub size : length ranked ≡ k
    pub in_order : IsRanked floats ranked
    pub nearest : All (λ x. All (Precedes floats x) left) ranked
    pub ids : r.ranked_ids ≡ map ExactCandidate.id ranked
    pub last : get_elem? ranked (k - 1) ≡ some kth
    pub distance : r.kth_distance ≡ kth.distance
    pub ascending : IsAscendingFrom 0 r.strict_set_ids
    pub same_ids : Perm r.strict_set_ids r.ranked_ids

  -- From k or more candidates, k at least 1, with distinct ids and finite distances that are not negative, on which
  -- the comparison is ordered, there is an exact answer, and it holds the k nearest in order, a lower id
  -- first where distances are equal, the distance of the last of them, and their ids in increasing order.
  pub exact_truth-IsNearest :
      (candidates : List (ExactCandidate Float)) (k : ℕ)
      → IsOrdered floats
      → 0 < k
      → k ≤ length candidates
      → valid_candidates floats [] candidates ≡ true
      → (r : ExactTruth Float) × (exact_truth floats candidates k ≡ some r)
        × IsNearest candidates k r
  unfolding exact_truth
  exact_truth-IsNearest candidates k o h m v =
      let less = candidate_less floats in
      let sorted = sort less candidates in
      let same : Perm sorted candidates = sort-Perm less candidates in
      let size : length sorted ≡ length candidates = length-sort less candidates in
      let (measured, distinct, fresh) = valid_candidates-IsDistinct [] candidates v in
      let in_order = sort-IsRanked floats o candidates measured distinct in
      let (kth, found, last) = get_elem-lt k sorted (k - 1) (omega arith) (omega (arith, size)) in
      let ranked = map ExactCandidate.id (take k sorted) in
      let enough : (k == 0 || ltb (length candidates) k) ≡ false = ground arith in
      (
        record {
          ranked_ids = ranked;
          strict_set_ids = sort ltb ranked;
          kth_distance = kth.distance;
        },
        rw (enough, v, found) refl,
        record {
          ranked = take k sorted;
          left = drop k sorted;
          kth = kth;
          all_candidates = rw (take-drop k sorted) same;
          size = length-take k sorted ∙ omega (arith, size);
          in_order = take-IsRanked k sorted in_order;
          nearest = drop-IsRanked k sorted in_order;
          ids = refl;
          last = last;
          distance = refl;
          ascending = sort-IsAscendingFrom ranked (
              take-IsDistinct ExactCandidate.id k sorted
                (sort-IsDistinct less ExactCandidate.id candidates distinct));
          same_ids = sort-Perm ltb ranked;
        },
      )

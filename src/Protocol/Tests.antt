-- ===== src/Protocol/Tests.antt =====
-- The frozen values of the protocol, and its theorems at concrete inputs.
use booleann.Base.{ℕ, ◌+◌, ◌≤◌, ◌≡◌, ◌↔◌, refl, true, some, List, [], ◌∷◌, arith, ltb, ◌==◌}
use booleann.Protocol.{pass, Resources, resource_decision, max_u64}
use booleann.Protocol.Schedule.{pair_order, schedule_fingerprint}
use booleann.Base.Ordered.{IsAscendingFrom}
use booleann.Protocol.Truth.{
  Floats, ExactCandidate, ExactTruth, sort, candidate_less, valid_candidates, exact_truth,
}
use booleann.Protocol.Ranked.{IsOrdered}
use booleann.Protocol.Nearest.{IsNearest, exact_truth-IsNearest}
use booleann.Protocol.Judge.{strict_set_hits}
use booleann.Protocol.Judged.{resource_decision_iff, strict_set_hits_iff, IsHitCount}
use booleann.Protocol.Pairs.{pair_of_blocks, pair_of_blocks_lem}

-- `kScheduleFingerprint`
fingerprint : schedule_fingerprint ≡ some 0x7a8c45ab0f7332db
unfolding schedule_fingerprint
fingerprint = refl

pair_of_blocks_lem_example : pair_of_blocks 5 ≡ pair_order 5
pair_of_blocks_lem_example = pair_of_blocks_lem 5 (omega arith)

abbrev resources : Resources
resources = record {
  saturated_persistent = 7;
  reference_persistent = 3;
  graph_persistent = 4;
  saturated_runtime = 9;
  reference_runtime = 5;
  graph_observed_runtime = 5;
}

resource_decision_iff_example :
    (resource_decision resources ≡ pass)
    ↔ ((3 + 4 ≤ max_u64) × (7 ≤ 3 + 4) × (5 + 5 ≤ max_u64) × (9 ≤ 5 + 5))
resource_decision_iff_example = resource_decision_iff resources (omega arith) (omega arith)

strict_set_hits_iff_example :
    (strict_set_hits (2 ∷ 5 ∷ []) (5 ∷ 9 ∷ []) ≡ some 1)
    ↔ (IsAscendingFrom 0 (2 ∷ 5 ∷ []) × IsHitCount (2 ∷ 5 ∷ []) (5 ∷ 9 ∷ []) 1)
strict_set_hits_iff_example = strict_set_hits_iff (2 ∷ 5 ∷ []) (5 ∷ 9 ∷ []) 1

-- Distances in whole numbers, with a million for infinity.
abbrev floats : Floats ℕ
floats = record { less = ltb; not_negative = λ _. true; is_infinity = λ d. d == 1000000 }

abbrev candidates : List (ExactCandidate ℕ)
candidates =
    record { id = 9; distance = 4 }
    ∷ record { id = 5; distance = 7 }
    ∷ record { id = 2; distance = 4 }
    ∷ []

truth_run :
    exact_truth floats candidates 2
    ≡ some (record { ranked_ids = 2 ∷ 9 ∷ []; strict_set_ids = 2 ∷ 9 ∷ []; kth_distance = 4 })
unfolding exact_truth valid_candidates sort candidate_less
truth_run = refl

candidates-valid : valid_candidates floats [] candidates ≡ true
unfolding valid_candidates
candidates-valid = refl

floats-IsOrdered : IsOrdered floats
floats-IsOrdered = record {
  asymmetric = λ a b p q h. ground (arith, h);
  comparable = λ a b c p q r h k. ground (arith, h, k);
}

exact_truth-IsNearest_example :
    (r : ExactTruth ℕ) × (exact_truth floats candidates 2 ≡ some r)
    × IsNearest floats candidates 2 r
exact_truth-IsNearest_example =
    exact_truth-IsNearest floats candidates 2 floats-IsOrdered (omega arith) (omega arith)
      candidates-valid

-- ===== src/Protocol/Judge.antt =====
-- src/laion_sieve/laion1m_v19_same_resident_formal_protocol.h: the hits of an answer against the exact truth.
-- `std::binary_search` finds, on increasing ids, exactly those that are there. Floats are a parameter.
use booleann.Base.{ℕ, suc, Bool, true, ◌&&◌, Option, none, some, List, [], ◌∷◌, ltb, if◌then◌else◌}
use booleann.Base.Ordered.{contains}

-- `!is_sorted || adjacent_find != end`, which fails on the first pair that does not increase
unfoldable pub sorted_unique : List ℕ → Bool
sorted_unique [] = true
sorted_unique (x ∷ []) = true
sorted_unique (x ∷ y ∷ xs) = ltb x y && sorted_unique (y ∷ xs)

unfoldable pub count_hits : List ℕ → List ℕ → ℕ
count_hits strict_set_ids [] = 0
count_hits strict_set_ids (id ∷ observed_ids) =
    let rest = count_hits strict_set_ids observed_ids in
    if contains strict_set_ids id then suc rest else rest

unfoldable pub strict_set_hits : List ℕ → List ℕ → Option ℕ
unfolding sorted_unique count_hits
strict_set_hits strict_set_ids observed_ids =
    if sorted_unique strict_set_ids then some (count_hits strict_set_ids observed_ids) else none

-- The comparison of floats.
module _ {Float : Type 0} (at_most : Float → Float → Bool) where
  unfoldable pub tie_aware_hits : List Float → Float → ℕ
  tie_aware_hits [] kth_distance = 0
  tie_aware_hits (distance ∷ observed_distances) kth_distance =
      let rest = tie_aware_hits observed_distances kth_distance in
      if at_most distance kth_distance then suc rest else rest

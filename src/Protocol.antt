-- ===== src/Protocol.antt =====
-- src/laion_sieve/laion1m_v19_same_resident_formal_protocol.h: the fixed schedule and routes of the paired
-- formal run, its random permutations, and how its results are judged. A throw is `none`.
pub mod Schedule
pub mod Draw
pub mod Judge
pub mod Judged
pub mod Pairs
pub mod Unbiased
pub mod Truth
pub mod Sorted
pub mod Ranked
pub mod Nearest
mod Tests
use booleann.Base.{ℕ, Bool, Option, none, some, ltb, leb, ◌==◌, if◌then◌else◌, ◌-◌, ◌+◌, ◌^◌, ◌||◌}

pub data Arm : Type 0 where
  saturated_sieve hybrid : Arm

pub data Family : Type 0 where
  equality conjunction range dnf2 : Family

pub data Backend : Type 0 where
  saturated clean_local_graph reference_sieve complete_support_exact_top_k : Backend

-- `route`; the flag is BOOLEANN_LAION_COMPLETE_EQUALITY_EXACT_ROUTE, which a build may define.
unfoldable pub route : Bool → Arm → Family → Backend
route complete_equality saturated_sieve family = saturated
route complete_equality hybrid equality =
    if complete_equality then complete_support_exact_top_k else clean_local_graph
route complete_equality hybrid conjunction = reference_sieve
route complete_equality hybrid range = complete_support_exact_top_k
route complete_equality hybrid dnf2 = complete_support_exact_top_k

-- The width of the graph search that a backend takes, for a backend that makes one.
abbrev pub backend_ef : ℕ → Backend → Option ℕ
backend_ef frozen_ef saturated = some frozen_ef
backend_ef frozen_ef reference_sieve = some frozen_ef
backend_ef frozen_ef clean_local_graph = none
backend_ef frozen_ef complete_support_exact_top_k = none

-- `route_ef`: `none` is the throw, `some none` is `nullopt`
unfoldable pub route_ef : Bool → Arm → Family → ℕ → Option (Option ℕ)
unfolding route
route_ef complete_equality arm family frozen_ef =
    if frozen_ef == 0
    then none
    else some (backend_ef frozen_ef (route complete_equality arm family))

pub data ResourceDecision : Type 0 where
  pass stop_persistent stop_runtime : ResourceDecision

-- `numeric_limits<uint64_t>::max()`
abbrev pub max_u64 : ℕ
max_u64 = 2 ^ 64 - 1

-- The six byte counts of `resource_decision`.
pub record Resources : Type 0 where
  pub saturated_persistent : ℕ
  pub reference_persistent : ℕ
  pub graph_persistent : ℕ
  pub saturated_runtime : ℕ
  pub reference_runtime : ℕ
  pub graph_observed_runtime : ℕ

unfoldable pub resource_decision : Resources → ResourceDecision
resource_decision r =
    if ltb (max_u64 - r.reference_persistent) r.graph_persistent
      || ltb (r.reference_persistent + r.graph_persistent) r.saturated_persistent
    then stop_persistent
    else if ltb (max_u64 - r.reference_runtime) r.graph_observed_runtime
        || ltb (r.reference_runtime + r.graph_observed_runtime) r.saturated_runtime
    then stop_runtime
    else pass

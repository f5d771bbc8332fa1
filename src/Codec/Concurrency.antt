-- ===== src/Codec/Concurrency.antt =====
-- src/laion/native/u24_decode.c: the counters of the calls that are active at one time. Calls run in threads
-- that interleave at the atomic operations; a thread is numbered, and makes one call after the other.
use Prim.Native.Nat.{max}
use booleann.Base.{ℕ, ◌+◌, ◌-◌, ◌≤◌, ◌<◌, ◌≡◌}
use booleann.Base.Arrays.{update}

-- Where a thread stands: outside a call; past the increment, with its `current`; in the loop, with
-- `current` and `observed`; in the body of the call.
pub data Phase : Type 0 where
  outside inside : Phase
  counted : ℕ → Phase
  comparing : ℕ → ℕ → Phase

-- `peak` is not in the code: the largest value that `active_calls` has had.
pub record Counters : Type 0 where
  pub active_calls : ℕ
  pub maximum_active_calls : ℕ
  pub threads : ℕ → Phase
  pub peak : ℕ

abbrev pub larger : ℕ → ℕ → ℕ
larger x y = max x y

-- After `u24le_reset_concurrency_v1`, with no call active.
abbrev pub reset : Counters
reset = record { active_calls = 0; maximum_active_calls = 0; threads = λ _. outside; peak = 0 }

-- The state after the thread `i` has made the step to the phase `p`.
abbrev pub move : Counters → ℕ → Phase → Counters
move s i p = record s { threads = update s.threads i p }

-- The atomic steps of `observe_concurrency_enter` and `observe_concurrency_leave`. The weak exchange may
-- fail at any time, and then reads the maximum again.
pub data Step : Counters → Counters → Type 0 where
  enter :
      (s : Counters) (i : ℕ)
      → s.threads i ≡ outside
      → Step s (record (move s i (counted (s.active_calls + 1))) {
        active_calls = s.active_calls + 1;
        peak = larger s.peak (s.active_calls + 1);
      })
  load :
      (s : Counters) (i current : ℕ)
      → s.threads i ≡ counted current
      → Step s (move s i (comparing current s.maximum_active_calls))
  raise :
      (s : Counters) (i current observed : ℕ)
      → s.threads i ≡ comparing current observed
      → observed < current
      → s.maximum_active_calls ≡ observed
      → Step s (record (move s i inside) { maximum_active_calls = current })
  retry :
      (s : Counters) (i current observed : ℕ)
      → s.threads i ≡ comparing current observed
      → observed < current
      → Step s (move s i (comparing current s.maximum_active_calls))
  settle :
      (s : Counters) (i current observed : ℕ)
      → s.threads i ≡ comparing current observed
      → current ≤ observed
      → Step s (move s i inside)
  leave :
      (s : Counters) (i : ℕ)
      → s.threads i ≡ inside
      → Step s (record (move s i outside) { active_calls = s.active_calls - 1 })

-- The states that some interleaving reaches.
pub data IsReachable : Counters → Type 0 where
  start : IsReachable reset
  step : (s t : Counters) → IsReachable s → Step s t → IsReachable t

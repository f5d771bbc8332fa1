-- ===== src/Codec/Peak.antt =====
-- The maximum that src/laion/native/u24_decode.c keeps of its active calls.
use booleann.Base.{
  ℕ, ◌+◌, ◌≤◌, ◌≡◌, ◌⊎◌, inl, inr, arith, subst, Bool-cases, ◌==◌, dec_le, true, false,
  if◌then◌else◌,
}
use booleann.Base.Arrays.{update}
use booleann.Codec.Concurrency.{
  Phase, outside, inside, counted, comparing, Counters, Step, enter, load, raise, retry, settle,
  leave, IsReachable, start, step, reset, move, larger,
}

-- The count that a thread has yet to compare with the maximum.
abbrev pub IsPending : ℕ → Phase → Type 0
IsPending n outside = ⊥
IsPending n inside = ⊥
IsPending n (counted current) = current ≡ n
IsPending n (comparing current observed) = current ≡ n

-- What a thread has read is no more than the maximum.
abbrev Observes : ℕ → Phase → Type 0
Observes n outside = Unit
Observes n inside = Unit
Observes n (counted current) = Unit
Observes n (comparing current observed) = observed ≤ n

-- A pending count is a number of calls that were active.
abbrev Counts : ℕ → Phase → Type 0
Counts n outside = Unit
Counts n inside = Unit
Counts n (counted current) = current ≤ n
Counts n (comparing current observed) = current ≤ n

record Invariant (s : Counters) : Type 0 where
  low : s.maximum_active_calls ≤ s.peak
  observed : (i : ℕ) → Observes s.maximum_active_calls (s.threads i)
  counts : (i : ℕ) → Counts s.peak (s.threads i)
  high : (s.peak ≤ s.maximum_active_calls) ⊎ ((i : ℕ) × IsPending s.peak (s.threads i))

-- A family that holds of the new phase and of all old ones holds after the move.
at_update :
    (P : Phase → Type 0) (threads : ℕ → Phase) (i : ℕ) (p : Phase)
    → P p
    → ((j : ℕ) → P (threads j))
    → (j : ℕ) → P (update threads i p j)
at_update P threads i p new old j = elim (i == j) as (λ b. P (if b then p else threads j)) [
  | true ↦ new
  | false ↦ old j
]

reset-Invariant : Invariant reset
reset-Invariant = record {
  low = omega arith;
  observed = λ i. tt;
  counts = λ i. tt;
  high = inl (omega arith);
}

Observes-weaken : (n m : ℕ) (p : Phase) → n ≤ m → Observes n p → Observes m p
Observes-weaken n m outside h k = tt
Observes-weaken n m inside h k = tt
Observes-weaken n m (counted current) h k = tt
Observes-weaken n m (comparing current observed) h k = omega arith

Counts-weaken : (n m : ℕ) (p : Phase) → n ≤ m → Counts n p → Counts m p
Counts-weaken n m outside h k = tt
Counts-weaken n m inside h k = tt
Counts-weaken n m (counted current) h k = omega arith
Counts-weaken n m (comparing current observed) h k = omega arith

-- After a move, some thread still has the peak to report, unless the maximum has reached it.
still_high :
    (s : Counters) (i : ℕ) (p : Phase) (maximum : ℕ)
    → (s.peak ≤ s.maximum_active_calls) ⊎ ((j : ℕ) × IsPending s.peak (s.threads j))
    → s.maximum_active_calls ≤ maximum
    → (IsPending s.peak (s.threads i) → (s.peak ≤ maximum) ⊎ IsPending s.peak p)
    → (s.peak ≤ maximum) ⊎ ((j : ℕ) × IsPending s.peak (update s.threads i p j))
still_high s i p maximum (inl h) k own = inl (omega arith)
still_high s i p maximum (inr (j, w)) k own = elim (Bool-cases (i == j)) [
  | inr e ↦ inr (j, rw e w)
  | inl e ↦
      let same : j ≡ i = ground (arith, e) in
      elim (own (subst (λ j. IsPending s.peak (s.threads j)) same w)) [
        | inl h ↦ inl h
        | inr v ↦ inr (j, rw e v)
      ]
]

module _ (s : Counters) (v : Invariant s) (i : ℕ) where
  -- A move that changes nothing but the phase.
  move-Invariant :
      (p : Phase)
      → Observes s.maximum_active_calls p
      → Counts s.peak p
      → (IsPending s.peak (s.threads i) → (s.peak ≤ s.maximum_active_calls) ⊎ IsPending s.peak p)
      → Invariant (move s i p)
  move-Invariant p h k own = record {
    low = v.low;
    observed = at_update (Observes s.maximum_active_calls) s.threads i p h v.observed;
    counts = at_update (Counts s.peak) s.threads i p k v.counts;
    high = still_high s i p s.maximum_active_calls v.high (omega arith) own;
  }

Step-Invariant : (s t : Counters) → Invariant s → Step s t → Invariant t
Step-Invariant _ _ v (enter s i e) =
    let n = s.active_calls + 1 in
    record {
      low = let low = v.low in omega arith;
      observed = at_update (Observes s.maximum_active_calls) s.threads i (counted n) tt v.observed;
      counts =
          at_update (Counts (larger s.peak n)) s.threads i (counted n) (omega arith)
            (λ j. Counts-weaken s.peak (larger s.peak n) (s.threads j) (omega arith) (v.counts j));
      high = elim (dec_le n s.peak) [
        | no h ↦ let self : (i == i) ≡ true = ground arith in inr (i, rw self (omega arith))
        | yes h ↦
            subst
              (λ m.
                (m ≤ s.maximum_active_calls)
                ⊎ ((j : ℕ) × IsPending m (update s.threads i (counted n) j)))
              (omega arith)
              (still_high s i (counted n) s.maximum_active_calls v.high (omega arith)
                (λ w. absurd (subst (IsPending s.peak) e w)))
      ];
    }
Step-Invariant _ _ v (load s i current e) =
    move-Invariant s v i (comparing current s.maximum_active_calls) (omega arith)
      (subst (Counts s.peak) e (v.counts i)) (λ w. inr (subst (IsPending s.peak) e w))
Step-Invariant _ _ v (retry s i current observed e h) =
    move-Invariant s v i (comparing current s.maximum_active_calls) (omega arith)
      (subst (Counts s.peak) e (v.counts i)) (λ w. inr (subst (IsPending s.peak) e w))
Step-Invariant _ _ v (settle s i current observed e h) = move-Invariant s v i inside tt tt (λ w.
    let same = subst (IsPending s.peak) e w in
    let seen = subst (Observes s.maximum_active_calls) e (v.observed i) in inl (omega arith))
Step-Invariant _ _ v (leave s i e) =
    let moved = move-Invariant s v i outside tt tt (λ w. absurd (subst (IsPending s.peak) e w)) in
    record { low = moved.low; observed = moved.observed; counts = moved.counts; high = moved.high }
Step-Invariant _ _ v (raise s i current observed e h k) =
    let low = v.low in
    let count = subst (Counts s.peak) e (v.counts i) in
    record {
      low = count;
      observed = at_update (Observes current) s.threads i inside tt (λ j.
          Observes-weaken s.maximum_active_calls current (s.threads j) (omega arith)
            (v.observed j));
      counts = at_update (Counts s.peak) s.threads i inside tt v.counts;
      high =
          still_high s i inside current v.high (omega arith)
            (λ w. let same = subst (IsPending s.peak) e w in inl (omega arith));
    }

IsReachable-Invariant : (s : Counters) → IsReachable s → Invariant s
IsReachable-Invariant _ start = reset-Invariant
IsReachable-Invariant _ (step s t r next) = Step-Invariant s t (IsReachable-Invariant s r) next

-- In every state that some interleaving of the calls reaches from the reset, and in which no call is
-- between its increment and the end of its loop, the maximum is the largest value that the number of
-- active calls has had.
pub maximum_is_peak :
    (s : Counters)
    → IsReachable s
    → ((i : ℕ) → (s.threads i ≡ outside) ⊎ (s.threads i ≡ inside))
    → s.maximum_active_calls ≡ s.peak
maximum_is_peak s r quiet =
    let v = IsReachable-Invariant s r in
    let low = v.low in
    elim v.high [
      | inl h ↦ omega arith
      | inr (i, w) ↦ elim (quiet i) [
        | inl e ↦ absurd (subst (IsPending s.peak) e w)
        | inr e ↦ absurd (subst (IsPending s.peak) e w)
      ]
    ]

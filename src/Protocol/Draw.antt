-- ===== src/Protocol/Draw.antt =====
-- src/laion_sieve/laion1m_v19_same_resident_formal_protocol.h: the random numbers and the shuffle. The draw
-- repeats until a value is not below the threshold; here it makes so many attempts.
use Prim.Native.Nat.{bit_xor}
use booleann.Base.{
  ℕ, zero, suc, ◌+◌, ◌-◌, ◌*◌, ◌/◌, ◌%◌, ◌^◌, Option, none, some, List, [], ◌∷◌, leb, ◌==◌,
  if◌then◌else◌, get_or, set,
}
use booleann.Base.Options.{◌>>=◌}

abbrev u64 : ℕ → ℕ
u64 x = x % 2 ^ 64

-- The value and the new state.
unfoldable pub splitmix64_next : ℕ → ℕ × ℕ
splitmix64_next state =
    let state = u64 (state + 0x9e3779b97f4a7c15) in
    let value = u64 (bit_xor state (state / 2 ^ 30) * 0xbf58476d1ce4e5b9) in
    let value = u64 (bit_xor value (value / 2 ^ 27) * 0x94d049bb133111eb) in
    (bit_xor value (value / 2 ^ 31), state)

-- `(uint64_t(0) - bound) % bound`
unfoldable pub threshold : ℕ → ℕ
threshold bound = u64 (2 ^ 64 - bound) % bound

-- The loop of `bounded_draw`; `none` after so many attempts without a value.
unfoldable pub attempts : ℕ → ℕ → ℕ → Option (ℕ × ℕ)
unfolding splitmix64_next threshold
attempts zero state bound = none
attempts (suc fuel) state bound =
    let drawn = splitmix64_next state in
    let rest = attempts fuel drawn.1 bound in
    if leb (threshold bound) drawn.0 then some (drawn.0 % bound, drawn.1) else rest

unfoldable pub bounded_draw : ℕ → ℕ → ℕ → Option (ℕ × ℕ)
unfolding attempts
bounded_draw fuel state bound = if bound == 0 then none else attempts fuel state bound

-- `std::iota` from `first`
unfoldable pub iota : ℕ → ℕ → List ℕ
iota first zero = []
iota first (suc count) = first ∷ iota (first + 1) count

unfoldable pub swap : List ℕ → ℕ → ℕ → List ℕ
swap xs i j = set (set xs i (get_or xs j 0)) j (get_or xs i 0)

-- The loop of `frozen_permutation`, with `remaining` going down to 1.
unfoldable pub shuffle : ℕ → ℕ → ℕ → List ℕ → Option (List ℕ)
unfolding bounded_draw swap
shuffle fuel zero state result = some result
shuffle fuel (suc zero) state result = some result
shuffle fuel (suc (suc remaining)) state result = do
  drawn ← bounded_draw fuel state (suc (suc remaining))
  shuffle fuel (suc remaining) drawn.1 (swap result (suc remaining) drawn.0)

unfoldable pub frozen_permutation : ℕ → ℕ → ℕ → Option (List ℕ)
unfolding iota shuffle
frozen_permutation fuel count seed = shuffle fuel count seed (iota 0 count)

-- ===== src/Codec/Tests.antt =====
-- Runs of the support decoders of src/laion/native, and the theorems at them.
use booleann.Base.{
  ℕ, ◌≤◌, ◌^◌, ◌≡◌, refl, true, false, ◌⊎◌, inl, inr, ◌==◌, if◌then◌else◌, some, none, List, [],
  ◌∷◌, length, arith,
}
use booleann.Base.Ordered.{IsBelow}
use booleann.Codec.{Target, u24le_decode, delta16le_decode, u24_rows}
use booleann.Codec.Repeat.{u24le_decode_repeat}
use booleann.Codec.Concurrency.{
  outside, inside, counted, comparing, Counters, enter, load, raise, IsReachable, start, step,
  reset, move,
}
use booleann.Codec.Peak.{maximum_is_peak}
use booleann.Codec.RoundTrip.{
  encode_u24, encode_delta16, u24le_decode-encode_u24, encode_u24-u24le_decode,
}
use booleann.Codec.Delta.{
  IsStepped, delta16le_decode-encode_delta16, encode_delta16-delta16le_decode,
}

abbrev target : Target
target = record { has_dst = true; dst_capacity = 4; has_count = true }

abbrev bytes : List ℕ
bytes = 0x10 ∷ 0x02 ∷ 0 ∷ 0 ∷ 0x00 ∷ 0x01 ∷ 5 ∷ 0 ∷ []

delta-run :
    delta16le_decode (some bytes) target
    ≡ record { status = 0; written = 528 ∷ 784 ∷ 789 ∷ []; decoded_count = some 3 }
unfolding delta16le_decode
delta-run = refl

-- A zero step stops the loop with the rows before it written.
delta-zero_step :
    delta16le_decode (some (1 ∷ 0 ∷ 0 ∷ 0 ∷ 2 ∷ 0 ∷ 0 ∷ 0 ∷ [])) target
    ≡ record { status = 4; written = 1 ∷ 3 ∷ []; decoded_count = none }
unfolding delta16le_decode
delta-zero_step = refl

u24le_decode-encode_u24_example :
    u24le_decode (some (encode_u24 (7 ∷ 70000 ∷ []))) target
    ≡ record { status = 0; written = 7 ∷ 70000 ∷ []; decoded_count = some 2 }
u24le_decode-encode_u24_example =
    u24le_decode-encode_u24 (7 ∷ 70000 ∷ []) target (omega arith) (refl, refl, omega arith)

encode_u24-u24le_decode_example :
    let decoded = u24le_decode (some (1 ∷ 2 ∷ 3 ∷ [])) target in
    (encode_u24 decoded.written ≡ 1 ∷ 2 ∷ 3 ∷ [])
    × IsBelow (2 ^ 24) decoded.written
    × (decoded.decoded_count ≡ some (length decoded.written))
    × (length decoded.written ≤ 4)
unfolding u24le_decode
encode_u24-u24le_decode_example = encode_u24-u24le_decode (1 ∷ 2 ∷ 3 ∷ []) target (omega arith) refl

delta16le_decode-encode_delta16_example :
    delta16le_decode (some (encode_delta16 (528 ∷ 784 ∷ 789 ∷ []))) target
    ≡ record { status = 0; written = 528 ∷ 784 ∷ 789 ∷ []; decoded_count = some 3 }
delta16le_decode-encode_delta16_example =
    delta16le_decode-encode_delta16 528 (784 ∷ 789 ∷ []) target (omega arith) (omega arith)
      (refl, refl, omega arith)

encode_delta16-delta16le_decode_example :
    let decoded = delta16le_decode (some bytes) target in
    (x : ℕ) × (xs : List ℕ) × (decoded.written ≡ x ∷ xs)
    × (x ≤ 999999)
    × IsStepped x xs
    × (encode_delta16 decoded.written ≡ bytes)
    × (decoded.decoded_count ≡ some (length decoded.written))
    × (length decoded.written ≤ 4)
unfolding delta16le_decode
encode_delta16-delta16le_decode_example =
    encode_delta16-delta16le_decode 0x10 0x02 0 0 (0x00 ∷ 0x01 ∷ 5 ∷ 0 ∷ []) target (omega arith)
      refl

repeat_run :
    u24le_decode_repeat (some (1 ∷ 0 ∷ 0 ∷ 2 ∷ 0 ∷ 0 ∷ [])) true 2 3 true
    ≡ record { status = 0; written = 1 ∷ 2 ∷ []; checksum = some 15 }
unfolding u24le_decode_repeat u24_rows
repeat_run = refl

-- One thread in the body of its call, after the four states on the way.
abbrev counters : Counters
counters =
    record (move
      (move (record (move reset 0 (counted 1)) { active_calls = 1; peak = 1 }) 0 (comparing 1 0)) 0
      inside) { maximum_active_calls = 1 }

counters-IsReachable : IsReachable counters
counters-IsReachable =
    step _ _ (step _ _ (step _ _ start (enter reset 0 refl)) (load _ 0 1 refl))
      (raise _ 0 1 0 refl (omega arith) refl)

counters_quiet : (i : ℕ) → (counters.threads i ≡ outside) ⊎ (counters.threads i ≡ inside)
counters_quiet i =
    elim (0 == i)
      as (λ b.
        ((if b then inside else if b then comparing 1 0 else if b then counted 1 else outside)
          ≡ outside)
        ⊎ ((if b then inside else if b then comparing 1 0 else if b then counted 1 else outside)
            ≡ inside)) [ true ↦ inr refl | false ↦ inl refl ]

maximum_is_peak_example : counters.maximum_active_calls ≡ 1
maximum_is_peak_example = maximum_is_peak counters counters-IsReachable counters_quiet

-- ===== src/Protocol/Schedule.antt =====
-- src/laion_sieve/laion1m_v19_same_resident_formal_protocol.h: the order of the blocks. A string is the list of its
-- bytes.
use Prim.Native.Nat.{bit_xor}
use booleann.Base.{
  ℕ, zero, suc, ◌*◌, ◌/◌, ◌%◌, ◌^◌, Bool, true, false, Option, none, some, List, [], ◌∷◌, ◌++◌, leb,
  ◌==◌, if◌then◌else◌,
}
use booleann.Base.Options.{◌>>=◌}
use booleann.Protocol.{Arm, saturated_sieve, hybrid}

-- `kPairs` and `kBlocks`
abbrev pub pairs : ℕ
pairs = 8

abbrev pub blocks : ℕ
blocks = 2 * pairs

-- The codes of S and H.
unfoldable pub arm_name : Arm → List ℕ
arm_name saturated_sieve = 83 ∷ []
arm_name hybrid = 72 ∷ []

abbrev same : Bool → Bool → Bool
same true b = b
same false true = false
same false false = true

unfoldable pub scheduled_arm : ℕ → Option Arm
scheduled_arm block =
    let even_pair = (block / 2) % 2 == 0 in
    let first_in_pair = block % 2 == 0 in
    let arm = if same even_pair first_in_pair then saturated_sieve else hybrid in
    if leb blocks block then none else some arm

-- SH or HS
unfoldable pub pair_order : ℕ → Option (List ℕ)
pair_order pair =
    let order = if pair % 2 == 0 then 83 ∷ 72 ∷ [] else 72 ∷ 83 ∷ [] in
    if leb pairs pair then none else some order

-- The loop of `schedule_string`, after so many blocks.
unfoldable pub schedule_from : ℕ → Option (List ℕ)
unfolding scheduled_arm arm_name
schedule_from zero = some []
schedule_from (suc block) = do
  result ← schedule_from block
  arm ← scheduled_arm block
  some (result ++ arm_name arm)

unfoldable pub schedule_string : Option (List ℕ)
unfolding schedule_from
schedule_string = schedule_from blocks

-- FNV-1a over bytes, in 64 bits.
unfoldable pub fnv : ℕ → List ℕ → ℕ
fnv hash [] = hash
fnv hash (value ∷ values) = fnv (bit_xor hash value * 1099511628211 % 2 ^ 64) values

unfoldable pub schedule_fingerprint : Option ℕ
unfolding schedule_string fnv
schedule_fingerprint = do schedule ← schedule_string; some (fnv 1469598103934665603 schedule)

-- `permutation_fingerprint`: the four bytes of each value, the lowest first
unfoldable pub permutation_fingerprint : ℕ → List ℕ → ℕ
unfolding fnv
permutation_fingerprint hash [] = hash
permutation_fingerprint hash (value ∷ order) =
    permutation_fingerprint
      (fnv hash
        (value % 256 ∷ value / 2 ^ 8 % 256 ∷ value / 2 ^ 16 % 256 ∷ value / 2 ^ 24 % 256 ∷ []))
      order

-- ===== src/Protocol/Pairs.antt =====
-- The schedule of src/laion_sieve/laion1m_v19_same_resident_formal_protocol.h runs its blocks in pairs.
use booleann.Base.{ℕ, zero, suc, ◌+◌, ◌*◌, ◌<◌, ◌≡◌, refl, Option, some, List, ◌++◌, arith}
use booleann.Base.Options.{◌>>=◌}
use booleann.Protocol.Schedule.{pairs, arm_name, scheduled_arm, pair_order}

-- The arms of two neighbouring blocks.
unfoldable pub pair_of_blocks : ℕ → Option (List ℕ)
pair_of_blocks pair = do
  first ← scheduled_arm (2 * pair)
  second ← scheduled_arm (2 * pair + 1)
  some (arm_name first ++ arm_name second)

-- The blocks 2p and 2p + 1 run the two arms in the order that the pair p has.
pub pair_of_blocks_lem : (pair : ℕ) → pair < pairs → pair_of_blocks pair ≡ pair_order pair
unfolding pair_of_blocks scheduled_arm arm_name pair_order
pair_of_blocks_lem zero h = refl
pair_of_blocks_lem (suc zero) h = refl
pair_of_blocks_lem (suc (suc zero)) h = refl
pair_of_blocks_lem (suc (suc (suc zero))) h = refl
pair_of_blocks_lem (suc (suc (suc (suc zero)))) h = refl
pair_of_blocks_lem (suc (suc (suc (suc (suc zero))))) h = refl
pair_of_blocks_lem (suc (suc (suc (suc (suc (suc zero)))))) h = refl
pair_of_blocks_lem (suc (suc (suc (suc (suc (suc (suc zero))))))) h = refl
pair_of_blocks_lem (suc (suc (suc (suc (suc (suc (suc (suc pair)))))))) h = absurd (omega arith)

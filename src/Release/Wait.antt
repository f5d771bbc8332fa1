-- ===== src/Release/Wait.antt =====
-- src/laion_sieve/pass_release_contract.h: `wait_for_release_then_ack`. What the loop sees of the world in
-- one turn is a poll: the stop request, the clock, and the two files as `read_visible_contract_file` finds
-- them.
use booleann.Base.{ℕ, Bool, none, some, List, [], ◌∷◌, if◌then◌else◌}
use booleann.Release.{
  AckRecord, ReleaseRecord, ContractSchemas, validate_canonical_ack, validate_canonical_release,
  text_eq,
}
use booleann.Release.Sha256.{sha256_hex}

-- No file, a file that is refused by a throw, or the bytes of a regular file that stayed as it was.
pub data Read : Type 0 where
  absent unreadable : Read
  visible : List ℕ → Read

pub record Poll : Type 0 where
  pub stopped : Bool
  pub expired : Bool
  pub release : Read
  pub acknowledgement : Read

-- The loop goes on, throws, or returns.
pub data Outcome : Type 0 where
  waiting refused : Outcome
  acknowledged : AckRecord → Outcome

module _ (state_id : List ℕ) (pass : ℕ) (schemas : ContractSchemas) where
  -- The acknowledgement, once a release has been validated.
  unfoldable pub accept_ack : ReleaseRecord → Read → Outcome
  accept_ack release absent = refused
  accept_ack release unreadable = refused
  accept_ack release (visible payload) =
      elim (validate_canonical_ack payload state_id pass schemas) [
        | none ↦ refused
        | some record' ↦
            if text_eq (sha256_hex payload) release.ack_sha256
            then acknowledged record'
            else refused
      ]

  -- What a turn does with the files.
  unfoldable pub look : Read → Read → Outcome
  unfolding accept_ack
  look absent ack = waiting
  look unreadable ack = refused
  look (visible payload) ack = elim (validate_canonical_release payload state_id pass schemas) [
    | none ↦ refused
    | some release ↦ accept_ack release ack
  ]

  -- The turns, one poll each.
  unfoldable pub wait_for_release_then_ack : List Poll → Outcome
  unfolding look
  wait_for_release_then_ack [] = waiting
  wait_for_release_then_ack (poll ∷ polls) =
      if poll.stopped
      then refused
      else if poll.expired
      then refused
      else elim (look poll.release poll.acknowledgement) [
        | waiting ↦ wait_for_release_then_ack polls
        | refused ↦ refused
        | acknowledged record' ↦ acknowledged record'
      ]

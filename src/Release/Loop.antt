-- ===== src/Release/Loop.antt =====
-- The waiting loop of src/laion_sieve/pass_release_contract.h over its turns.
use booleann.Base.{
  ℕ, ◌≡◌, ◌≢◌, ◌⊎◌, refl, ap, sym, ◌∙◌, Bool, true, false, ◌||◌, List, [], ◌∷◌, ◌++◌, arith,
  Bool-cases, inl, inr,
}
use booleann.Release.{AckRecord, ContractSchemas}
use booleann.Release.Wait.{
  Poll, Outcome, waiting, refused, acknowledged, look, wait_for_release_then_ack,
}
use booleann.Release.Granted.{AllQuiet, IsGrant, look-waiting, look-IsGrant}

Outcome-cases :
    (o : Outcome) → (o ≡ waiting) ⊎ ((o ≡ refused) ⊎ ((r : AckRecord) × (o ≡ acknowledged r)))
Outcome-cases waiting = inl refl
Outcome-cases refused = inr (inl refl)
Outcome-cases (acknowledged r) = inr (inr (r, refl))

-- A turn that saw a stop request or the deadline.
abbrev pub any_over : List Poll → Bool
any_over [] = false
any_over (poll ∷ polls) = poll.stopped || poll.expired || any_over polls

module _ (state_id : List ℕ) (pass : ℕ) (schemas : ContractSchemas) where
  abbrev wait : List Poll → Outcome
  wait = wait_for_release_then_ack state_id pass schemas

  -- The loop returns an acknowledgement only in a turn that saw, in time, the canonical acknowledgement of
  -- this state and pass and the canonical release with its digest; no release was visible in the turns
  -- before.
  pub wait-IsGrant :
      (polls : List Poll) (r : AckRecord)
      → wait_for_release_then_ack state_id pass schemas polls ≡ acknowledged r
      → (before : List Poll) × (poll : Poll) × (after : List Poll) × (polls
          ≡ before ++ poll ∷ after)
        × AllQuiet before
        × IsGrant state_id pass schemas r poll
  unfolding wait_for_release_then_ack
  wait-IsGrant [] r e = absurd (cc (e))
  wait-IsGrant (poll ∷ polls) r e = elim (Bool-cases poll.stopped) [
    | inl f ↦ let other : wait (poll ∷ polls) ≡ refused = rw f refl in absurd (cc (e, other))
    | inr f ↦ elim (Bool-cases poll.expired) [
      | inl g ↦ let other : wait (poll ∷ polls) ≡ refused = rw (f, g) refl in absurd (cc (e, other))
      | inr g ↦
          elim (Outcome-cases (look state_id pass schemas poll.release poll.acknowledgement)) [
            | inl h ↦
                let other : wait (poll ∷ polls) ≡ wait polls = rw (f, g, h) refl in
                let (before, granted, after, same, quiet, grant) =
                  wait-IsGrant polls r (sym other ∙ e) in
                let none_yet =
                  look-waiting state_id pass schemas poll.release poll.acknowledgement h in
                (
                  poll ∷ before,
                  granted,
                  after,
                  ap (λ ps. poll ∷ ps) same,
                  ((f, g, none_yet), quiet),
                  grant,
                )
            | inr (inl h) ↦
                let other : wait (poll ∷ polls) ≡ refused = rw (f, g, h) refl in
                absurd (cc (e, other))
            | inr (inr (found, h)) ↦
                let other : wait (poll ∷ polls) ≡ acknowledged found = rw (f, g, h) refl in
                let same : found ≡ r = cc (e, other) in
                (
                  [],
                  poll,
                  polls,
                  refl,
                  tt,
                  look-IsGrant state_id pass schemas poll r f g (h ∙ ap acknowledged same),
                )
          ]
    ]
  ]

  -- A stop request or the deadline ends the loop, if nothing has ended it before.
  pub wait-ends :
      (polls : List Poll)
      → any_over polls ≡ true
      → wait_for_release_then_ack state_id pass schemas polls ≢ waiting
  unfolding wait_for_release_then_ack
  wait-ends [] h e = absurd (cc (h))
  wait-ends (poll ∷ polls) h e = elim (Bool-cases poll.stopped) [
    | inl f ↦ let other : wait (poll ∷ polls) ≡ refused = rw f refl in absurd (cc (e, other))
    | inr f ↦ elim (Bool-cases poll.expired) [
      | inl g ↦ let other : wait (poll ∷ polls) ≡ refused = rw (f, g) refl in absurd (cc (e, other))
      | inr g ↦
          elim (Outcome-cases (look state_id pass schemas poll.release poll.acknowledgement)) [
            | inl k ↦
                let other : wait (poll ∷ polls) ≡ wait polls = rw (f, g, k) refl in
                wait-ends polls (ground (arith, h, f, g)) (sym other ∙ e)
            | inr (inl k) ↦
                let other : wait (poll ∷ polls) ≡ refused = rw (f, g, k) refl in
                absurd (cc (e, other))
            | inr (inr (found, k)) ↦
                let other : wait (poll ∷ polls) ≡ acknowledged found = rw (f, g, k) refl in
                absurd (cc (e, other))
          ]
    ]
  ]

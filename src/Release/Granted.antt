-- ===== src/Release/Granted.antt =====
-- The waiting loop of src/laion_sieve/pass_release_contract.h: what it has seen when it returns, and that it
-- does not outlast its deadline.
use booleann.Base.{
  ℕ, ◌≡◌, ◌≢◌, refl, ap, sym, ◌∙◌, false, some, List, [], ◌∷◌, Bool-cases, Option-cases, inl, inr,
}
use booleann.Release.{
  AckRecord, ReleaseRecord, ContractSchemas, text_eq, canonical_ack, canonical_release,
  validate_canonical_ack, validate_canonical_release,
}
use booleann.Release.Sha256.{sha256_hex}
use booleann.Release.Exact.{
  text_eq_sound, validate_canonical_ack-IsExact, validate_canonical_release-IsExact,
}
use booleann.Release.Wait.{
  Read, absent, unreadable, visible, Poll, waiting, refused, acknowledged, accept_ack, look,
}

-- A turn that saw no reason to end.
abbrev pub IsQuiet : Poll → Type 0
IsQuiet poll = (poll.stopped ≡ false) × (poll.expired ≡ false) × (poll.release ≡ absent)

abbrev pub AllQuiet : List Poll → Type 0
AllQuiet [] = Unit
AllQuiet (poll ∷ polls) = IsQuiet poll × AllQuiet polls

module _ (state_id : List ℕ) (pass : ℕ) (schemas : ContractSchemas) where
  -- A turn in time that saw the canonical acknowledgement of this state and pass, and the canonical
  -- release with its digest.
  pub record IsGrant (r : AckRecord) (poll : Poll) : Type 0 where
    pub in_time : (poll.stopped ≡ false) × (poll.expired ≡ false)
    pub release : ReleaseRecord
    pub released : poll.release ≡ visible (canonical_release release schemas)
    pub acked : poll.acknowledgement ≡ visible (canonical_ack r schemas)
    pub bound : release.ack_sha256 ≡ sha256_hex (canonical_ack r schemas)
    pub identity :
        (r.state_id ≡ state_id)
        × (r.pass ≡ pass)
        × (release.state_id ≡ state_id)
        × (release.pass ≡ pass)

  accept_ack-inv :
      (release : ReleaseRecord) (ack : Read) (r : AckRecord)
      → accept_ack state_id pass schemas release ack ≡ acknowledged r
      → (ack ≡ visible (canonical_ack r schemas))
        × (release.ack_sha256 ≡ sha256_hex (canonical_ack r schemas))
        × (r.state_id ≡ state_id)
        × (r.pass ≡ pass)
  unfolding accept_ack
  accept_ack-inv release absent r e = absurd (cc (e))
  accept_ack-inv release unreadable r e = absurd (cc (e))
  accept_ack-inv release (visible payload) r e =
      elim (Option-cases (validate_canonical_ack payload state_id pass schemas)) [
        | inl f ↦
            let other : accept_ack state_id pass schemas release (visible payload) ≡ refused =
              rw (f, accept_ack) refl in
            absurd (cc (e, other))
        | inr (found, f) ↦ elim (Bool-cases (text_eq (sha256_hex payload) release.ack_sha256)) [
          | inr g ↦
              let other : accept_ack state_id pass schemas release (visible payload) ≡ refused =
                rw (f, accept_ack, g) refl in
              absurd (cc (e, other))
          | inl g ↦
              let other : accept_ack state_id pass schemas release (visible payload)
                  ≡ acknowledged found =
                rw (f, accept_ack, g) refl in
              let same : found ≡ r = cc (e, other) in
              let (text, state, number) =
                validate_canonical_ack-IsExact payload state_id pass schemas r (f ∙ ap some same) in
              (ap visible text, sym (text_eq_sound _ _ g) ∙ ap sha256_hex text, state, number)
        ]
      ]

  look-inv :
      (release ack : Read) (r : AckRecord)
      → look state_id pass schemas release ack ≡ acknowledged r
      → (found : ReleaseRecord) × (release ≡ visible (canonical_release found schemas))
        × (found.state_id ≡ state_id)
        × (found.pass ≡ pass)
        × (accept_ack state_id pass schemas found ack ≡ acknowledged r)
  unfolding look
  look-inv absent ack r e = absurd (cc (e))
  look-inv unreadable ack r e = absurd (cc (e))
  look-inv (visible payload) ack r e =
      elim (Option-cases (validate_canonical_release payload state_id pass schemas)) [
        | inl f ↦
            let other : look state_id pass schemas (visible payload) ack ≡ refused =
              rw (f, look) refl in
            absurd (cc (e, other))
        | inr (found, f) ↦
            let other : look state_id pass schemas (visible payload) ack
                ≡ accept_ack state_id pass schemas found ack =
              rw (f, look) refl in
            let (text, state, number) =
              validate_canonical_release-IsExact payload state_id pass schemas found f in
            (found, ap visible text, state, number, sym other ∙ e)
      ]

  accept_ack-ends :
      (release : ReleaseRecord) (ack : Read)
      → accept_ack state_id pass schemas release ack ≢ waiting
  unfolding accept_ack
  accept_ack-ends release absent e = absurd (cc (e))
  accept_ack-ends release unreadable e = absurd (cc (e))
  accept_ack-ends release (visible payload) e =
      elim (Option-cases (validate_canonical_ack payload state_id pass schemas)) [
        | inl f ↦
            let other : accept_ack state_id pass schemas release (visible payload) ≡ refused =
              rw (f, accept_ack) refl in
            absurd (cc (e, other))
        | inr (found, f) ↦ elim (Bool-cases (text_eq (sha256_hex payload) release.ack_sha256)) [
          | inr g ↦
              let other : accept_ack state_id pass schemas release (visible payload) ≡ refused =
                rw (f, accept_ack, g) refl in
              absurd (cc (e, other))
          | inl g ↦
              let other : accept_ack state_id pass schemas release (visible payload)
                  ≡ acknowledged found =
                rw (f, accept_ack, g) refl in
              absurd (cc (e, other))
        ]
      ]

  -- A turn waits only as long as there is no release.
  pub look-waiting :
      (release ack : Read) → look state_id pass schemas release ack ≡ waiting → release ≡ absent
  unfolding look
  look-waiting absent ack e = refl
  look-waiting unreadable ack e = absurd (cc (e))
  look-waiting (visible payload) ack e =
      elim (Option-cases (validate_canonical_release payload state_id pass schemas)) [
        | inl f ↦
            let other : look state_id pass schemas (visible payload) ack ≡ refused =
              rw (f, look) refl in
            absurd (cc (e, other))
        | inr (found, f) ↦
            let other : look state_id pass schemas (visible payload) ack
                ≡ accept_ack state_id pass schemas found ack =
              rw (f, look) refl in
            absurd (accept_ack-ends found ack (sym other ∙ e))
      ]

  pub look-IsGrant :
      (poll : Poll) (r : AckRecord)
      → poll.stopped ≡ false
      → poll.expired ≡ false
      → look state_id pass schemas poll.release poll.acknowledgement ≡ acknowledged r
      → IsGrant r poll
  look-IsGrant poll r stop time e =
      let (found, released, state, number, accepted) =
        look-inv poll.release poll.acknowledgement r e in
      let (acked, bound, ack_state, ack_number) =
        accept_ack-inv found poll.acknowledgement r accepted in
      record {
        in_time = (stop, time);
        release = found;
        released = released;
        acked = acked;
        bound = bound;
        identity = (ack_state, ack_number, state, number);
      }

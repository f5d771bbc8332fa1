-- ===== src/Release/Exact.antt =====
-- The validators of src/laion_sieve/pass_release_contract.h accept only the exact text of a record.
use booleann.Base.{
  ℕ, ◌≡◌, refl, subst, Bool, true, false, ◌&&◌, some, List, [], ◌∷◌, length, ◌==◌, arith,
}
use booleann.Base.Options.{bind-inv, keep-inv}
use booleann.Release.Key
use booleann.Release.{
  AckRecord, ReleaseRecord, ContractSchemas, text_eq, canonical_ack, canonical_release, read_ack,
  read_release, canonical_string_value, all_hex, validate_canonical_ack, validate_canonical_release,
}

pub text_eq_sound : (x y : List ℕ) → text_eq x y ≡ true → x ≡ y
unfolding text_eq
text_eq_sound [] [] h = refl
text_eq_sound [] (d ∷ y) h = absurd (cc (h))
text_eq_sound (c ∷ x) [] h = absurd (cc (h))
text_eq_sound (c ∷ x) (d ∷ y) h =
    let head : c ≡ d = ground arith in
    let tail = text_eq_sound x y (ground arith) in λ i. head i ∷ tail i

and-inv : (b c : Bool) → (b && c) ≡ true → (b ≡ true) × (c ≡ true)
and-inv true c h = (refl, h)
and-inv false c h = absurd (cc (h))

module _ (payload state_id : List ℕ) (pass : ℕ) (schemas : ContractSchemas) where
  pub validate_canonical_ack-IsExact :
      (r : AckRecord)
      → validate_canonical_ack payload state_id pass schemas ≡ some r
      → (payload ≡ canonical_ack r schemas) × (r.state_id ≡ state_id) × (r.pass ≡ pass)
  unfolding validate_canonical_ack
  validate_canonical_ack-IsExact r e =
      let (found, read, e) = bind-inv (read_ack payload) _ r e in
      let (schema, named, e) = bind-inv (canonical_string_value payload Key.schema) _ r e in
      let same_state = text_eq found.state_id state_id in
      let same_text = text_eq payload (canonical_ack found schemas) in
      let mine = text_eq schema schemas.ack && same_state && found.pass == pass in
      let (checks, same) = keep-inv (mine && same_text) found r e in
      let (mine, exact) = and-inv mine same_text checks in
      let (first, number) =
        and-inv (text_eq schema schemas.ack && same_state) (found.pass == pass) mine in
      let (schema_agrees, state) = and-inv (text_eq schema schemas.ack) same_state first in
      subst
        (λ (r : AckRecord).
          (payload ≡ canonical_ack r schemas) × (r.state_id ≡ state_id) × (r.pass ≡ pass))
        same (text_eq_sound _ _ exact, text_eq_sound _ _ state, ground (arith, number))

  pub validate_canonical_release-IsExact :
      (r : ReleaseRecord)
      → validate_canonical_release payload state_id pass schemas ≡ some r
      → (payload ≡ canonical_release r schemas) × (r.state_id ≡ state_id) × (r.pass ≡ pass)
  unfolding validate_canonical_release
  validate_canonical_release-IsExact r e =
      let (found, read, e) = bind-inv (read_release payload) _ r e in
      let (schema, named, e) = bind-inv (canonical_string_value payload Key.schema) _ r e in
      let same_state = text_eq found.state_id state_id in
      let same_text = text_eq payload (canonical_release found schemas) in
      let mine = text_eq schema schemas.release && same_state && found.pass == pass in
      let hex = length found.ack_sha256 == 64 && all_hex found.ack_sha256 in
      let (checks, same) = keep-inv (mine && hex && same_text) found r e in
      let (rest, exact) = and-inv (mine && hex) same_text checks in
      let (mine, is_hex) = and-inv mine hex rest in
      let (first, number) =
        and-inv (text_eq schema schemas.release && same_state) (found.pass == pass) mine in
      let (schema_agrees, state) = and-inv (text_eq schema schemas.release) same_state first in
      subst
        (λ (r : ReleaseRecord).
          (payload ≡ canonical_release r schemas) × (r.state_id ≡ state_id) × (r.pass ≡ pass))
        same (text_eq_sound _ _ exact, text_eq_sound _ _ state, ground (arith, number))

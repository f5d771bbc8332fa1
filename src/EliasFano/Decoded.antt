-- ===== src/EliasFano/Decoded.antt =====
-- The decoder of src/laion/native/elias_fano_topk.cpp on any bytes whatever: it gives a support of the
-- size that the directory names, or it writes nothing.
use Prim.Native.Nat.{bit_or}
use mathlib.Core.Option.{some-injective}
use booleann.Base.{
  ℕ, zero, suc, ◌+◌, ◌-◌, ◌*◌, ◌/◌, ◌^◌, ◌≤◌, ◌<◌, ◌≡◌, ◌≢◌, ◌⊎◌, refl, ap, subst, Bool, true, not,
  ◌&&◌, ◌||◌, Option, none, some, List, [], length, ltb, leb, ◌==◌, if◌then◌else◌, arith,
  Option-cases, Bool-cases, inl, inr,
}
use booleann.Base.Ordered.{IsSupport}
use booleann.Base.Options.{bind-inv, guard-inv}
use booleann.EliasFano.{
  ok, Account, Directory, Audit, universe, max_u64, u64, validate_directory, record_sizes,
  reset_audit,
}
use booleann.EliasFano.Decode.{
  Decoder, start, accept_row, next, read_low, decode_rows, pass, Decoded, written, two_passes,
  decode,
}

-- The least row that may come next.
abbrev floor : Decoder → ℕ
floor d = if d.index == 0 then 0 else d.previous + 1

-- A row that passes the checks of `next`, two of which concern its bits only.
accepted-inv :
    (d found : Decoder) (row : ℕ × Decoder) (p q : Bool) (decoded : ℕ)
    → (if p || q || leb universe decoded || (not (d.index == 0) && leb decoded d.previous)
        then none
        else some (decoded, record found { previous = decoded; index = d.index + 1 }))
      ≡ some row
    → (floor d ≤ row.0) × (row.0 < universe) × (floor row.1 ≡ row.0 + 1)
accepted-inv d found row p q decoded e =
    let (fine, e) =
      guard-inv (p || q || leb universe decoded || (not (d.index == 0) && leb decoded d.previous)) _
        row e in
    subst
      (λ (row : ℕ × Decoder). (floor d ≤ row.0) × (row.0 < universe) × (floor row.1 ≡ row.0 + 1))
      (some-injective _ _ e) (ground (arith, fine), ground (arith, fine), ground arith)

module _ (owner : ℕ → ℕ) (directory : Directory) (account : Account) where
  next-inv :
      (d : Decoder) (row : ℕ × Decoder)
      → next owner directory account d ≡ some row
      → (floor d ≤ row.0) × (row.0 < universe) × (floor row.1 ≡ row.0 + 1)
  unfolding next accept_row
  next-inv d row e =
      let (more, e) = guard-inv _ _ row e in
      let (found, here, e) = bind-inv _ (accept_row owner directory account d) row e in
      let high = found.0 - d.index in
      accepted-inv d found.1 row (ltb found.0 d.index) (ltb (max_u64 / 2 ^ account.lower_bits) high)
        (bit_or (u64 (high * 2 ^ account.lower_bits)) (read_low owner directory account d.index)) e

  rows-IsSupport :
      (count : ℕ) (d : Decoder)
      → let rows = decode_rows owner directory account count d in
        IsSupport (floor d) universe rows.0
        × ((d' : Decoder) → rows.1 ≡ some d' → length rows.0 ≡ count)
  unfolding decode_rows
  rows-IsSupport zero d = ((tt, tt), λ d' e. refl)
  rows-IsSupport (suc count) d = elim (Option-cases (next owner directory account d)) [
    | inl e ↦ rw (e, decode_rows) ((tt, tt), λ d' f. absurd (cc (f)))
    | inr (row, e) ↦
        let (above, below, onward) = next-inv d row e in
        let (support, counted) = rows-IsSupport count row.1 in
        let support' =
          subst (λ lo. IsSupport lo universe (decode_rows owner directory account count row.1).0)
            onward support in
        rw (e, decode_rows)
          (((above, support'.0), (below, support'.1)), λ d' f. ap suc (counted d' f))
  ]

  pass-IsSupport :
      (d : Decoder)
      → (pass owner directory account).1 ≡ some d
      → IsSupport 0 universe (pass owner directory account).0
        × (length (pass owner directory account).0 ≡ directory.rows)
  unfolding pass
  pass-IsSupport d e =
      let (support, counted) = rows-IsSupport directory.rows start in
      let (end, whole, rest) =
        bind-inv (decode_rows owner directory account directory.rows start).1 _ d e in
      (support, counted end whole)

-- The result is ok and the output a support of `rows` rows within the capacity, or the output is empty.
abbrev pub IsWhole : ℕ → ℕ → Decoded (List ℕ) → Type 0
IsWhole rows output_capacity r =
    ((r.status ≡ ok)
      × IsSupport 0 universe r.output
      × (length r.output ≡ rows)
      × (rows ≤ output_capacity))
    ⊎ ((r.status ≢ ok) × (r.output ≡ []))

written-IsWhole :
    (directory : Directory) (a : Account) (audit : Audit) (output_capacity : ℕ)
    (r : List ℕ × Option Decoder) (d : Decoder)
    → r.1 ≡ some d
    → IsSupport 0 universe r.0
    → length r.0 ≡ directory.rows
    → directory.rows ≤ output_capacity
    → IsWhole directory.rows output_capacity (written directory audit r)
unfolding written
written-IsWhole directory a audit output_capacity (rows, none) d e support counted h =
    absurd (cc (e))
written-IsWhole directory a audit output_capacity (rows, some _) d e support counted h =
    inl (refl, support, counted, h)

two_passes-IsWhole :
    (owner : ℕ → ℕ) (directory : Directory) (a : Account) (audit : Audit) (output_capacity : ℕ)
    → directory.rows ≤ output_capacity
    → IsWhole directory.rows output_capacity (two_passes owner directory a audit)
unfolding two_passes
two_passes-IsWhole owner directory a audit output_capacity h =
    elim (Option-cases (pass owner directory a).1) [
      | inl e ↦ rw (e, two_passes) (inr (λ f. absurd (cc (f)), refl))
      | inr (d, e) ↦
          let (support, counted) = pass-IsSupport owner directory a d e in
          rw (e, two_passes)
            (written-IsWhole directory a audit output_capacity (pass owner directory a) d e support
              counted h)
    ]

-- Decoding any bytes under any directory either returns ok and writes as many rows as the directory
-- says, strictly increasing, below a million and within the capacity, or it writes nothing at all.
pub decode-IsWhole :
    (abi_version : ℕ) (directory : Directory) (owner : ℕ → ℕ) (owner_bytes output_capacity : ℕ)
    → IsWhole directory.rows output_capacity
        (decode abi_version (some directory) (some owner) owner_bytes (some output_capacity) true)
unfolding decode
decode-IsWhole abi_version directory owner owner_bytes output_capacity =
    elim (Bool-cases (abi_version == 1)) [
      | inr e ↦ rw e (inr (λ f. absurd (cc (f)), refl))
      | inl e ↦ elim (Option-cases (validate_directory directory owner_bytes)) [
        | inl f ↦ rw (e, f) (inr (λ g. absurd (cc (g)), refl))
        | inr (a, f) ↦ elim (Bool-cases (ltb output_capacity directory.rows)) [
          | inl g ↦ rw (e, f, g) (inr (λ g. absurd (cc (g)), refl))
          | inr g ↦
              rw (e, f, g)
                (two_passes-IsWhole owner directory a (record_sizes directory.rows a reset_audit)
                  output_capacity (ground (arith, g)))
        ]
      ]
    ]

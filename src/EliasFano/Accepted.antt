-- ===== src/EliasFano/Accepted.antt =====
-- The directories that src/laion/native/elias_fano_topk.cpp accepts: those that match the sizes of their
-- rows, inside the owner.
use native.Mathlib.Nat.{div-le_self}
use mathlib.Core.Option.{some-injective}
use booleann.Base.{
  ℕ, ◌+◌, ◌*◌, ◌%◌, ◌^◌, ◌≤◌, ◌<◌, ◌≡◌, refl, ◌∙◌, true, false, not, ◌&&◌, ◌||◌, none, some, ltb,
  leb, ◌==◌, if◌then◌else◌, arith, Bool-cases, inl, inr, ◌↔◌, sym, subst,
}
use booleann.Base.Options.{bind-inv, guard-inv, keep-inv}
use booleann.EliasFano.{
  Account, Directory, universe, max_u64, checked_add, lower_bits_for, account_for,
  validate_directory, accept_areas,
}
use booleann.EliasFano.Sizes.{account_at, account_for-ok, lower_bits_for-log2}

-- What an owner of so many bytes needs of a directory with the sizes `a`.
pub record Fits (d : Directory) (a : Account) (owner_bytes : ℕ) : Type 0 where
  pub format : (d.version ≡ 1) × (d.reserved ≡ 0)
  pub aligned : (d.low_offset % 8 ≡ 0) × (d.high_offset % 8 ≡ 0)
  pub lower : d.lower_bits ≡ a.lower_bits
  pub adjacent : d.high_offset ≡ d.low_offset + a.low_bytes
  pub inside : d.high_offset + a.high_bytes ≤ owner_bytes

account_for-range :
    (rows : ℕ) (a : Account) → account_for rows ≡ some a → (0 < rows) × (rows ≤ universe)
unfolding account_for
account_for-range rows a e = elim (Bool-cases (rows == 0 || ltb universe rows)) [
  | inl bad ↦ absurd (let refused : account_for rows ≡ none = rw bad refl in cc (e, refused))
  | inr good ↦ (ground arith, ground arith)
]

account_for-small :
    (rows : ℕ) (a : Account)
    → account_for rows ≡ some a
    → (a.low_bytes ≤ max_u64) × (a.high_bytes ≤ max_u64)
account_for-small rows a e =
    let (h, k) = account_for-range rows a e in
    let lower = lower_bits_for rows in
    let few = lower_bits_for-log2 rows h k in
    let same : account_at rows lower ≡ a = some-injective _ _ (sym (account_for-ok rows h k) ∙ e) in
    let low_small : rows * lower ≤ 20000000 = grind arith in
    let high_small = div-le_self universe (2 ^ lower) in
    subst (λ (x : Account). (x.low_bytes ≤ max_u64) × (x.high_bytes ≤ max_u64)) same
      (omega arith, omega arith)

checks-Fits :
    (d : Directory) (owner_bytes : ℕ) (a : Account)
    → (not (d.version == 1)
        || not (d.reserved == 0)
        || d.rows == 0
        || ltb universe d.rows
        || not (d.low_offset % 8 == 0)
        || not (d.high_offset % 8 == 0))
      ≡ false
    → (d.lower_bits == a.lower_bits
        && d.high_offset == d.low_offset + a.low_bytes
        && leb (d.high_offset + a.high_bytes) owner_bytes)
      ≡ true
    → Fits d a owner_bytes
checks-Fits d owner_bytes a h k = record {
  format = (ground arith, ground arith);
  aligned = (ground arith, ground arith);
  lower = ground arith;
  adjacent = ground arith;
  inside = ground arith;
}

-- The comparisons of the areas, with sums that do not wrap.
accept_areas-if :
    (d : Directory) (owner_bytes : ℕ) (a : Account)
    → owner_bytes < 2 ^ 64
    → d.high_offset < 2 ^ 64
    → (a.low_bytes ≤ max_u64) × (a.high_bytes ≤ max_u64)
    → accept_areas d owner_bytes a ≡ (
        if d.lower_bits == a.lower_bits
          && d.high_offset == d.low_offset + a.low_bytes
          && leb (d.high_offset + a.high_bytes) owner_bytes
        then some a
        else none)
unfolding accept_areas checked_add
accept_areas-if d owner_bytes a h k small = ground arith

-- A directory with 64-bit offsets is accepted, with the sizes of its rows, exactly if it has the format,
-- the parameter and the aligned, adjacent areas that these sizes call for, inside the owner's bytes.
pub validate_directory_iff :
    (d : Directory) (owner_bytes : ℕ) (a : Account)
    → d.low_offset < 2 ^ 64
    → d.high_offset < 2 ^ 64
    → owner_bytes < 2 ^ 64
    → (validate_directory d owner_bytes ≡ some a)
      ↔ ((account_for d.rows ≡ some a) × Fits d a owner_bytes)
unfolding validate_directory
validate_directory_iff d owner_bytes a h k l = (
  λ e.
      let (format, checks) = guard-inv _ _ a e in
      let (sizes, sized, checks) = bind-inv (account_for d.rows) _ a checks in
      let areas =
        sym (accept_areas-if d owner_bytes sizes l k (account_for-small d.rows sizes sized))
        ∙ checks in
      let (agrees, same) = keep-inv _ sizes a areas in
      subst (λ x. (account_for d.rows ≡ some x) × Fits d x owner_bytes) same
        (sized, checks-Fits d owner_bytes sizes format agrees),
  λ p.
      let fits = p.1 in
      let (pos, few) = account_for-range d.rows a p.0 in
      rw (p.0, accept_areas-if d owner_bytes a l k (account_for-small d.rows a p.0))
        (ground (arith, fits.format, fits.aligned, fits.lower, fits.adjacent, fits.inside)),
)

-- ===== src/Pair/Accepted.antt =====
-- Which ids and offsets the checks of src/categorical/include/pair_offset16_kernel.h accept.
use booleann.Base.{
  ℕ, ◌+◌, ◌≡◌, refl, ap, ◌↔◌, Bool, true, false, List, [], ◌∷◌, map, ℤ, pos, negsuc, arith,
}
use booleann.Base.Result.{Result, ok, err, ◌>>◌, require}
use booleann.Base.Ordered.{IsAscendingFrom, IsSupport}
use booleann.Pair.Checked.{ScanError, strict_ids, strict_offsets}

abbrev pub AllIn : (ℕ → Bool) → List ℕ → Type 0
AllIn in_range [] = Unit
AllIn in_range (x ∷ xs) = (in_range x ≡ true) × AllIn in_range xs

-- Ids that are the strictly ascending rows of a posting.
pub record IsPosting (in_range : ℕ → Bool) (lo : ℕ) (ids : List ℤ) : Type 0 where
  pub rows : List ℕ
  pub same : map pos rows ≡ ids
  pub ascending : IsAscendingFrom lo rows
  pub within : AllIn in_range rows

pub steps-inv :
    {A : Type 0} (m : Result ScanError (Unit {0})) (n : Result ScanError A) (a : A)
    → (m >> n) ≡ ok a
    → (m ≡ ok tt) × (n ≡ ok a)
steps-inv (ok u) n a e = (refl, e)
steps-inv (err x) n a e = absurd (cc e)

pub require-inv : (b : Bool) (x : ScanError) → require b x ≡ ok tt → b ≡ true
require-inv true x e = refl
require-inv false x e = absurd (cc e)

module _ (in_range : ℕ → Bool) where
  after-IsPosting :
      (p : ℕ) (ids : List ℤ)
      → strict_ids in_range (pos p) ids ≡ true
      → IsPosting in_range (p + 1) ids
  unfolding strict_ids
  after-IsPosting p [] e = record { rows = []; same = refl; ascending = tt; within = tt }
  after-IsPosting p (negsuc a ∷ ids) e = absurd (ground arith)
  after-IsPosting p (pos a ∷ ids) e =
      let later = after-IsPosting a ids (ground arith) in
      record {
        rows = a ∷ later.rows;
        same = ap (◌∷◌ (pos a)) later.same;
        ascending = (ground arith, later.ascending);
        within = (ground arith, later.within);
      }

  pub strict_ids-IsPosting :
      (ids : List ℤ) → strict_ids in_range (negsuc 0) ids ≡ true → IsPosting in_range 0 ids
  unfolding strict_ids
  strict_ids-IsPosting [] e = record { rows = []; same = refl; ascending = tt; within = tt }
  strict_ids-IsPosting (negsuc a ∷ ids) e = absurd (ground arith)
  strict_ids-IsPosting (pos a ∷ ids) e =
      let later = after-IsPosting a ids (ground arith) in
      record {
        rows = a ∷ later.rows;
        same = ap (◌∷◌ (pos a)) later.same;
        ascending = (omega arith, later.ascending);
        within = (ground arith, later.within);
      }

  posting_after :
      (p : ℕ) (xs : List ℕ)
      → IsAscendingFrom (p + 1) xs
      → AllIn in_range xs
      → strict_ids in_range (pos p) (map pos xs) ≡ true
  unfolding strict_ids
  posting_after p [] h a = refl
  posting_after p (x ∷ xs) h a = ground (arith, posting_after x xs h.1 a.1, a.0, h.0)

  pub posting_strict :
      (xs : List ℕ)
      → IsAscendingFrom 0 xs
      → AllIn in_range xs
      → strict_ids in_range (negsuc 0) (map pos xs) ≡ true
  unfolding strict_ids
  posting_strict [] h a = refl
  posting_strict (x ∷ xs) h a = ground (arith, posting_after x xs h.1 a.1, a.0)

offsets_after :
    (support p : ℕ) (os : List ℕ)
    → (strict_offsets support true p os ≡ true) ↔ IsSupport (p + 1) support os
unfolding strict_offsets
offsets_after support p [] = (λ e. (tt, tt), λ h. refl)
offsets_after support p (o ∷ os) =
    let later = offsets_after support o os in
    (
      λ e. let h = later.0 (ground arith) in ((ground arith, h.0), (ground arith, h.1)),
      λ h. ground (arith, later.1 (h.0.1, h.1.1), h.0.0, h.1.0),
    )

pub strict_offsets_iff :
    (support : ℕ) (os : List ℕ)
    → (strict_offsets support false 0 os ≡ true) ↔ IsSupport 0 support os
unfolding strict_offsets
strict_offsets_iff support [] = (λ e. (tt, tt), λ h. refl)
strict_offsets_iff support (o ∷ os) =
    let later = offsets_after support o os in
    (
      λ e. let h = later.0 (ground arith) in ((omega arith, h.0), (ground arith, h.1)),
      λ h. ground (arith, later.1 (h.0.1, h.1.1), h.1.0),
    )

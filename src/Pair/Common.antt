-- ===== src/Pair/Common.antt =====
-- The three intersections of src/categorical/include/pair_offset16_kernel.h, against the definition that asks for
-- each row whether the other posting has it.
use booleann.Base.{
  ℕ, zero, suc, ◌+◌, ◌≤◌, ◌≡◌, refl, sym, ap, ◌∙◌, true, false, List, [], ◌∷◌, ltb, ◌==◌,
  if◌then◌else◌, length, arith, Bool-cases, inl, inr,
}
use booleann.Base.Ordered.{IsAscendingFrom, IsAscendingFrom-weaken, contains, contains-below}
use booleann.Pair.Intersect.{
  IntersectionStrategy, secondary_bitmap, sorted_merge, galloping_primary, has_bit, lower_bound,
  by_bitmap, by_merge, gallop_at, by_galloping, intersect_by,
}

-- What is pushed for the rows of the primary posting that the secondary one contains.
unfoldable pub common : (ℕ → ℕ → ℕ) → List ℕ → ℕ → List ℕ → List ℕ
common push secondary index [] = []
common push secondary index (id ∷ ids) =
    let rest = common push secondary (suc index) ids in
    if contains secondary id then push index id ∷ rest else rest

module _ (push : ℕ → ℕ → ℕ) where
  common-empty : (index : ℕ) (primary : List ℕ) → common push [] index primary ≡ []
  unfolding common
  common-empty index [] = refl
  common-empty index (id ∷ ids) = common-empty (suc index) ids

  -- Secondary rows before the primary ones have no effect.
  common-skip :
      (s : ℕ) (ss : List ℕ) (index : ℕ) (primary : List ℕ)
      → IsAscendingFrom (s + 1) primary
      → common push (s ∷ ss) index primary ≡ common push ss index primary
  unfolding common
  common-skip s ss index [] h = refl
  common-skip s ss index (id ∷ ids) h =
      let differ : (s == id) ≡ false = ground (arith, h.0) in
      let rest =
        common-skip s ss (suc index) ids
          (IsAscendingFrom-weaken (id + 1) (s + 1) ids (omega (arith, h.0)) h.1) in
      rw (differ, rest) refl

  by_merge-common :
      (fuel index lo : ℕ) (primary secondary : List ℕ)
      → length primary + length secondary ≤ fuel
      → IsAscendingFrom lo primary
      → IsAscendingFrom lo secondary
      → by_merge push fuel index primary secondary ≡ common push secondary index primary
  unfolding by_merge common
  by_merge-common zero index lo [] ss h p q = refl
  by_merge-common zero index lo (id ∷ ids) ss h p q = absurd (omega arith)
  by_merge-common (suc fuel) index lo [] ss h p q = refl
  by_merge-common (suc fuel) index lo (id ∷ ids) [] h p q = sym (common-empty (suc index) ids)
  by_merge-common (suc fuel) index lo (id ∷ ids) (s ∷ ss) h p q = elim (Bool-cases (ltb id s)) [
    | inl e ↦
        let missing = contains-below s id (s ∷ ss) (omega arith, q.1) (ground arith) in
        rw (e, missing)
          (by_merge-common fuel (suc index) (id + 1) ids (s ∷ ss) (omega arith) p.1
            (ground arith, q.1))
    | inr e ↦ elim (Bool-cases (ltb s id)) [
      | inl f ↦
          let above : IsAscendingFrom (s + 1) (id ∷ ids) = (ground arith, p.1) in
          rw (e, f)
            (by_merge-common fuel index (s + 1) (id ∷ ids) ss (omega arith) above q.1
              ∙ sym (common-skip s ss index (id ∷ ids) above))
      | inr f ↦
          let same : (s == id) ≡ true = ground arith in
          let equal : id ≡ s = ground arith in
          let above : IsAscendingFrom (s + 1) ids = rw (sym equal) p.1 in
          rw (e, f, common, same)
            (ap (◌∷◌ (push index id)) (
              by_merge-common fuel (suc index) (s + 1) ids ss (omega arith) above q.1
              ∙ sym (common-skip s ss (suc index) ids above)))
    ]
  ]

  -- What `lower_bound` leaves has the same common rows.
  lower_bound-common :
      (index id : ℕ) (ids cursor : List ℕ)
      → IsAscendingFrom id ids
      → common push (lower_bound id cursor) index ids ≡ common push cursor index ids
  unfolding lower_bound
  lower_bound-common index id ids [] h = refl
  lower_bound-common index id ids (s ∷ ss) h = elim (Bool-cases (ltb s id)) [
    | inl e ↦ rw e (
        lower_bound-common index id ids ss h
        ∙ sym (common-skip s ss index ids (IsAscendingFrom-weaken id (s + 1) ids (ground arith) h)))
    | inr e ↦ rw e refl
  ]

lower_bound-IsAscendingFrom :
    (lo id : ℕ) (cursor : List ℕ)
    → IsAscendingFrom lo cursor
    → IsAscendingFrom id (lower_bound id cursor)
unfolding lower_bound
lower_bound-IsAscendingFrom lo id [] h = tt
lower_bound-IsAscendingFrom lo id (s ∷ ss) h = elim (Bool-cases (ltb s id)) [
  | inl e ↦ rw e (lower_bound-IsAscendingFrom (s + 1) id ss h.1)
  | inr e ↦ rw e (ground arith, h.1)
]

-- The bitmap has the bits of the secondary rows, if it is read.
abbrev pub HasBitmap : IntersectionStrategy → (ℕ → ℕ) → List ℕ → Type 0
HasBitmap secondary_bitmap bitmap secondary = (id : ℕ) → has_bit bitmap id ≡ contains secondary id
HasBitmap sorted_merge bitmap secondary = Unit
HasBitmap galloping_primary bitmap secondary = Unit

module _ (push : ℕ → ℕ → ℕ) where
  gallop_at-common :
      (next : List ℕ → List ℕ) (index id : ℕ) (ids cursor : List ℕ)
      → ((lo : ℕ) (ss : List ℕ) → IsAscendingFrom lo ss → next ss ≡ common push ss (suc index) ids)
      → IsAscendingFrom (id + 1) ids
      → IsAscendingFrom id cursor
      → gallop_at push next index id cursor ≡ common push cursor index (id ∷ ids)
  unfolding gallop_at common
  gallop_at-common next index id ids [] h p q = sym (common-empty push (suc index) ids)
  gallop_at-common next index id ids (s ∷ ss) h p q = elim (Bool-cases (s == id)) [
    | inl e ↦
        let equal : id ≡ s = ground arith in
        let above : IsAscendingFrom (s + 1) ids = rw (sym equal) p in
        rw e (
          ap (◌∷◌ (push index id))
            (h (s + 1) ss q.1 ∙ sym (common-skip push s ss (suc index) ids above)))
    | inr e ↦
        let missing =
          contains-below (id + 1) id ss
            (IsAscendingFrom-weaken (s + 1) (id + 1) ss (ground arith) q.1) (omega arith) in
        rw (e, missing) (h s (s ∷ ss) (omega arith, q.1))
  ]

  by_galloping-common :
      (index lo lo' : ℕ) (primary cursor : List ℕ)
      → IsAscendingFrom lo primary
      → IsAscendingFrom lo' cursor
      → by_galloping push index primary cursor ≡ common push cursor index primary
  unfolding by_galloping
  by_galloping-common index lo lo' [] cursor p q = unfold common in refl
  by_galloping-common index lo lo' (id ∷ ids) cursor p q =
      gallop_at-common (by_galloping push (suc index) ids) index id ids (lower_bound id cursor)
        (λ low ss. by_galloping-common (suc index) (id + 1) low ids ss p.1) p.1
        (lower_bound-IsAscendingFrom lo' id cursor q)
      ∙ lower_bound-common push index id (id ∷ ids) cursor (omega arith, p.1)

  by_bitmap-common :
      (bitmap : ℕ → ℕ) (index : ℕ) (primary secondary : List ℕ)
      → ((id : ℕ) → has_bit bitmap id ≡ contains secondary id)
      → by_bitmap push bitmap index primary ≡ common push secondary index primary
  unfolding by_bitmap common
  by_bitmap-common bitmap index [] secondary h = refl
  by_bitmap-common bitmap index (id ∷ ids) secondary h =
      rw (h id, by_bitmap-common bitmap (suc index) ids secondary h) refl

  pub intersect_by-common :
      (bitmap : ℕ → ℕ) (strategy : IntersectionStrategy) (primary secondary : List ℕ)
      → IsAscendingFrom 0 primary
      → IsAscendingFrom 0 secondary
      → HasBitmap strategy bitmap secondary
      → intersect_by push bitmap strategy primary secondary ≡ common push secondary 0 primary
  unfolding intersect_by
  intersect_by-common bitmap secondary_bitmap [] secondary p q h = unfold common in refl
  intersect_by-common bitmap secondary_bitmap (id ∷ ids) secondary p q h =
      by_bitmap-common bitmap 0 (id ∷ ids) secondary h
  intersect_by-common bitmap sorted_merge [] secondary p q h = unfold common in refl
  intersect_by-common bitmap sorted_merge (id ∷ ids) [] p q h = sym (common-empty push 0 (id ∷ ids))
  intersect_by-common bitmap sorted_merge (id ∷ ids) (s ∷ ss) p q h =
      by_merge-common push (length (id ∷ ids) + length (s ∷ ss)) 0 0 (id ∷ ids) (s ∷ ss)
        (omega arith) p q
  intersect_by-common bitmap galloping_primary [] secondary p q h = unfold common in refl
  intersect_by-common bitmap galloping_primary (id ∷ ids) [] p q h =
      sym (common-empty push 0 (id ∷ ids))
  intersect_by-common bitmap galloping_primary (id ∷ ids) (s ∷ ss) p q h =
      by_galloping-common 0 0 0 (id ∷ ids) (s ∷ ss) p q

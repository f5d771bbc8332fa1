-- ===== src/Protocol/Ranked.antt =====
-- The order of the candidates of src/laion_sieve/laion1m_v19_same_resident_formal_protocol.h, and that they are sorted
-- by it.
use booleann.Base.{
  ◌<◌, ◌≡◌, ◌∙◌, true, false, List, [], ◌∷◌, map, ◌==◌, arith, Bool-cases, inl, inr,
}
use booleann.Base.Ordered.{contains}
use booleann.Protocol.Truth.{Floats, ExactCandidate, insert, sort, candidate_less}
use booleann.Protocol.Sorted.{All, IsDistinct, insert-All, sort-All, contains-sort}

-- What IEEE comparison keeps to on the distances that are not negative, NaN not being one of them.
pub record IsOrdered {Float : Type 0} (floats : Floats Float) : Type 0 where
  pub asymmetric :
      (a b : Float)
      → floats.not_negative a ≡ true
      → floats.not_negative b ≡ true
      → floats.less a b ≡ true
      → floats.less b a ≡ false
  pub comparable :
      (a b c : Float)
      → floats.not_negative a ≡ true
      → floats.not_negative b ≡ true
      → floats.not_negative c ≡ true
      → floats.less a c ≡ true
      → floats.less a b ≡ false
      → floats.less b c ≡ true

module _ {Float : Type 0} (floats : Floats Float) where
  -- `x` is nearer than `y`, or it is as near and has the lower id.
  abbrev pub Precedes : ExactCandidate Float → ExactCandidate Float → Type 0
  Precedes x y =
      (floats.less y.distance x.distance ≡ false)
      × (floats.less x.distance y.distance ≡ false → x.id < y.id)

  -- Each entry precedes all that stand behind it.
  abbrev pub IsRanked : List (ExactCandidate Float) → Type 0
  IsRanked [] = Unit
  IsRanked (x ∷ xs) = All (Precedes x) xs × IsRanked xs

  abbrev pub IsMeasured : ExactCandidate Float → Type 0
  IsMeasured x = floats.not_negative x.distance ≡ true

  module _ (o : IsOrdered floats) where
    Precedes-trans :
        (x y z : ExactCandidate Float)
        → IsMeasured x
        → IsMeasured y
        → IsMeasured z
        → Precedes x y
        → Precedes y z
        → Precedes x z
    Precedes-trans x y z p q r h k = (
      elim (Bool-cases (floats.less z.distance x.distance)) [
        | inl e ↦
            let wrong = o.comparable z.distance y.distance x.distance r q p e k.0 in
            absurd (cc (wrong, h.0))
        | inr e ↦ e
      ],
      λ n. elim (Bool-cases (floats.less x.distance y.distance)) [
        | inl e ↦
            let wrong = o.comparable x.distance z.distance y.distance p r q e n in
            absurd (cc (wrong, k.0))
        | inr e ↦ elim (Bool-cases (floats.less y.distance z.distance)) [
          | inl f ↦
              let wrong = o.comparable y.distance x.distance z.distance q p r f h.0 in
              absurd (cc (wrong, n))
          | inr f ↦ let first = h.1 e in let second = k.1 f in omega (arith, first, second)
        ]
      ],
    )

    less-Precedes :
        (x y : ExactCandidate Float)
        → IsMeasured x
        → IsMeasured y
        → candidate_less floats x y ≡ true
        → Precedes x y
    unfolding candidate_less
    less-Precedes x y p q e = elim (Bool-cases (floats.less x.distance y.distance)) [
      | inl f ↦ (o.asymmetric x.distance y.distance p q f, λ n. absurd (cc (f, n)))
      | inr f ↦ elim (Bool-cases (floats.less y.distance x.distance)) [
        | inl g ↦ absurd (cc ((rw (f, g) at e)))
        | inr g ↦ let lower = rw (f, g) at e in (g, λ n. ground arith)
      ]
    ]

    not_less-Precedes :
        (x y : ExactCandidate Float)
        → (y.id == x.id) ≡ false
        → candidate_less floats y x ≡ false
        → Precedes x y
    unfolding candidate_less
    not_less-Precedes x y d e = elim (Bool-cases (floats.less y.distance x.distance)) [
      | inl f ↦ absurd (cc ((rw f at e)))
      | inr f ↦ (f, λ n. let higher = rw (f, n) at e in ground arith)
    ]

    Precedes-All :
        (x y : ExactCandidate Float) (zs : List (ExactCandidate Float))
        → IsMeasured x
        → IsMeasured y
        → All IsMeasured zs
        → Precedes x y
        → All (Precedes y) zs
        → All (Precedes x) zs
    Precedes-All x y [] p q r h k = tt
    Precedes-All x y (z ∷ zs) p q r h k =
        (Precedes-trans x y z p q r.0 h k.0, Precedes-All x y zs p q r.1 h k.1)

    insert-IsRanked :
        (x : ExactCandidate Float) (ys : List (ExactCandidate Float))
        → IsMeasured x
        → All IsMeasured ys
        → contains (map ExactCandidate.id ys) x.id ≡ false
        → IsRanked ys
        → IsRanked (insert (candidate_less floats) x ys)
    unfolding insert
    insert-IsRanked x [] p q d h = (tt, tt)
    insert-IsRanked x (y ∷ ys) p q d h = elim (Bool-cases (candidate_less floats y x)) [
      | inl e ↦ rw e (
        insert-All (candidate_less floats) (Precedes y) x ys (less-Precedes y x q.0 p e) h.0,
        insert-IsRanked x ys p q.1 (ground (arith, d)) h.1,
      )
      | inr e ↦
          let first = not_less-Precedes x y (ground (arith, d)) e in
          rw e ((first, Precedes-All x y ys p q.0 q.1 first h.0), h)
    ]

    pub sort-IsRanked :
        (xs : List (ExactCandidate Float))
        → All IsMeasured xs
        → IsDistinct (map ExactCandidate.id xs)
        → IsRanked (sort (candidate_less floats) xs)
    unfolding sort
    sort-IsRanked [] p d = tt
    sort-IsRanked (x ∷ xs) p d =
        insert-IsRanked x (sort (candidate_less floats) xs) p.0
          (sort-All (candidate_less floats) IsMeasured xs p.1)
          (contains-sort (candidate_less floats) ExactCandidate.id x.id xs ∙ d.0)
          (sort-IsRanked xs p.1 d.1)

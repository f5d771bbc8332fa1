-- ===== src/Pair/Frontier.antt =====
-- The frontier of src/categorical/include/pair_offset16_kernel.h: inserting keeps it sorted, and is the
-- insertion into a sorted list cut to K entries.
use booleann.Base.{
  ℕ, zero, suc, ◌<◌, ◌≡◌, refl, ap, ◌∙◌, true, false, List, [], ◌∷◌, if◌then◌else◌, get_or, set,
  take, length, length-set, arith, Bool-cases, inl, inr,
}
use booleann.Pair.{DistanceId, worst, less, shift}

-- No entry is less than one before it.
abbrev pub IsSorted : List DistanceId → Type 0
IsSorted [] = Unit
IsSorted (x ∷ []) = Unit
IsSorted (x ∷ y ∷ xs) = (less y x ≡ false) × IsSorted (y ∷ xs)

-- Insertion behind all entries that are not greater.
unfoldable pub insert : DistanceId → List DistanceId → List DistanceId
insert x [] = x ∷ []
insert x (y ∷ ys) = let rest = insert x ys in if less x y then x ∷ y ∷ ys else y ∷ rest

-- `x` is less than every entry.
abbrev pub AllAbove : DistanceId → List DistanceId → Type 0
AllAbove x [] = Unit
AllAbove x (y ∷ ys) = (less x y ≡ true) × AllAbove x ys

pub AllAbove-of_sorted :
    (x y : DistanceId) (ys : List DistanceId)
    → IsSorted (y ∷ ys)
    → less x y ≡ true
    → AllAbove x (y ∷ ys)
AllAbove-of_sorted x y [] s h = (h, tt)
AllAbove-of_sorted x y (z ∷ ys) s h = (h, AllAbove-of_sorted x z ys s.1 (ground arith))

-- An entry that does not exceed `x` stays in front.
shift_front :
    (x y : DistanceId) (p : ℕ) (ys : List DistanceId)
    → less x y ≡ false
    → shift x (suc p) (y ∷ ys) ≡ y ∷ shift x p ys
unfolding shift
shift_front x y zero ys h = rw h refl
shift_front x y (suc p) ys h =
    let above = get_or ys p worst in
    elim (Bool-cases (less x above)) [
      | inl e ↦ rw e (shift_front x y p (set ys (suc p) above) h)
      | inr e ↦ rw e refl
    ]

pub AllAbove-get :
    (x : DistanceId) (ys : List DistanceId) (p : ℕ)
    → p < length ys
    → AllAbove x ys
    → less x (get_or ys p worst) ≡ true
AllAbove-get x [] p h a = absurd (omega arith)
AllAbove-get x (y ∷ ys) zero h a = a.0
AllAbove-get x (y ∷ ys) (suc p) h a = AllAbove-get x ys p (omega arith) a.1

AllAbove-set :
    (x v : DistanceId) (ys : List DistanceId) (p : ℕ)
    → less x v ≡ true
    → AllAbove x ys
    → AllAbove x (set ys p v)
AllAbove-set x v [] p h a = tt
AllAbove-set x v (y ∷ ys) zero h a = (h, a.1)
AllAbove-set x v (y ∷ ys) (suc p) h a = (a.0, AllAbove-set x v ys p h a.1)

abbrev tail : List DistanceId → List DistanceId
tail [] = []
tail (x ∷ xs) = xs

-- Entries that all exceed `x` move back by one.
shift_back :
    (x y : DistanceId) (p : ℕ) (ys : List DistanceId)
    → less x y ≡ true
    → p < length ys
    → AllAbove x ys
    → shift x (suc p) (y ∷ ys) ≡ x ∷ y ∷ tail (shift x p ys)
unfolding shift
shift_back x y zero (z ∷ ys) h k a = rw h refl
shift_back x y zero [] h k a = absurd (omega arith)
shift_back x y (suc p) ys h k a =
    let above = get_or ys p worst in
    let e = AllAbove-get x ys p (omega arith) a in
    rw e (
      shift_back x y p (set ys (suc p) above) h (omega (arith, length-set ys (suc p) above))
        (AllAbove-set x above ys (suc p) e a))

shift_all :
    (x : DistanceId) (p : ℕ) (ys : List DistanceId)
    → length ys ≡ suc p
    → AllAbove x ys
    → shift x p ys ≡ x ∷ take p ys
shift_all x p [] h a = absurd (omega arith)
shift_all x zero (y ∷ []) h a = unfold shift in refl
shift_all x zero (y ∷ z ∷ ys) h a = absurd (omega arith)
shift_all x (suc p) (y ∷ ys) h a =
    shift_back x y p ys a.0 (omega arith) a.1
    ∙ ap (λ zs. x ∷ y ∷ tail zs) (shift_all x p ys (omega arith) a.1)

pub shift-insert :
    (x : DistanceId) (p : ℕ) (ys : List DistanceId)
    → length ys ≡ suc p
    → IsSorted ys
    → less x (get_or ys p worst) ≡ true
    → shift x p ys ≡ take (suc p) (insert x ys)
unfolding insert
shift-insert x p [] h s a = absurd (omega arith)
shift-insert x zero (y ∷ []) h s a = rw a (unfold shift in refl)
shift-insert x zero (y ∷ z ∷ ys) h s a = absurd (omega arith)
shift-insert x (suc p) (y ∷ []) h s a = absurd (omega arith)
shift-insert x (suc p) (y ∷ z ∷ ys) h s a = elim (Bool-cases (less x y)) [
  | inl e ↦ rw e (shift_all x (suc p) (y ∷ z ∷ ys) h (AllAbove-of_sorted x y (z ∷ ys) s e))
  | inr e ↦
      rw (insert, e)
        (shift_front x y p (z ∷ ys) e ∙ ap (◌∷◌ y) (shift-insert x p (z ∷ ys) (omega arith) s.1 a))
]

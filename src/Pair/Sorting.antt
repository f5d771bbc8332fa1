-- ===== src/Pair/Sorting.antt =====
-- The frontier of src/categorical/include/pair_offset16_kernel.h as the beginning of the sorted list of all
-- candidates.
use mathlib.Core.List.Perm
use booleann.Base.{
  ℕ, zero, suc, ◌≤◌, ◌<◌, ◌≡◌, refl, ap, ◌∙◌, true, List, [], ◌∷◌, ◌++◌, replicate, length, take,
  arith, Bool-cases, inl, inr, Perm, length-take,
}
use booleann.Pair.{DistanceId, worst, less, max_u32, insert_all}
use booleann.Pair.Frontier.{IsSorted, insert}
use booleann.Pair.Inserted.{insert_top_k-insert, insert-IsSorted, take-IsSorted, length-insert}

-- Each candidate inserted into a list that grows.
unfoldable pub insert_each : List DistanceId → List DistanceId → List DistanceId
insert_each [] ys = ys
insert_each (x ∷ xs) ys = insert_each xs (insert x ys)

insert-Perm : (x : DistanceId) (ys : List DistanceId) → Perm (insert x ys) (x ∷ ys)
unfolding insert
insert-Perm x [] = Perm.refl (x ∷ [])
insert-Perm x (y ∷ ys) = elim (Bool-cases (less x y)) [
  | inl e ↦ rw e (Perm.refl (x ∷ y ∷ ys))
  | inr e ↦ rw e (Perm.trans (Perm.cons y (insert-Perm x ys)) (Perm.swap x y ys))
]

append-Perm : (x : DistanceId) (xs ys : List DistanceId) → Perm (xs ++ x ∷ ys) (x ∷ xs ++ ys)
append-Perm x [] ys = Perm.refl (x ∷ ys)
append-Perm x (z ∷ xs) ys =
    Perm.trans (Perm.cons z (append-Perm x xs ys)) (Perm.swap x z (xs ++ ys))

append-left-Perm :
    (xs : List DistanceId) {ys zs : List DistanceId} → Perm ys zs → Perm (xs ++ ys) (xs ++ zs)
append-left-Perm [] p = p
append-left-Perm (x ∷ xs) p = Perm.cons x (append-left-Perm xs p)

pub insert_each-Perm : (xs ys : List DistanceId) → Perm (insert_each xs ys) (xs ++ ys)
unfolding insert_each
insert_each-Perm [] ys = Perm.refl ys
insert_each-Perm (x ∷ xs) ys =
    Perm.trans (insert_each-Perm xs (insert x ys))
      (Perm.trans (append-left-Perm xs (insert-Perm x ys)) (append-Perm x xs ys))

pub insert_each-IsSorted : (xs ys : List DistanceId) → IsSorted ys → IsSorted (insert_each xs ys)
unfolding insert_each
insert_each-IsSorted [] ys s = s
insert_each-IsSorted (x ∷ xs) ys s = insert_each-IsSorted xs (insert x ys) (insert-IsSorted x ys s)

take_shorter : (n : ℕ) (ys : List DistanceId) → take n (take (suc n) ys) ≡ take n ys
take_shorter zero ys = refl
take_shorter (suc n) [] = refl
take_shorter (suc n) (y ∷ ys) = ap (◌∷◌ y) (take_shorter n ys)

-- What is cut off has no effect on what stays.
take-insert :
    (n : ℕ) (x : DistanceId) (ys : List DistanceId)
    → take n (insert x (take n ys)) ≡ take n (insert x ys)
unfolding insert
take-insert zero x ys = refl
take-insert (suc n) x [] = refl
take-insert (suc n) x (y ∷ ys) = elim (Bool-cases (less x y)) [
  | inl e ↦ rw e (ap (◌∷◌ x) (take_shorter n (y ∷ ys)))
  | inr e ↦ rw e (ap (◌∷◌ y) (take-insert n x ys))
]

pub insert_all-insert_each :
    (k : ℕ) (xs zs : List DistanceId)
    → IsSorted zs
    → suc k ≤ length zs
    → insert_all k xs (take (suc k) zs) ≡ take (suc k) (insert_each xs zs)
unfolding insert_all insert_each
insert_all-insert_each k [] zs s h = refl
insert_all-insert_each k (x ∷ xs) zs s h =
    ap (insert_all k xs) (
      insert_top_k-insert k x (take (suc k) zs) (omega (arith, length-take (suc k) zs))
        (take-IsSorted (suc k) zs s)
      ∙ take-insert (suc k) x zs)
    ∙ insert_all-insert_each k xs (insert x zs) (insert-IsSorted x zs s)
        (omega (arith, length-insert x zs))

-- The distances of candidates stay below the value that marks an empty place.
abbrev pub AllFound : List DistanceId → Type 0
AllFound [] = Unit
AllFound (x ∷ xs) = (x.distance < max_u32) × AllFound xs

insert-replicate :
    (n : ℕ) (x : DistanceId) (ys : List DistanceId)
    → x.distance < max_u32
    → insert x (ys ++ replicate (suc n) worst) ≡ insert x ys ++ replicate (suc n) worst
unfolding insert
insert-replicate n x [] h = let e : less x worst ≡ true = ground arith in rw e refl
insert-replicate n x (y ∷ ys) h = elim (Bool-cases (less x y)) [
  | inl e ↦ rw e refl
  | inr e ↦ rw e (ap (◌∷◌ y) (insert-replicate n x ys h))
]

pub insert_each-replicate :
    (n : ℕ) (xs ys : List DistanceId)
    → AllFound xs
    → insert_each xs (ys ++ replicate (suc n) worst) ≡ insert_each xs ys ++ replicate (suc n) worst
unfolding insert_each
insert_each-replicate n [] ys h = refl
insert_each-replicate n (x ∷ xs) ys h =
    ap (insert_each xs) (insert-replicate n x ys h.0) ∙ insert_each-replicate n xs (insert x ys) h.1

insert-AllFound :
    (x : DistanceId) (ys : List DistanceId)
    → x.distance < max_u32
    → AllFound ys
    → AllFound (insert x ys)
unfolding insert
insert-AllFound x [] h a = (h, tt)
insert-AllFound x (y ∷ ys) h a = elim (Bool-cases (less x y)) [
  | inl e ↦ rw e (h, a)
  | inr e ↦ rw e (a.0, insert-AllFound x ys h a.1)
]

pub insert_each-AllFound :
    (xs ys : List DistanceId) → AllFound xs → AllFound ys → AllFound (insert_each xs ys)
unfolding insert_each
insert_each-AllFound [] ys h a = a
insert_each-AllFound (x ∷ xs) ys h a =
    insert_each-AllFound xs (insert x ys) h.1 (insert-AllFound x ys h.0 a)

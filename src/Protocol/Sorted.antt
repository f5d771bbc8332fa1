-- ===== src/Protocol/Sorted.antt =====
-- The sorts of src/laion_sieve/laion1m_v19_same_resident_formal_protocol.h: they keep the entries of a list, and those
-- of ids leave distinct ones in increasing order.
use mathlib.Core.List.Perm
use booleann.Base.{
  ℕ, zero, suc, ◌+◌, ◌≤◌, ◌≡◌, refl, sym, ap, ◌∙◌, Bool, false, ◌||◌, List, [], ◌∷◌, ◌++◌, map,
  take, drop, length, get_elem?, some, ◌<◌, ltb, ◌==◌, arith, Bool-cases, inl, inr, Perm,
}
use booleann.Base.Ordered.{IsAscendingFrom, contains}
use booleann.Protocol.Truth.{insert, sort}

abbrev pub All {ℓ κ} : {A : Type ℓ} → (A → Type κ) → List A → Type κ
All P [] = Unit
All P (x ∷ xs) = P x × All P xs

-- No id stands twice in the list.
abbrev pub IsDistinct : List ℕ → Type 0
IsDistinct [] = Unit
IsDistinct (x ∷ xs) = (contains xs x ≡ false) × IsDistinct xs

module _ {ℓ} {A : Type ℓ} (less : A → A → Bool) where
  insert-Perm : (x : A) (ys : List A) → Perm (insert less x ys) (x ∷ ys)
  unfolding insert
  insert-Perm x [] = Perm.refl (x ∷ [])
  insert-Perm x (y ∷ ys) = elim (Bool-cases (less y x)) [
    | inl e ↦ rw e (Perm.trans (Perm.cons y (insert-Perm x ys)) (Perm.swap x y ys))
    | inr e ↦ rw e (Perm.refl (x ∷ y ∷ ys))
  ]

  pub sort-Perm : (xs : List A) → Perm (sort less xs) xs
  unfolding sort
  sort-Perm [] = Perm.refl []
  sort-Perm (x ∷ xs) = Perm.trans (insert-Perm x (sort less xs)) (Perm.cons x (sort-Perm xs))

  pub insert-All {κ} :
      (P : A → Type κ) (x : A) (ys : List A) → P x → All P ys → All P (insert less x ys)
  unfolding insert
  insert-All P x [] p h = (p, tt)
  insert-All P x (y ∷ ys) p h = elim (Bool-cases (less y x)) [
    | inl e ↦ rw e (h.0, insert-All P x ys p h.1)
    | inr e ↦ rw e (p, h)
  ]

  pub sort-All {κ} : (P : A → Type κ) (xs : List A) → All P xs → All P (sort less xs)
  unfolding sort
  sort-All P [] h = tt
  sort-All P (x ∷ xs) h = insert-All P x (sort less xs) h.0 (sort-All P xs h.1)

  module _ (id : A → ℕ) where
    pub contains-insert :
        (x : A) (a : ℕ) (ys : List A)
        → contains (map id (insert less x ys)) a ≡ (id x == a || contains (map id ys) a)
    unfolding insert
    contains-insert x a [] = refl
    contains-insert x a (y ∷ ys) = ground (arith, contains-insert x a ys)

    pub contains-sort :
        (a : ℕ) (xs : List A) → contains (map id (sort less xs)) a ≡ contains (map id xs) a
    unfolding sort
    contains-sort a [] = refl
    contains-sort a (x ∷ xs) =
        contains-insert x a (sort less xs) ∙ ap (λ b. id x == a || b) (contains-sort a xs)

insert-IsAscendingFrom :
    (lo x : ℕ) (ys : List ℕ)
    → lo ≤ x
    → contains ys x ≡ false
    → IsAscendingFrom lo ys
    → IsAscendingFrom lo (insert ltb x ys)
unfolding insert
insert-IsAscendingFrom lo x [] h d a = (h, tt)
insert-IsAscendingFrom lo x (y ∷ ys) h d a = elim (Bool-cases (ltb y x)) [
  | inl e ↦ rw e (a.0, insert-IsAscendingFrom (y + 1) x ys (ground arith) (ground (arith, d)) a.1)
  | inr e ↦ rw e (h, (ground (arith, d), a.1))
]

map_id : (xs : List ℕ) → map (λ x. x) xs ≡ xs
map_id [] = refl
map_id (x ∷ xs) = ap (◌∷◌ x) (map_id xs)

contains-sort_ids : (a : ℕ) (xs : List ℕ) → contains (sort ltb xs) a ≡ contains xs a
contains-sort_ids a xs =
    ap (λ l. contains l a) (sym (map_id (sort ltb xs)))
    ∙ contains-sort ltb (λ x. x) a xs
    ∙ ap (λ l. contains l a) (map_id xs)

pub sort-IsAscendingFrom : (xs : List ℕ) → IsDistinct xs → IsAscendingFrom 0 (sort ltb xs)
unfolding sort
sort-IsAscendingFrom [] d = tt
sort-IsAscendingFrom (x ∷ xs) d =
    insert-IsAscendingFrom 0 x (sort ltb xs) (omega arith) (contains-sort_ids x xs ∙ d.0)
      (sort-IsAscendingFrom xs d.1)

pub take-drop {ℓ} : {A : Type ℓ} (k : ℕ) (xs : List A) → take k xs ++ drop k xs ≡ xs
take-drop zero xs = refl
take-drop (suc k) [] = refl
take-drop (suc k) (x ∷ xs) = ap (◌∷◌ x) (take-drop k xs)

pub get_elem-lt {ℓ} :
    {A : Type ℓ} (k : ℕ) (xs : List A) (i : ℕ)
    → i < k
    → i < length xs
    → (a : A) × (get_elem? xs i ≡ some a) × (get_elem? (take k xs) i ≡ some a)
get_elem-lt zero xs i l h = absurd (omega arith)
get_elem-lt (suc k) [] i l h = absurd (omega arith)
get_elem-lt (suc k) (x ∷ xs) zero l h = (x, refl, refl)
get_elem-lt (suc k) (x ∷ xs) (suc i) l h = get_elem-lt k xs i (omega arith) (omega arith)

contains-take {ℓ} :
    {A : Type ℓ} (id : A → ℕ) (a k : ℕ) (xs : List A)
    → contains (map id xs) a ≡ false
    → contains (map id (take k xs)) a ≡ false
contains-take id a zero xs h = refl
contains-take id a (suc k) [] h = refl
contains-take id a (suc k) (x ∷ xs) h = ground (arith, h, contains-take id a k xs)

pub take-IsDistinct {ℓ} :
    {A : Type ℓ} (id : A → ℕ) (k : ℕ) (xs : List A)
    → IsDistinct (map id xs)
    → IsDistinct (map id (take k xs))
take-IsDistinct id zero xs d = tt
take-IsDistinct id (suc k) [] d = tt
take-IsDistinct id (suc k) (x ∷ xs) d =
    (contains-take id (id x) k xs d.0, take-IsDistinct id k xs d.1)

insert-IsDistinct {ℓ} :
    {A : Type ℓ} (less : A → A → Bool) (id : A → ℕ) (x : A) (ys : List A)
    → contains (map id ys) (id x) ≡ false
    → IsDistinct (map id ys)
    → IsDistinct (map id (insert less x ys))
unfolding insert
insert-IsDistinct less id x [] h d = (h, tt)
insert-IsDistinct less id x (y ∷ ys) h d = elim (Bool-cases (less y x)) [
  | inl e ↦ rw e (
    contains-insert less id x (id y) ys ∙ ground (arith, h, d.0),
    insert-IsDistinct less id x ys (ground (arith, h)) d.1,
  )
  | inr e ↦ rw e (h, d)
]

pub sort-IsDistinct {ℓ} :
    {A : Type ℓ} (less : A → A → Bool) (id : A → ℕ) (xs : List A)
    → IsDistinct (map id xs)
    → IsDistinct (map id (sort less xs))
unfolding sort
sort-IsDistinct less id [] d = tt
sort-IsDistinct less id (x ∷ xs) d =
    insert-IsDistinct less id x (sort less xs) (contains-sort less id (id x) xs ∙ d.0)
      (sort-IsDistinct less id xs d.1)

pub take-All {ℓ κ} :
    {A : Type ℓ} (P : A → Type κ) (k : ℕ) (xs : List A) → All P xs → All P (take k xs)
take-All P zero xs h = tt
take-All P (suc k) [] h = tt
take-All P (suc k) (x ∷ xs) h = (h.0, take-All P k xs h.1)

pub drop-All {ℓ κ} :
    {A : Type ℓ} (P : A → Type κ) (k : ℕ) (xs : List A) → All P xs → All P (drop k xs)
drop-All P zero xs h = h
drop-All P (suc k) [] h = tt
drop-All P (suc k) (x ∷ xs) h = drop-All P k xs h.1

length-insert {ℓ} :
    {A : Type ℓ} (less : A → A → Bool) (x : A) (ys : List A)
    → length (insert less x ys) ≡ suc (length ys)
unfolding insert
length-insert less x [] = refl
length-insert less x (y ∷ ys) = elim (Bool-cases (less y x)) [
  | inl e ↦ rw e (ap suc (length-insert less x ys))
  | inr e ↦ rw e refl
]

pub length-sort {ℓ} :
    {A : Type ℓ} (less : A → A → Bool) (xs : List A) → length (sort less xs) ≡ length xs
unfolding sort
length-sort less [] = refl
length-sort less (x ∷ xs) = length-insert less x (sort less xs) ∙ ap suc (length-sort less xs)

-- ===== src/Pair/Inserted.antt =====
-- `insert_top_k` of src/categorical/include/pair_offset16_kernel.h on a sorted frontier.
use booleann.Base.{
  ℕ, zero, suc, ◌<◌, ◌≡◌, refl, sym, ap, false, List, [], ◌∷◌, get_or, take, length, replicate,
  length-replicate, length-take, arith, Bool-cases, inl, inr,
}
use booleann.Pair.{DistanceId, worst, less, insert_top_k, empty_frontier}
use booleann.Pair.Frontier.{IsSorted, insert, AllAbove-of_sorted, AllAbove-get, shift-insert}

-- An entry that is not less than the last one goes behind all.
insert_past :
    (x : DistanceId) (k : ℕ) (ys : List DistanceId)
    → length ys ≡ suc k
    → IsSorted ys
    → less x (get_or ys k worst) ≡ false
    → take (suc k) (insert x ys) ≡ ys
unfolding insert
insert_past x k [] h s a = absurd (omega arith)
insert_past x zero (y ∷ []) h s a = rw a refl
insert_past x zero (y ∷ z ∷ ys) h s a = absurd (omega arith)
insert_past x (suc k) (y ∷ []) h s a = absurd (omega arith)
insert_past x (suc k) (y ∷ z ∷ ys) h s a = elim (Bool-cases (less x y)) [
  | inl e ↦
      let above = AllAbove-of_sorted x y (z ∷ ys) s e in
      absurd (ground (arith, AllAbove-get x (z ∷ ys) k (omega arith) above.1))
  | inr e ↦ rw (insert, e) (ap (◌∷◌ y) (insert_past x k (z ∷ ys) (omega arith) s.1 a))
]

pub insert_top_k-insert :
    (k : ℕ) (x : DistanceId) (ys : List DistanceId)
    → length ys ≡ suc k
    → IsSorted ys
    → insert_top_k k x ys ≡ take (suc k) (insert x ys)
unfolding insert_top_k
insert_top_k-insert k x ys h s = elim (Bool-cases (less x (get_or ys k worst))) [
  | inl e ↦ rw e (shift-insert x k ys h s e)
  | inr e ↦ rw e (sym (insert_past x k ys h s e))
]

behind-IsSorted :
    (x y : DistanceId) (zs : List DistanceId)
    → less x y ≡ false
    → IsSorted (y ∷ zs)
    → IsSorted (y ∷ insert x zs)
unfolding insert
behind-IsSorted x y [] h s = (h, tt)
behind-IsSorted x y (z ∷ zs) h s = elim (Bool-cases (less x z)) [
  | inl e ↦ rw e (h, (ground arith, s.1))
  | inr e ↦ rw e (s.0, behind-IsSorted x z zs e s.1)
]

pub insert-IsSorted : (x : DistanceId) (ys : List DistanceId) → IsSorted ys → IsSorted (insert x ys)
unfolding insert
insert-IsSorted x [] s = tt
insert-IsSorted x (y ∷ ys) s = elim (Bool-cases (less x y)) [
  | inl e ↦ rw e (ground arith, s)
  | inr e ↦ rw e (behind-IsSorted x y ys e s)
]

tail-IsSorted : (y : DistanceId) (ys : List DistanceId) → IsSorted (y ∷ ys) → IsSorted ys
tail-IsSorted y [] s = tt
tail-IsSorted y (z ∷ ys) s = s.1

pub take-IsSorted : (n : ℕ) (ys : List DistanceId) → IsSorted ys → IsSorted (take n ys)
take-IsSorted zero ys s = tt
take-IsSorted (suc n) [] s = tt
take-IsSorted (suc zero) (y ∷ ys) s = tt
take-IsSorted (suc (suc n)) (y ∷ []) s = tt
take-IsSorted (suc (suc n)) (y ∷ z ∷ ys) s = (s.0, take-IsSorted (suc n) (z ∷ ys) s.1)

pub length-insert : (x : DistanceId) (ys : List DistanceId) → length (insert x ys) ≡ suc (length ys)
unfolding insert
length-insert x [] = refl
length-insert x (y ∷ ys) = elim (Bool-cases (less x y)) [
  | inl e ↦ rw e refl
  | inr e ↦ rw e (ap suc (length-insert x ys))
]

adjacent :
    (y : DistanceId) (zs : List DistanceId) (k : ℕ)
    → IsSorted (y ∷ zs)
    → k < length zs
    → less (get_or zs k worst) (get_or (y ∷ zs) k worst) ≡ false
adjacent y [] k s h = absurd (omega arith)
adjacent y (z ∷ zs) zero s h = s.0
adjacent y (z ∷ zs) (suc k) s h = adjacent z zs k s.1 (omega arith)

-- Inserting never makes the entry at a place greater.
insert-get :
    (x : DistanceId) (ys : List DistanceId) (k : ℕ)
    → IsSorted ys
    → k < length ys
    → less (get_or ys k worst) (get_or (insert x ys) k worst) ≡ false
unfolding insert
insert-get x [] k s h = absurd (omega arith)
insert-get x (y ∷ ys) zero s h = elim (Bool-cases (less x y)) [
  | inl e ↦ rw e (ground arith)
  | inr e ↦ rw e (ground arith)
]
insert-get x (y ∷ ys) (suc k) s h = elim (Bool-cases (less x y)) [
  | inl e ↦ rw e (adjacent y ys k s (omega arith))
  | inr e ↦ rw e (insert-get x ys k (tail-IsSorted y ys s) (omega arith))
]

get_or-take :
    (n k : ℕ) (ys : List DistanceId) → k < n → get_or (take n ys) k worst ≡ get_or ys k worst
get_or-take zero k ys h = absurd (omega arith)
get_or-take (suc n) k [] h = refl
get_or-take (suc n) zero (y ∷ ys) h = refl
get_or-take (suc n) (suc k) (y ∷ ys) h = get_or-take n k ys (omega arith)

-- What the loops keep of the frontier.
pub record Ready (k : ℕ) (frontier : List DistanceId) : Type 0 where
  pub size : length frontier ≡ suc k
  pub sorted : IsSorted frontier

pub insert_top_k-Ready :
    (k : ℕ) (x : DistanceId) (ys : List DistanceId) → Ready k ys → Ready k (insert_top_k k x ys)
insert_top_k-Ready k x ys r = rw (insert_top_k-insert k x ys r.size r.sorted) (record {
  size = omega (arith, length-take (suc k) (insert x ys), length-insert x ys, r.size);
  sorted = take-IsSorted (suc k) (insert x ys) (insert-IsSorted x ys r.sorted);
})

replicate-IsSorted : (n : ℕ) → IsSorted (replicate n worst)
replicate-IsSorted zero = tt
replicate-IsSorted (suc zero) = tt
replicate-IsSorted (suc (suc n)) = (refl, replicate-IsSorted (suc n))

pub empty_frontier-Ready : (k : ℕ) → Ready k (empty_frontier k)
empty_frontier-Ready k = record {
  size = length-replicate (suc k) worst;
  sorted = replicate-IsSorted (suc k);
}

-- The last entry does not exceed `b`.
abbrev pub IsWithin : ℕ → List DistanceId → DistanceId → Type 0
IsWithin k ys b = less b (get_or ys k worst) ≡ false

pub insert_top_k-IsWithin :
    (k : ℕ) (x : DistanceId) (ys : List DistanceId) (b : DistanceId)
    → Ready k ys
    → IsWithin k ys b
    → IsWithin k (insert_top_k k x ys) b
insert_top_k-IsWithin k x ys b r w =
    rw
      (
        insert_top_k-insert k x ys r.size r.sorted,
        get_or-take (suc k) k (insert x ys) (omega arith),
      )
      (ground (arith, insert-get x ys k r.sorted (omega (arith, r.size)), w))

-- On a sorted frontier of K entries, `insert_top_k` keeps the first K entries of the list with the proposed one
-- put in its place, and leaves the frontier sorted and of K entries.
pub insert_top_k_lem :
    (k : ℕ) (x : DistanceId) (ys : List DistanceId)
    → Ready k ys
    → (insert_top_k k x ys ≡ take (suc k) (insert x ys)) × Ready k (insert_top_k k x ys)
insert_top_k_lem k x ys r =
    (insert_top_k-insert k x ys r.size r.sorted, insert_top_k-Ready k x ys r)

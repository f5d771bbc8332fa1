-- ===== src/Pair/Candidates.antt =====
-- Candidates inserted one after the other, for the scans of src/categorical/include/pair_offset16_kernel.h.
use booleann.Base.{
  ℕ, ◌≤◌, ◌≡◌, refl, sym, ap, ◌∙◌, false, List, [], ◌∷◌, ◌++◌, map, get_or, take, drop,
  append-take-drop, arith,
}
use booleann.Pair.{DistanceId, worst, less, insert_top_k, insert_all}
use booleann.Pair.Inserted.{Ready, IsWithin, insert_top_k-Ready}
use booleann.Pair.Scan.{Rows, candidate}

pub less_irreflexive : (x : DistanceId) → less x x ≡ false
less_irreflexive x = ground arith

-- A candidate of which a lower bound does not improve the frontier changes nothing.
pub insert_top_k_lower :
    (k : ℕ) (p id : ℕ) (x : DistanceId) (b : DistanceId) (ys : List DistanceId)
    → less (record { distance = p; global_id = id }) b ≡ false
    → p ≤ x.distance
    → x.global_id ≡ id
    → IsWithin k ys b
    → insert_top_k k x ys ≡ ys
unfolding insert_top_k
insert_top_k_lower k p id x b ys h l e w =
    let no : less x (get_or ys k worst) ≡ false = ground arith in rw no refl

pub insert_all-Ready : (k : ℕ) (xs ys : List DistanceId) → Ready k ys → Ready k (insert_all k xs ys)
unfolding insert_all
insert_all-Ready k [] ys r = r
insert_all-Ready k (x ∷ xs) ys r =
    insert_all-Ready k xs (insert_top_k k x ys) (insert_top_k-Ready k x ys r)

pub insert_all-append :
    (k : ℕ) (xs zs ys : List DistanceId)
    → insert_all k (xs ++ zs) ys ≡ insert_all k zs (insert_all k xs ys)
unfolding insert_all
insert_all-append k [] zs ys = refl
insert_all-append k (x ∷ xs) zs ys = insert_all-append k xs zs (insert_top_k k x ys)

pub map-append :
    {A B : Type 0} (f : A → B) (xs ys : List A) → map f (xs ++ ys) ≡ map f xs ++ map f ys
map-append f [] ys = refl
map-append f (x ∷ xs) ys = ap (◌∷◌ (f x)) (map-append f xs ys)

-- Two runs of the candidates in turn.
pub insert_all-parts :
    (k : ℕ) (r : Rows) (place : ℕ → ℕ) (n : ℕ) (offsets : List ℕ) (ys : List DistanceId)
    → insert_all k
        (map (candidate r place) (drop n offsets))
        (insert_all k (map (candidate r place) (take n offsets)) ys)
      ≡ insert_all k (map (candidate r place) offsets) ys
insert_all-parts k r place n offsets ys = sym (
    ap (λ xs. insert_all k (map (candidate r place) xs) ys) (sym (append-take-drop n offsets))
    ∙ ap (λ xs. insert_all k xs ys)
        (map-append (candidate r place) (take n offsets) (drop n offsets))
    ∙ insert_all-append k (map (candidate r place) (take n offsets))
        (map (candidate r place) (drop n offsets)) ys)

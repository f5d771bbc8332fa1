-- ===== src/Pair/Nearest.antt =====
-- What the scans of src/categorical/include/pair_offset16_kernel.h promise: the nearest candidates in order, by
-- distance and then by id, and -1 where there are fewer.
use mathlib.Core.List.{append-nil}
use booleann.Base.{
  ℕ, zero, suc, ◌+◌, ◌*◌, ◌<◌, ◌≡◌, refl, sym, ap, subst, ◌∙◌, false, List, [], ◌∷◌, ◌++◌, map,
  replicate, ◌==◌, take, arith, Perm, ℤ, pos, negsuc, length-replicate,
}
use booleann.Pair.{
  DistanceId, worst, squared_l2, dimensions, max_u32, insert_all, empty_frontier, result_id,
}
use booleann.Pair.Candidates.{map-append}
use booleann.Pair.Frontier.{IsSorted}
use booleann.Pair.Inserted.{empty_frontier-Ready}
use booleann.Pair.Lower.{IsBytes, sum_l2-bound}
use booleann.Pair.Scan.{
  Rows, row_at, candidate, id_candidate, scan_exact, scan_packed, scan_global_ids,
}
use booleann.Pair.Sorting.{
  insert_each, insert_each-Perm, insert_each-IsSorted, insert_all-insert_each, AllFound,
  insert_each-replicate, insert_each-AllFound,
}

-- The first `n` of the candidates in order, -1 where there are fewer.
pub record IsNearest (n : ℕ) (candidates : List DistanceId) (result : List ℤ) : Type 0 where
  pub ranked : List DistanceId
  pub permuted : Perm ranked candidates
  pub sorted : IsSorted ranked
  pub returned : result ≡ take n (map (λ d. pos d.global_id) ranked ++ replicate n (negsuc 0))

map-take : {A B : Type 0} (f : A → B) (n : ℕ) (xs : List A) → map f (take n xs) ≡ take n (map f xs)
map-take f zero xs = refl
map-take f (suc n) [] = refl
map-take f (suc n) (x ∷ xs) = ap (◌∷◌ (f x)) (map-take f n xs)

map-replicate :
    {A B : Type 0} (f : A → B) (n : ℕ) (x : A) → map f (replicate n x) ≡ replicate n (f x)
map-replicate f zero x = refl
map-replicate f (suc n) x = ap (◌∷◌ (f x)) (map-replicate f n x)

take-replicate : (n : ℕ) (x : DistanceId) → take n (replicate n x) ≡ replicate n x
take-replicate zero x = refl
take-replicate (suc n) x = ap (◌∷◌ x) (take-replicate n x)

map-result_id :
    (xs : List DistanceId) → AllFound xs → map result_id xs ≡ map (λ d. pos d.global_id) xs
map-result_id [] h = refl
map-result_id (x ∷ xs) h =
    let e : (x.distance == max_u32) ≡ false = ground (arith, h.0) in
    rw e (ap (◌∷◌ (pos x.global_id)) (map-result_id xs h.1))

insert_all-IsNearest :
    (k : ℕ) (xs : List DistanceId)
    → AllFound xs
    → IsNearest (suc k) xs (map result_id (insert_all k xs (empty_frontier k)))
insert_all-IsNearest k xs h =
    let ranked = insert_each xs [] in
    let padding = replicate (suc k) worst in
    record {
      ranked = ranked;
      permuted = subst (Perm ranked) (append-nil xs) (insert_each-Perm xs []);
      sorted = insert_each-IsSorted xs [] tt;
      returned =
          ap (map result_id) (
            ap (insert_all k xs) (sym (take-replicate (suc k) worst))
            ∙ insert_all-insert_each k xs padding (empty_frontier-Ready k).sorted
                (omega (arith, length-replicate (suc k) worst))
            ∙ ap (take (suc k)) (insert_each-replicate k xs [] h))
          ∙ map-take result_id (suc k) (ranked ++ padding)
          ∙ ap (take (suc k)) (
              map-append result_id ranked padding
              ∙ ap (λ ids. ids ++ map result_id padding)
                  (map-result_id ranked (insert_each-AllFound xs [] h tt))
              ∙ ap (λ ids. map (λ d. pos d.global_id) ranked ++ ids)
                  (map-replicate result_id (suc k) worst));
    }

-- The distance of vectors of bytes is below the mark of an empty place.
squared_l2-bound :
    (left right : ℕ → ℕ) → IsBytes left → IsBytes right → squared_l2 left right < max_u32
unfolding squared_l2
squared_l2-bound left right l r =
    omega (arith, sum_l2-bound left right l r dimensions (omega arith))

AllFound-map :
    (f : ℕ → DistanceId) (offsets : List ℕ)
    → ((offset : ℕ) → (f offset).distance < max_u32)
    → AllFound (map f offsets)
AllFound-map f [] h = tt
AllFound-map f (offset ∷ offsets) h = (h offset, AllFound-map f offsets h)

-- On vectors of bytes the scan of the rows at the global ids, the scan of the packed rows and the scan of the
-- ids of an intersection each return the ids of the K nearest candidates in the order of distance and then
-- id, and -1 in the places that are left.
pub scans-IsNearest :
    (k : ℕ) (r : Rows) (offsets : List ℕ)
    → IsBytes r.query
    → IsBytes r.vectors
    → IsNearest (suc k) (map (candidate r r.primary_global_ids) offsets) (scan_exact k offsets r)
      × IsNearest (suc k) (map (candidate r (λ offset. offset)) offsets) (scan_packed k offsets r)
      × IsNearest (suc k) (map (id_candidate r) offsets) (scan_global_ids k offsets r)
unfolding scan_exact scan_packed scan_global_ids
scans-IsNearest k r offsets q v =
    let row : (place : ℕ) → IsBytes (row_at r place) = λ place i. v (place * r.vector_stride + i) in
    let near : (place : ℕ → ℕ) (offset : ℕ)
        → squared_l2 r.query (row_at r (place offset)) < max_u32 =
      λ place offset. squared_l2-bound r.query (row_at r (place offset)) q (row (place offset)) in
    (
      insert_all-IsNearest k (map (candidate r r.primary_global_ids) offsets)
          (AllFound-map (candidate r r.primary_global_ids) offsets (near r.primary_global_ids)),
      insert_all-IsNearest k (map (candidate r (λ offset. offset)) offsets)
          (AllFound-map (candidate r (λ offset. offset)) offsets (near (λ offset. offset))),
      insert_all-IsNearest k (map (id_candidate r) offsets)
          (AllFound-map (id_candidate r) offsets (near (λ id. id))),
    )

-- ===== src/Pair/Bounded.antt =====
-- The bounded scans of src/categorical/include/pair_offset16_kernel.h, against those that complete every sum.
use booleann.Base.{
  ℕ, zero, suc, ◌+◌, ◌*◌, ◌%◌, ◌^◌, ◌≤◌, ◌≡◌, refl, ap, Bool, true, false, List, [], ◌∷◌, map, ◌==◌,
  get_or, arith, Bool-cases, inl, inr,
}
use booleann.Pair.{
  DistanceId, worst, less, insert_top_k, insert_all, empty_frontier, result_id, square, sum_l2,
  squared_l2, dimensions, Cutoff, max_u32, beyond, Staged, staged, bounded_l2, every64, every32,
}
use booleann.Pair.Scan.{
  Rows, row_at, candidate, offer_all, scan_exact, scan_packed, scan_bounded, scan_packed_bounded,
  scan_packed_bounded32,
}
use booleann.Pair.Candidates.{less_irreflexive, insert_top_k_lower}
use booleann.Pair.Lower.{IsBytes, sum_l2-suc, sum_l2-bound}

-- What the loop of a bounded sum knows after `n` dimensions.
record IsStaged (left right : ℕ → ℕ) (c : Cutoff) (n : ℕ) (s : Staged) : Type 0 where
  completed : s.rejected ≡ false → s.partial ≡ sum_l2 n left right
  refused : s.rejected ≡ true → (beyond c s.partial ≡ true) × (s.partial ≤ sum_l2 n left right)

module _ (checkpoint : ℕ → Bool) (left right : ℕ → ℕ) (l : IsBytes left) (r : IsBytes right)
    (c : Cutoff) where
  staged-IsStaged :
      (n : ℕ) → n ≤ dimensions → IsStaged left right c n (staged checkpoint left right c n)
  unfolding staged
  staged-IsStaged zero h = record {
    completed = λ e. unfold sum_l2 in refl;
    refused = λ e. absurd (ground arith);
  }
  staged-IsStaged (suc n) h =
      let before = staged checkpoint left right c n in
      let known = staged-IsStaged n (omega arith) in
      let next = sum_l2-suc left right l r n h in
      elim (Bool-cases before.rejected) [
        | inl e ↦ rw e (record {
          completed = λ f. absurd (ground arith);
          refused = λ f. ((known.refused e).0, omega (arith, (known.refused e).1, next));
        })
        | inr e ↦
            let sum = known.completed e in
            let bound = sum_l2-bound left right l r (suc n) h in
            let partial = (before.partial + square (left n) (right n)) % 2 ^ 32 in
            let same : partial ≡ sum_l2 (suc n) left right = omega arith in
            rw e (record { completed = λ f. same; refused = λ f. (ground arith, omega arith) })
      ]

  -- A sum that is not rejected is the distance; a rejected one is a lower bound that cannot improve.
  bounded_l2-IsStaged : IsStaged left right c dimensions (bounded_l2 checkpoint left right c)
  unfolding bounded_l2 squared_l2
  bounded_l2-IsStaged = elim (Bool-cases (c.cutoff_distance == max_u32)) [
    | inl e ↦ rw e (record { completed = λ f. refl; refused = λ f. absurd (ground arith) })
    | inr e ↦ rw e (staged-IsStaged dimensions (omega arith))
  ]

module _ (checkpoint : ℕ → Bool) (k : ℕ) (r : Rows) (q : IsBytes r.query) (v : IsBytes r.vectors)
    (place : ℕ → ℕ) where
  offer_all-insert_all :
      (offsets : List ℕ) (ys : List DistanceId)
      → offer_all checkpoint k r place offsets ys
        ≡ insert_all k (map (candidate r place) offsets) ys
  unfolding offer_all insert_all
  offer_all-insert_all [] ys = refl
  offer_all-insert_all (offset ∷ offsets) ys =
      let last = get_or ys k worst in
      let row = row_at r (place offset) in
      let id = r.primary_global_ids offset in
      let c : Cutoff = record {
        cutoff_distance = last.distance;
        cutoff_global_id = last.global_id;
        candidate_global_id = id;
      } in
      let b : IsBytes row = λ i. v (place offset * r.vector_stride + i) in
      let sum = bounded_l2 checkpoint r.query row c in
      let known = bounded_l2-IsStaged checkpoint r.query row q b c in
      elim (Bool-cases sum.rejected) [
        | inl e ↦
            let low : less (record { distance = sum.partial; global_id = id }) last ≡ false =
              ground (arith, (known.refused e).0) in
            rw
              (
                e,
                insert_all,
                insert_top_k_lower k sum.partial id (candidate r place offset) last ys low
                    (unfold squared_l2 in (known.refused e).1) refl (less_irreflexive last),
              )
              (offer_all-insert_all offsets ys)
        | inr e ↦
            let whole : sum.partial ≡ squared_l2 r.query row =
              unfold squared_l2 in known.completed e in
            rw (e, insert_all, whole)
              (offer_all-insert_all offsets (insert_top_k k (candidate r place offset) ys))
      ]

  pub bounded-exact :
      (offsets : List ℕ)
      → map result_id (offer_all checkpoint k r place offsets (empty_frontier k))
        ≡ map result_id (insert_all k (map (candidate r place) offsets) (empty_frontier k))
  bounded-exact offsets = ap (map result_id) (offer_all-insert_all offsets (empty_frontier k))

-- On vectors of bytes each of the three bounded scans returns what the scan of the same rows that completes
-- every sum returns.
pub bounded_scans_lem :
    (k : ℕ) (r : Rows) (offsets : List ℕ)
    → IsBytes r.query
    → IsBytes r.vectors
    → (scan_bounded k offsets r ≡ scan_exact k offsets r)
      × (scan_packed_bounded k offsets r ≡ scan_packed k offsets r)
      × (scan_packed_bounded32 k offsets r ≡ scan_packed k offsets r)
unfolding scan_bounded scan_exact scan_packed_bounded scan_packed_bounded32 scan_packed
bounded_scans_lem k r offsets q v = (
  (bounded-exact every64 k r q v r.primary_global_ids offsets),
  bounded-exact every64 k r q v (λ offset. offset) offsets,
  bounded-exact every32 k r q v (λ offset. offset) offsets,
)

-- ===== src/Pair/Cascaded.antt =====
-- The cascades of src/categorical/include/pair_offset16_block16.h and pair_offset16_prefix128.h, against the scan
-- that completes every sum.
use booleann.Base.{
  ℕ, zero, suc, ◌+◌, ◌*◌, ◌%◌, ◌^◌, ◌≤◌, ◌<◌, ◌≡◌, refl, ap, ◌∙◌, List, [], ◌∷◌, map, get_or, take,
  drop, length, length-drop, arith, Bool-cases, inl, inr,
}
use booleann.Pair.{
  DistanceId, worst, less, squared_l2, from, insert_top_k, insert_all, empty_frontier, result_id,
}
use booleann.Pair.Inserted.{
  Ready, IsWithin, insert_top_k-Ready, insert_top_k-IsWithin, empty_frontier-Ready,
}
use booleann.Pair.Candidates.{
  less_irreflexive, insert_top_k_lower, insert_all-Ready, insert_all-parts,
}
use booleann.Pair.Lower.{IsBytes, sum_l2-add, sum_l2-bound}
use booleann.Pair.Scan.{Rows, row_at, candidate, scan_packed}
use booleann.Pair.Block16.{
  exact_line64, stage0, stage1, stage2, scan_block, scan_blocks, scan_block16, seeded,
}
use booleann.Pair.Prefix128.{
  exact_prefix128, exact_suffix64, first_pass, second_pass, scan_prefix128,
}

module _ (k : ℕ) (r : Rows) (q : IsBytes r.query) (v : IsBytes r.vectors) where
  abbrev here : ℕ → ℕ
  here offset = offset

  row-IsBytes : (offset : ℕ) → IsBytes (row_at r offset)
  row-IsBytes offset i = v (offset * r.vector_stride + i)

  abbrev line : ℕ → ℕ → ℕ
  line n offset = exact_line64 (from n r.query) (from n (row_at r offset))

  abbrev whole : ℕ → ℕ
  whole offset = squared_l2 r.query (row_at r offset)

  -- The three lines add up to the distance.
  lines_add :
      (offset : ℕ)
      → exact_line64 r.query (row_at r offset) + line 64 offset + line 128 offset ≡ whole offset
  unfolding exact_line64 squared_l2
  lines_add offset =
      let row = row_at r offset in
      let b = row-IsBytes offset in
      grind (
        arith,
        sum_l2-add r.query row q b 64 64 (omega arith),
        sum_l2-add r.query row q b 128 64 (omega arith),
      )

  whole-bound : (offset : ℕ) → whole offset < 2 ^ 32
  unfolding squared_l2
  whole-bound offset =
      omega (arith, sum_l2-bound r.query (row_at r offset) q (row-IsBytes offset) 192 (omega arith))

  -- A block, against the frontier at its beginning and one that has got better since.
  stages :
      (last : DistanceId) (offsets : List ℕ) (ys : List DistanceId)
      → Ready k ys
      → IsWithin k ys last
      → stage2 k r (stage1 r last (stage0 r last offsets)) ys
        ≡ insert_all k (map (candidate r here) offsets) ys
  unfolding stage0 stage1 stage2 insert_all
  stages last [] ys g w = refl
  stages last (offset ∷ offsets) ys g w =
      let id = r.primary_global_ids offset in
      let sum = lines_add offset in
      let bound = whole-bound offset in
      let x = candidate r here offset in
      let first = exact_line64 r.query (row_at r offset) in
      let second = (first + line 64 offset) % 2 ^ 32 in
      let third : (second + line 128 offset) % 2 ^ 32 ≡ whole offset = omega arith in
      elim (Bool-cases (less (record { distance = first; global_id = id }) last)) [
        | inr e ↦
            rw (e, insert_all, insert_top_k_lower k first id x last ys e (omega arith) refl w)
              (stages last offsets ys g w)
        | inl e ↦ elim (Bool-cases (less (record { distance = second; global_id = id }) last)) [
          | inr f ↦
              rw (e, f, insert_all, insert_top_k_lower k second id x last ys f (omega arith) refl w)
                (stages last offsets ys g w)
          | inl f ↦
              elim (Bool-cases
                (less (record { distance = second; global_id = id }) (get_or ys k worst))) [
                  | inr h ↦
                      rw
                        (
                          e,
                          f,
                          stage2,
                          h,
                          insert_all,
                          insert_top_k_lower k second id x (get_or ys k worst) ys h (omega arith)
                              refl (less_irreflexive (get_or ys k worst)),
                        )
                        (stages last offsets ys g w)
                  | inl h ↦
                      rw (e, f, stage2, h, third)
                        (stages last offsets (insert_top_k k x ys) (insert_top_k-Ready k x ys g)
                          (insert_top_k-IsWithin k x ys last g w))
                ]
        ]
      ]

  block :
      (offsets : List ℕ) (ys : List DistanceId)
      → Ready k ys
      → scan_block k r offsets ys ≡ insert_all k (map (candidate r here) offsets) ys
  unfolding scan_block
  block offsets ys g =
      stages (get_or ys k worst) offsets ys g (less_irreflexive (get_or ys k worst))

  blocks :
      (fuel : ℕ) (offsets : List ℕ) (ys : List DistanceId)
      → length offsets ≤ fuel
      → Ready k ys
      → scan_blocks fuel k r offsets ys ≡ insert_all k (map (candidate r here) offsets) ys
  unfolding scan_blocks insert_all
  blocks zero [] ys h g = refl
  blocks zero (offset ∷ offsets) ys h g = absurd (omega arith)
  blocks (suc fuel) [] ys h g = refl
  blocks (suc fuel) (offset ∷ offsets) ys h g =
      let rest = drop 16 (offset ∷ offsets) in
      let here_all = map (candidate r here) (take 16 (offset ∷ offsets)) in
      ap (scan_blocks fuel k r rest) (block (take 16 (offset ∷ offsets)) ys g)
      ∙ blocks fuel rest (insert_all k here_all ys)
          (omega (arith, length-drop 16 (offset ∷ offsets))) (insert_all-Ready k here_all ys g)
      ∙ insert_all-parts k r here 16 (offset ∷ offsets) ys

  seeded-Ready : (offsets : List ℕ) → Ready k (seeded k offsets r)
  seeded-Ready offsets =
      insert_all-Ready k (map (candidate r here) (take (suc k) offsets)) (empty_frontier k)
        (empty_frontier-Ready k)

  -- On vectors of bytes the blocks of 16 return what the scan that completes every sum returns.
  pub scan_block16-scan_packed :
      (offsets : List ℕ) → scan_block16 k offsets r ≡ scan_packed k offsets r
  unfolding scan_block16 scan_packed
  scan_block16-scan_packed offsets =
      let others = drop (suc k) offsets in
      ap (map result_id) (
        blocks (length others) others (seeded k offsets r) (omega arith) (seeded-Ready offsets)
        ∙ insert_all-parts k r here (suc k) offsets (empty_frontier k))

  prefix_add :
      (offset : ℕ)
      → exact_prefix128 r.query (row_at r offset)
          + exact_suffix64 (from 128 r.query) (from 128 (row_at r offset))
        ≡ whole offset
  unfolding exact_prefix128 exact_suffix64 squared_l2
  prefix_add offset =
      grind
        (arith, sum_l2-add r.query (row_at r offset) q (row-IsBytes offset) 128 64 (omega arith))

  -- The two passes, the first against an earlier frontier.
  passes :
      (last : DistanceId) (offsets : List ℕ) (ys : List DistanceId)
      → Ready k ys
      → IsWithin k ys last
      → second_pass k r (first_pass r last offsets) ys
        ≡ insert_all k (map (candidate r here) offsets) ys
  unfolding first_pass second_pass insert_all
  passes last [] ys g w = refl
  passes last (offset ∷ offsets) ys g w =
      let id = r.primary_global_ids offset in
      let sum = prefix_add offset in
      let bound = whole-bound offset in
      let x = candidate r here offset in
      let prefix = exact_prefix128 r.query (row_at r offset) in
      let suffix = exact_suffix64 (from 128 r.query) (from 128 (row_at r offset)) in
      let total : (prefix + suffix) % 2 ^ 32 ≡ whole offset = omega arith in
      let now = get_or ys k worst in
      elim (Bool-cases (less (record { distance = prefix; global_id = id }) last)) [
        | inr e ↦
            rw (e, insert_all, insert_top_k_lower k prefix id x last ys e (omega arith) refl w)
              (passes last offsets ys g w)
        | inl e ↦ elim (Bool-cases (less (record { distance = prefix; global_id = id }) now)) [
          | inr h ↦
              rw
                (
                  e,
                  second_pass,
                  h,
                  insert_all,
                  insert_top_k_lower k prefix id x now ys h (omega arith) refl
                      (less_irreflexive now),
                )
                (passes last offsets ys g w)
          | inl h ↦
              rw (e, second_pass, h, total)
                (passes last offsets (insert_top_k k x ys) (insert_top_k-Ready k x ys g)
                  (insert_top_k-IsWithin k x ys last g w))
        ]
      ]

  pub scan_prefix128-scan_packed :
      (offsets : List ℕ) → scan_prefix128 k offsets r ≡ scan_packed k offsets r
  unfolding scan_prefix128 scan_packed
  scan_prefix128-scan_packed offsets =
      let ys = seeded k offsets r in
      ap (map result_id) (
        passes (get_or ys k worst) (drop (suc k) offsets) ys (seeded-Ready offsets)
          (less_irreflexive (get_or ys k worst))
        ∙ insert_all-parts k r here (suc k) offsets (empty_frontier k))

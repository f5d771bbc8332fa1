-- ===== src/Leaf/Emission.antt =====
-- How src/laion/native/leaf_posting_merge.cpp writes a run of increasing ids with `emit_or_remove`.
use mathlib.Core.List.{append-nil, append_assoc}
use booleann.Base.{
  ℕ, suc, ◌+◌, ◌-◌, ◌≤◌, ◌<◌, ◌≡◌, refl, false, List, [], ◌∷◌, ◌++◌, ◌==◌, if◌then◌else◌, get_or,
  length, length-append, take, arith, inl, inr, Bool-cases, dec_lt, dec_lt,
}
use booleann.Base.Ordered.{IsAscendingFrom, contains, contains-below, remove}
use booleann.Leaf.Emit.{Status, ok, overflow, Emission, emit_or_remove}

abbrev pub last_or {ℓ} : {A : Type ℓ} → List A → A → A
last_or xs d = get_or xs (length xs - 1) d

pub get_or-append_last {ℓ} :
    {A : Type ℓ} (xs : List A) (x d : A) → get_or (xs ++ x ∷ []) (length xs) d ≡ x
get_or-append_last [] x d = refl
get_or-append_last (y ∷ xs) x d = get_or-append_last xs x d

-- The output may go on with ids from `lo`: its rows are counted, and the last of them is below `lo`.
pub record IsReady (lo : ℕ) (e : Emission) : Type 0 where
  pub counted : e.output_rows ≡ length e.output
  pub below : 0 < e.output_rows → get_or e.output (e.output_rows - 1) 0 < lo

module _ (self_id capacity : ℕ) where
  -- The ids are emitted in turn until one is refused.
  unfoldable pub emit_all : List ℕ → Emission → Status × Emission
  emit_all [] e = (ok, e)
  emit_all (id ∷ ids) e =
      let (status, e') = emit_or_remove self_id capacity id e in
      elim status [ ok ↦ emit_all ids e' | other ↦ (other, e') ]

  IsReady-weaken : {lo lo' : ℕ} {e : Emission} → lo ≤ lo' → IsReady lo e → IsReady lo' e
  IsReady-weaken h r = record { counted = r.counted; below = λ p. omega (arith, r.below p) }

  appended-IsReady :
      (id : ℕ) (e : Emission) {lo : ℕ}
      → IsReady lo e
      → IsReady (id + 1) (record e {
        unique_candidates = e.unique_candidates + 1;
        output = e.output ++ id ∷ [];
        output_rows = e.output_rows + 1;
      })
  appended-IsReady id e r = record {
    counted = omega (arith, r.counted, length-append e.output (id ∷ []));
    below = λ _. ground (arith, r.counted, get_or-append_last e.output id 0);
  }

  emit_self :
      (e : Emission)
      → emit_or_remove self_id capacity self_id e ≡ (
        ok,
        record e { unique_candidates = e.unique_candidates + 1; removed_self = e.removed_self + 1 },
      )
  unfolding emit_or_remove
  emit_self e = ground arith

  emit_row :
      (id : ℕ) (e : Emission)
      → IsReady id e
      → (id == self_id) ≡ false
      → e.output_rows < capacity
      → emit_or_remove self_id capacity id e ≡ (
        ok,
        record e {
          unique_candidates = e.unique_candidates + 1;
          output = e.output ++ id ∷ [];
          output_rows = e.output_rows + 1;
        },
      )
  unfolding emit_or_remove
  emit_row id e r n h = ground (arith, r.below)

  emit_full :
      (id : ℕ) (e : Emission)
      → (id == self_id) ≡ false
      → capacity ≡ e.output_rows
      → emit_or_remove self_id capacity id e ≡ (
        overflow,
        record e {
          unique_candidates = e.unique_candidates + 1;
          overflow_required_minimum = capacity + 1;
        },
      )
  unfolding emit_or_remove
  emit_full id e n h = ground arith

  -- With room for all of them, the ids other than the query's own are appended, and no other slot
  -- than the counters changes.
  pub emit_all-fits :
      (ids : List ℕ) (lo : ℕ) (e : Emission)
      → IsAscendingFrom lo ids
      → IsReady lo e
      → e.output_rows + length (remove self_id ids) ≤ capacity
      → emit_all ids e ≡ (
        ok,
        record e {
          output = e.output ++ remove self_id ids;
          output_rows = e.output_rows + length (remove self_id ids);
          removed_self = e.removed_self + (if contains ids self_id then 1 else 0);
          unique_candidates = e.unique_candidates + length ids;
        },
      )
  unfolding emit_all remove
  emit_all-fits [] lo e a r h = ground (arith, append-nil e.output)
  emit_all-fits (id ∷ ids) lo e a r h = elim (Bool-cases (id == self_id)) [
    | inl same ↦
        let e' = record e {
          unique_candidates = e.unique_candidates + 1;
          removed_self = e.removed_self + 1;
        } in
        let ready : IsReady (id + 1) e' = record {
          counted = r.counted;
          below = λ p. omega (arith, r.below p);
        } in
        let rest = emit_all-fits ids (id + 1) e' a.1 ready in
        ground (arith, emit_self e, rest, contains-below (id + 1) self_id ids a.1)
    | inr other ↦
        let e' : Emission = record e {
          unique_candidates = e.unique_candidates + 1;
          output = e.output ++ id ∷ [];
          output_rows = e.output_rows + 1;
        } in
        let ready : IsReady (id + 1) e' = appended-IsReady id e r in
        ground (
          arith,
          emit_row id e (IsReady-weaken a.0 r) other,
          emit_all-fits ids (id + 1) e' a.1 ready,
          append_assoc e.output (id ∷ []) (remove self_id ids),
        )
  ]

  -- Without the room, the output is filled up to the capacity, and the status and the audit say so.
  pub emit_all-overflows :
      (ids : List ℕ) (lo : ℕ) (e : Emission)
      → IsAscendingFrom lo ids
      → IsReady lo e
      → e.output_rows ≤ capacity
      → capacity < e.output_rows + length (remove self_id ids)
      → let (status, e') = emit_all ids e in
        (status ≡ overflow)
        × (e'.output ≡ e.output ++ take (capacity - e.output_rows) (remove self_id ids))
        × (e'.overflow_required_minimum ≡ capacity + 1)
  unfolding emit_all remove
  emit_all-overflows [] lo e a r m h = absurd (omega arith)
  emit_all-overflows (id ∷ ids) lo e a r m h = elim (Bool-cases (id == self_id)) [
    | inl same ↦
        let e' = record e {
          unique_candidates = e.unique_candidates + 1;
          removed_self = e.removed_self + 1;
        } in
        let ready : IsReady (id + 1) e' = record {
          counted = r.counted;
          below = λ p. omega (arith, r.below p);
        } in
        ground (arith, emit_self e, emit_all-overflows ids (id + 1) e' a.1 ready m)
    | inr other ↦ elim (dec_lt e.output_rows capacity) [
      | yes room ↦
          let e' : Emission = record e {
            unique_candidates = e.unique_candidates + 1;
            output = e.output ++ id ∷ [];
            output_rows = e.output_rows + 1;
          } in
          let ready : IsReady (id + 1) e' = appended-IsReady id e r in
          let k = capacity - e'.output_rows in
          let step : capacity - e.output_rows ≡ suc k = omega arith in
          ground (
            arith,
            step,
            emit_row id e (IsReady-weaken a.0 r) other room,
            emit_all-overflows ids (id + 1) e' a.1 ready,
            append_assoc e.output (id ∷ []) (take k (remove self_id ids)),
          )
      | no full ↦
          let none_left : capacity - e.output_rows ≡ 0 = omega arith in
          ground (arith, none_left, emit_full id e other, append-nil e.output)
    ]
  ]

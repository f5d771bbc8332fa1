-- ===== src/Protocol/Judged.antt =====
-- What the judgements of src/laion_sieve/laion1m_v19_same_resident_formal_protocol.h say.
use mathlib.Core.Logic.{∥∥₁_elim}
use mathlib.Core.List.{Permᴰ, perm_middle}
use mathlib.Core.List.Perm
use native.Mathlib.Nat.{ℕ_set}
use booleann.Base.{
  ℕ, ◌+◌, ◌≤◌, ◌≡◌, ◌↔◌, refl, true, some, List, [], ◌∷◌, length, arith, suc, ap, sym, ◌∙◌, ◌++◌,
  false, Perm, Bool-cases, inl, inr,
}
use booleann.Base.Ordered.{IsAscendingFrom, contains}
use booleann.Protocol.{pass, Resources, resource_decision, max_u64}
use booleann.Protocol.Sorted.{All}
use booleann.Protocol.Judge.{sorted_unique, count_hits, strict_set_hits}

-- For 64-bit counts, the decision is to pass exactly if, persistent and at run time, the reference and
-- the graph together have a size of 64 bits that the saturated index does not exceed.
pub resource_decision_iff :
    (r : Resources)
    → r.reference_persistent ≤ max_u64
    → r.reference_runtime ≤ max_u64
    → (resource_decision r ≡ pass) ↔ (
        (r.reference_persistent + r.graph_persistent ≤ max_u64)
        × (r.saturated_persistent ≤ r.reference_persistent + r.graph_persistent)
        × (r.reference_runtime + r.graph_observed_runtime ≤ max_u64)
        × (r.saturated_runtime ≤ r.reference_runtime + r.graph_observed_runtime))
unfolding resource_decision
resource_decision_iff r h k = (
  λ e. (ground arith, ground arith, ground arith, ground arith),
  λ (a, b, c, d). ground (arith, a, b, c, d),
)

sorted_unique-IsAscendingFrom :
    (lo : ℕ) (x : ℕ) (xs : List ℕ)
    → lo ≤ x
    → sorted_unique (x ∷ xs) ≡ true
    → IsAscendingFrom lo (x ∷ xs)
unfolding sorted_unique
sorted_unique-IsAscendingFrom lo x [] h e = (h, tt)
sorted_unique-IsAscendingFrom lo x (y ∷ xs) h e =
    (h, sorted_unique-IsAscendingFrom (x + 1) y xs (ground (arith, e)) (ground (arith, e)))

sorted_unique_lem : (xs : List ℕ) → sorted_unique xs ≡ true → IsAscendingFrom 0 xs
sorted_unique_lem [] e = tt
sorted_unique_lem (x ∷ xs) e = sorted_unique-IsAscendingFrom 0 x xs (omega arith) e

sorted_unique-from : (lo : ℕ) (xs : List ℕ) → IsAscendingFrom lo xs → sorted_unique xs ≡ true
unfolding sorted_unique
sorted_unique-from lo [] p = refl
sorted_unique-from lo (x ∷ []) p = refl
sorted_unique-from lo (x ∷ y ∷ xs) p = ground (arith, sorted_unique-from (x + 1) (y ∷ xs) p.1)

-- The observed ids, in some order, are `hits` ids that are in the truth and some that are not.
pub record IsHitCount (truth observed : List ℕ) (hits : ℕ) : Type 0 where
  pub found : List ℕ
  pub missed : List ℕ
  pub partition : Perm (found ++ missed) observed
  pub in_truth : All (λ id. contains truth id ≡ true) found
  pub not_in_truth : All (λ id. contains truth id ≡ false) missed
  pub number : length found ≡ hits

count_hits-IsHitCount :
    (truth observed : List ℕ) → IsHitCount truth observed (count_hits truth observed)
unfolding count_hits
count_hits-IsHitCount truth [] = record {
  found = [];
  missed = [];
  partition = Perm.refl [];
  in_truth = tt;
  not_in_truth = tt;
  number = refl;
}
count_hits-IsHitCount truth (id ∷ observed) =
    let rest = count_hits-IsHitCount truth observed in
    elim (Bool-cases (contains truth id)) [
      | inl e ↦ rw e (record {
        found = id ∷ rest.found;
        missed = rest.missed;
        partition = Perm.cons id rest.partition;
        in_truth = (e, rest.in_truth);
        not_in_truth = rest.not_in_truth;
        number = ap suc rest.number;
      })
      | inr e ↦ rw e (record {
        found = rest.found;
        missed = id ∷ rest.missed;
        partition = Perm.trans (perm_middle rest.found rest.missed) (Perm.cons id rest.partition);
        in_truth = rest.in_truth;
        not_in_truth = (e, rest.not_in_truth);
        number = rest.number;
      })
    ]

count_hits-Permᴰ :
    (truth : List ℕ) {xs ys : List ℕ} → Permᴰ xs ys → count_hits truth xs ≡ count_hits truth ys
unfolding count_hits
count_hits-Permᴰ truth Permᴰ.nil = refl
count_hits-Permᴰ truth (Permᴰ.cons {a = a} {b = b} {l₁ = xs} {l₂ = ys} e p) =
    let rest : count_hits truth xs ≡ count_hits truth ys = count_hits-Permᴰ truth p in
    rw (e, rest) refl
count_hits-Permᴰ truth (Permᴰ.swap {a = a} {b = b} e e') = rw (sym e, sym e') (ground arith)
count_hits-Permᴰ truth (Permᴰ.trans p q) = count_hits-Permᴰ truth p ∙ count_hits-Permᴰ truth q

count_hits-append :
    (truth found missed : List ℕ)
    → All (λ id. contains truth id ≡ true) found
    → All (λ id. contains truth id ≡ false) missed
    → count_hits truth (found ++ missed) ≡ length found
unfolding count_hits
count_hits-append truth [] [] h k = refl
count_hits-append truth [] (id ∷ missed) h k = rw k.0 (count_hits-append truth [] missed h k.1)
count_hits-append truth (id ∷ found) missed h k =
    rw h.0 (ap suc (count_hits-append truth found missed h.1 k))

-- The hits are counted exactly if the truth is strictly increasing, and their count is the number of observed
-- ids, each as often as it is observed, that are in the truth.
pub strict_set_hits_iff :
    (truth observed : List ℕ) (hits : ℕ)
    → (strict_set_hits truth observed ≡ some hits)
      ↔ (IsAscendingFrom 0 truth × IsHitCount truth observed hits)
unfolding strict_set_hits
strict_set_hits_iff truth observed hits = (
  λ e. elim (Bool-cases (sorted_unique truth)) [
    | inl f ↦
        let same : count_hits truth observed ≡ hits = cc ((rw f at e)) in
        (sorted_unique_lem truth f, rw (sym same) (count_hits-IsHitCount truth observed))
    | inr f ↦ absurd (cc ((rw f at e)))
  ],
  λ (a, c).
      let same : count_hits truth observed ≡ hits =
        ∥∥₁_elim c.partition (ℕ_set _ _) (λ p. sym (count_hits-Permᴰ truth p))
        ∙ count_hits-append truth c.found c.missed c.in_truth c.not_in_truth
        ∙ c.number in
      rw (sorted_unique-from 0 truth a) (ap some same),
)

-- ===== src/Leaf/Validate.antt =====
-- `laion1m_leaf_validate_posting_v1` of src/laion/native/leaf_posting_merge.cpp accepts exactly the
-- arrays of strictly increasing rows below the universe.
use booleann.Base.{
  ℕ, ◌<◌, ◌≡◌, refl, sym, ap, ◌∙◌, true, Option, none, some, List, [], ◌∷◌, arith, ◌↔◌, map, ℤ, pos,
  negsuc,
}
use booleann.Base.Ordered.{IsSupport}
use booleann.Leaf.Emit.{ok}
use booleann.Leaf.Entry.{entries, Posting, validate_from, validate_posting, valid_pointer}
use booleann.Leaf.Loops.{after}

accepts :
    (u : ℕ) (previous : Option ℕ) (xs : List ℕ)
    → IsSupport (after previous) u xs
    → validate_from (pos u) previous (map pos xs) ≡ ok
unfolding validate_from
accepts u previous [] v = refl
accepts u none (x ∷ xs) v = ground (arith, accepts u (some x) xs (v.0.1, v.1.1))
accepts u (some previous) (x ∷ xs) v = ground (arith, accepts u (some x) xs (v.0.1, v.1.1))

accepted :
    (u : ℕ) (previous : Option ℕ) (xs : List ℤ)
    → validate_from (pos u) previous xs ≡ ok
    → (ids : List ℕ) × (xs ≡ map pos ids) × IsSupport (after previous) u ids
unfolding validate_from
accepted u previous [] h = ([], refl, (tt, tt))
accepted u previous (negsuc n ∷ xs) h = cc
accepted u none (pos x ∷ xs) h =
    let (ids, same, support) = accepted u (some x) xs (ground arith) in
    (x ∷ ids, ap (◌∷◌ (pos x)) same, ((ground arith, support.0), (ground arith, support.1)))
accepted u (some previous) (pos x ∷ xs) h =
    let (ids, same, support) = accepted u (some x) xs (ground arith) in
    (x ∷ ids, ap (◌∷◌ (pos x)) same, ((ground arith, support.0), (ground arith, support.1)))

validate_posting-from :
    (posting : Posting) (u : ℕ)
    → 0 < u
    → valid_pointer posting ≡ true
    → validate_posting posting (pos u) ≡ validate_from (pos u) none (entries posting)
unfolding validate_posting
validate_posting-from posting u h p = rw p (ground arith)

-- A posting that is not null is accepted exactly if its entries are row numbers that increase
-- strictly and stay below the universe.
pub validate_posting_iff :
    (posting : Posting) (u : ℕ)
    → 0 < u
    → valid_pointer posting ≡ true
    → (validate_posting posting (pos u) ≡ ok)
      ↔ ((ids : List ℕ) × (entries posting ≡ map pos ids) × IsSupport 0 u ids)
validate_posting_iff posting u h p = (
  λ e. accepted u none (entries posting) (sym (validate_posting-from posting u h p) ∙ e),
  λ (ids, same, support).
      validate_posting-from posting u h p
      ∙ ap (validate_from (pos u) none) same
      ∙ accepts u none ids support,
)

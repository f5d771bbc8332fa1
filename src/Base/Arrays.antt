-- ===== src/Base/Arrays.antt =====
-- Arrays that are filled in place, as functions of the index.
use Prim.Native.Nat.{ℕ, ◌+◌, ◌-◌}
use mathlib.Core.Bool.{◌&&◌}
use booleann.Base.Tests.{◌==◌, ltb, leb, if◌then◌else◌}

abbrev pub update {ℓ} : {A : Type ℓ} → (ℕ → A) → ℕ → A → ℕ → A
update f i v j = if i == j then v else f j

-- `memcpy(to + at, from + begin, count)`
abbrev pub copy {ℓ} : {A : Type ℓ} → (ℕ → A) → ℕ → (ℕ → A) → ℕ → ℕ → ℕ → A
copy to at from begin count j =
    if leb at j && ltb j (at + count) then from (begin + (j - at)) else to j

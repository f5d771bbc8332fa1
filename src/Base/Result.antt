-- ===== src/Base/Result.antt =====
-- Code that throws: a value or the reason of the exception.
use mathlib.Core.Bool.{Bool, true, false}
use mathlib.Core.Path.{◌≡◌, refl}
use booleann.Base.Tests.{if◌then◌else◌}

pub data Result {ℓ} (E : Type 0) (A : Type ℓ) : Type ℓ where
  ok : A → Result E A
  err : E → Result E A

infixl 5 ◌>>=◌ ◌>>◌
abbrev pub ◌>>=◌ {ℓ κ} :
    {E : Type 0} {A : Type ℓ} {B : Type κ} → Result E A → (A → Result E B) → Result E B
ok a >>= f = f a
err e >>= f = err e

abbrev pub ◌>>◌ {ℓ} : {E : Type 0} {B : Type ℓ} → Result E (Unit {0}) → Result E B → Result E B
m >> k = m >>= λ _. k

-- `if (!condition) throw ...`
abbrev pub require : {E : Type 0} → Bool → E → Result E (Unit {0})
require true e = ok tt
require false e = err e

-- A result that is returned by two steps.
pub two_steps {ℓ κ} :
    {E : Type 0} {A : Type ℓ} {B : Type κ} (m : Result E A) (f : A → Result E B) (b : B)
    → (m >>= f) ≡ ok b
    → (a : A) × (m ≡ ok a) × (f a ≡ ok b)
two_steps (ok a) f b e = (a, refl, e)
two_steps (err x) f b e = absurd (cc e)

-- A result that is returned behind a check.
pub behind_check {ℓ} :
    {E : Type 0} {A : Type ℓ} (c : Bool) (x : E) (m : Result E A) (a : A)
    → (if c then err x else m) ≡ ok a
    → (c ≡ false) × (m ≡ ok a)
behind_check true x m a e = absurd (cc e)
behind_check false x m a e = (refl, e)

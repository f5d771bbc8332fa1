-- ===== src/Base/Options.antt =====
-- The bind of options, and what a chain of them that gave a result has passed.
use mathlib.Core.Path.{◌≡◌, refl}
use mathlib.Core.Bool.{Bool, true, false}
use mathlib.Core.Option.{Option, none, some}
use booleann.Base.Tests.{if◌then◌else◌}

infixl 5 ◌>>=◌
abbrev pub ◌>>=◌ {ℓ κ} : {A : Type ℓ} {B : Type κ} → Option A → (A → Option B) → Option B
none >>= f = none
some a >>= f = f a

pub bind-inv :
    {A B : Type 0} (m : Option A) (f : A → Option B) (b : B)
    → (m >>= f) ≡ some b
    → (a : A) × (m ≡ some a) × (f a ≡ some b)
bind-inv none f b e = absurd (cc (e))
bind-inv (some a) f b e = (a, refl, e)

pub guard-inv :
    {A : Type 0} (c : Bool) (m : Option A) (a : A)
    → (if c then none else m) ≡ some a
    → (c ≡ false) × (m ≡ some a)
guard-inv true m a e = absurd (cc (e))
guard-inv false m a e = (refl, e)

pub keep-inv :
    {A : Type 0} (c : Bool) (x a : A) → (if c then some x else none) ≡ some a → (c ≡ true) × (x ≡ a)
keep-inv true x a e = (refl, cc (e))
keep-inv false x a e = absurd (cc (e))

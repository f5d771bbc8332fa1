-- ===== src/Base/Double.antt =====
-- The IEEE binary64 values that attributes and query bounds are. The language has no floating-point
-- numbers, so their type and the comparisons that the code makes are a parameter.
use mathlib.Core.Bool.{Bool, true, false}
use booleann.Base.Int.{ℤ, pos, negsuc}
use booleann.Base.Tests.{ltb, leb}

pub record Double : Type 1 where
  pub Value : Type 0
  -- `a < b` and `a <= b`; both are false at a NaN
  pub less : Value → Value → Bool
  pub at_most : Value → Value → Bool
  -- `std::isfinite` and `std::isnan`
  pub is_finite : Value → Bool
  pub is_nan : Value → Bool
  pub zero : Value
  pub one : Value
  -- the conversion from `std::int64_t`
  pub of_int64 : ℤ → Value

-- The whole numbers, with their order: enough to run the code on attributes that are counts.
abbrev pub whole : Double
whole = record {
  Value = ℤ;
  less = int_less;
  at_most = int_at_most;
  is_finite = λ _. true;
  is_nan = λ _. false;
  zero = pos 0;
  one = pos 1;
  of_int64 = λ n. n;
}
  where
    int_less : ℤ → ℤ → Bool
    int_less (pos a) (pos b) = ltb a b
    int_less (pos a) (negsuc b) = false
    int_less (negsuc a) (pos b) = true
    int_less (negsuc a) (negsuc b) = ltb b a

    int_at_most : ℤ → ℤ → Bool
    int_at_most (pos a) (pos b) = leb a b
    int_at_most (pos a) (negsuc b) = false
    int_at_most (negsuc a) (pos b) = true
    int_at_most (negsuc a) (negsuc b) = leb b a

-- ===== src/Types/Double.antt =====
-- The type `double` of C, with the operations that the variants use. It is a parameter: IEEE
-- arithmetic is not modelled.
use arnovich_core.Base.{ℕ, ◌≡◌, Bool, true, false, Option, List, ℤ, ltb_ℤ}

pub record Double : Type 1 where
  pub D : Type 0
  -- (double)i
  pub of_int : ℤ → D
  -- (int)d; none where the value does not fit
  pub to_int : D → Option ℤ
  pub plus : D → D → D
  pub minus : D → D → D
  pub times : D → D → D
  pub fabs : D → D
  pub less : D → D → Bool
  -- 0.0 and COMPARE_EPSILON, which is 0.000000001
  pub zero_double : D
  pub compare_epsilon : D
  -- what "%f" prints
  pub print : D → List ℕ

-- COMPARE_DOUBLE(a, b)
abbrev pub compare_double : (F : Double) → F.D → F.D → Bool
compare_double F a b = F.less (F.fabs (F.minus a b)) F.compare_epsilon

-- What IEEE doubles guarantee of these operations, where an `int` has an exact double.
pub record IsIeee (F : Double) : Type 0 where
  pub fabs-minus : (a b : F.D) → F.fabs (F.minus a b) ≡ F.fabs (F.minus b a)
  pub less_trans : (a b c : F.D) → F.less a b ≡ true → F.less b c ≡ true → F.less a c ≡ true
  pub less_irrefl : (a : F.D) → F.less a a ≡ false
  pub less-of_int : (a b : ℤ) → F.less (F.of_int a) (F.of_int b) ≡ ltb_ℤ a b

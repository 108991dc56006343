-- ===== src/Types/Wrapper/Methods.antt =====
-- The methods of the class `variant` that only read it: its tests, casts, operators and calls.
use arnovich_core.Base.{ℕ, Bool, List, [], ◌∷◌, if◌then◌else◌, ℤ, pos, eqb_ℤ, length, Outcome}
use arnovich_core.Base.CString.{terminated}
use arnovich_core.Types.Value.{Matrix, Variant}
use arnovich_core.Types.Double.{Double}
use arnovich_core.Types.Variant.{
  variant_free, variant_as_string, variant_as_matrix, variant_as_bool, variant_as_int,
  variant_as_double, variant_params, variant_is_empty, variant_is_bool, variant_is_int,
  variant_is_double, variant_is_string, variant_is_matrix, variant_is_error, variant_is_function,
}
use arnovich_core.Types.Operators.{
  is_true, Functions, variant_call, variant_equal, variant_less, variant_and, variant_or,
  variant_add, variant_multiply,
}
use arnovich_core.Types.Wrapper.{Shared, W, pure, ◌>>=◌, ◌>>◌, value, from_c, from_error}
use arnovich_core.Types.Wrapper as P

module _ {D : Type 0} where
  unfoldable pub is_empty : Shared D → Bool
  is_empty this = variant_is_empty this.m_v

  unfoldable pub is_bool : Shared D → Bool
  is_bool this = variant_is_bool this.m_v

  unfoldable pub is_int : Shared D → Bool
  is_int this = variant_is_int this.m_v

  unfoldable pub is_double : Shared D → Bool
  is_double this = variant_is_double this.m_v

  unfoldable pub is_string : Shared D → Bool
  is_string this = variant_is_string this.m_v

  unfoldable pub is_error : Shared D → Bool
  is_error this = variant_is_error this.m_v

  unfoldable pub is_matrix : Shared D → Bool
  is_matrix this = variant_is_matrix this.m_v

  unfoldable pub is_function : Shared D → Bool
  is_function this = variant_is_function this.m_v

-- The casts, the operators and the calls of functions.
module _ (F : Double) where
  unfoldable pub to_bool : Shared F.D → Bool
  to_bool this = is_true (variant_as_bool this.m_v)

  unfoldable pub to_int : Shared F.D → Outcome ℤ
  to_int this = variant_as_int F this.m_v

  unfoldable pub to_double : Shared F.D → F.D
  to_double this = variant_as_double F this.m_v

  -- The std::string is a copy of the bytes.
  unfoldable pub to_std_string : Shared F.D → W F.D (List ℕ)
  to_std_string this = do s ← P.c (variant_as_string this.m_v); value (terminated s)

  unfoldable pub to_matrix : Shared F.D → W F.D Matrix
  to_matrix this = P.c (variant_as_matrix this.m_v)

  unfoldable pub is_equal : (depth : ℕ) → Shared F.D → Shared F.D → W F.D Bool
  is_equal depth this v = P.c (variant_equal F depth this.m_v v.m_v)

  unfoldable pub is_less : Shared F.D → Shared F.D → W F.D Bool
  is_less this v = P.c (variant_less F this.m_v v.m_v)

  unfoldable pub is_greater : Shared F.D → Shared F.D → W F.D Bool
  is_greater this v = P.c (variant_less F v.m_v this.m_v)

  unfoldable pub is_and : Shared F.D → Shared F.D → Bool
  is_and this v = variant_and this.m_v v.m_v

  unfoldable pub is_or : Shared F.D → Shared F.D → Bool
  is_or this v = variant_or this.m_v v.m_v

  -- A C variant that is copied to an object and then freed.
  unfoldable pub through_c : Variant F.D → W F.D (Shared F.D)
  unfolding from_c
  through_c crtn = do rtn ← from_c crtn; P.c (variant_free crtn); pure rtn

  unfoldable pub plus : Shared F.D → Shared F.D → W F.D (Shared F.D)
  unfolding through_c
  plus this v = P.c (variant_add F this.m_v v.m_v) >>= through_c

  unfoldable pub times : Shared F.D → Shared F.D → W F.D (Shared F.D)
  unfolding through_c
  times this v = P.c (variant_multiply F this.m_v v.m_v) >>= through_c

  abbrev arguments : List (Shared F.D) → List (Variant F.D)
  arguments [] = []
  arguments (v ∷ vs) = v.m_v ∷ arguments vs

  -- call with as many arguments as the list has; there is an overload for up to five. The objects that
  -- the arguments are copied to are the caller's.
  unfoldable pub call :
      (low_double : F.D → ℤ) (non_function_message arguments_message wrong_number : List ℕ)
      → Functions F.D
      → Shared F.D
      → List (Shared F.D)
      → W F.D (Shared F.D)
  unfolding through_c from_error
  call low_double non_function_message arguments_message wrong_number run this vs =
      if eqb_ℤ (variant_params low_double this.m_v) (pos (length vs))
      then (P.c (variant_call non_function_message arguments_message run this.m_v (arguments vs))
          >>= through_c)
      else from_error wrong_number

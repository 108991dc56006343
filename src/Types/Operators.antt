-- ===== src/Types/Operators.antt =====
-- The operators of src/lib/core_types/core_types_variant.c and the call of a function.
pub mod Symmetry
pub mod Compare
pub mod Examples
pub mod Less
pub mod Strings
use arnovich_core.Base.{
  ℕ, zero, suc, ◌+◌, ◌-◌, ◌*◌, ◌/◌, ◌%◌, ◌^◌, ◌≤◌, ◌<◌, compare, Ordering, ◌≡◌, refl, sym, ap, ◌∙◌,
  ◌≢◌, ◌↔◌, ◌⊎◌, inl, inr, Bool, true, false, not, ◌&&◌, ◌||◌, Option, none, some, List, [], ◌∷◌,
  ◌++◌, map, append_assoc, append-nil, arith, ltb, leb, ◌==◌, if◌then◌else◌, ltb→lt, lt→ltb, le→ltb,
  ==_iff, ne→==, Bool-cases, ℤ, pos, negsuc, pos_part, neg_part, ◌+ℤ◌, ◌*ℤ◌, ltb_ℤ, leb_ℤ, eqb_ℤ,
  eq_of_eqb_ℤ, eqb_ℤ_refl, length, get_elem?, set, take, drop, replicate, length-append, length-set,
  length-take, length-drop, length-replicate, take-append-drop, take-all, get_elem?-set_self,
  get_elem?-set_ne, get_elem?-lt_length, get_elem?-of_lt, set-set, set-get_elem?,
  get_elem?-append_left, get_elem?-append_last, All, All-append, All-set, All-get_elem?, Outcome,
  done, fault, access,
}
use arnovich_core.Base.CString.{strlen, strcpy, strcmp, is_eq, is_lt}
use arnovich_core.Types.Value.{Matrix, Variant}
use arnovich_core.Types.Value
use arnovich_core.Types.Double.{Double, compare_double}
use arnovich_core.Types.Heap.{
  Block, chars, values, Heap, M, pure, undefined, and_then, ◌>>=◌, ◌>>◌, lift, malloc, free,
  load_chars,
}
use arnovich_core.Types.Matrix.{matrix_compare_by}
use arnovich_core.Types.Variant.{string_size, variant_from_error}

-- An int in a condition.
abbrev pub is_true : ℤ → Bool
is_true i = not (eqb_ℤ i (pos 0))

-- Signed arithmetic is undefined where the result does not fit an int.
unfoldable pub check_int : ℤ → Outcome ℤ
check_int (pos n) = if ltb n (2 ^ 31) then done (pos n) else fault
check_int (negsuc n) = if ltb n (2 ^ 31) then done (negsuc n) else fault

-- What a function of the program does: at its address, with its state where that is not NULL, on its
-- arguments. The arguments are a list; to read more of them than were passed is undefined.
abbrev pub Functions : Type 0 → Type 0
Functions D = ℕ → Option ℕ → List (Variant D) → M D (Variant D)

abbrev pub state_of : ℕ → Option ℕ
state_of m_a = if m_a == 0 then none else some m_a

module _ {D : Type 0} where
  -- strcmp of two strings of the heap
  unfoldable pub compare_strings : ℕ → ℕ → M D Ordering
  compare_strings p q = do s ← load_chars p; t ← load_chars q; lift (strcmp s t)

  unfoldable pub variant_and : Variant D → Variant D → Bool
  variant_and (Variant.bool a) (Variant.bool b) = is_true a && is_true b
  variant_and _ _ = false

  unfoldable pub variant_or : Variant D → Variant D → Bool
  variant_or (Variant.bool a) (Variant.bool b) = is_true a || is_true b
  variant_or _ _ = false

  -- Two strings in a new block: strcpy and strcat.
  unfoldable pub concat_strings : ℕ → ℕ → ℕ → M D ℕ
  concat_strings size p q = do
    s ← load_chars p
    t ← load_chars q
    copied ← lift (strcpy size s)
    n ← lift (strlen copied)
    appended ← lift (strcpy (size - n) t)
    malloc (chars (take n copied ++ appended))

  unfoldable pub call_function : Functions D → (n f a : ℕ) → List (Variant D) → M D (Variant D)
  call_function run n f a vl =
      if leb n (length vl) then run f (state_of a) (take n vl) else undefined

  module _ (non_function_message arguments_message : List ℕ) (run : Functions D) where
    -- The functions take at most five arguments.
    unfoldable pub variant_call : Variant D → List (Variant D) → M D (Variant D)
    variant_call (Variant.function (pos n) f a) vl =
        if ltb n 6 then call_function run n f a vl else variant_from_error arguments_message
    variant_call (Variant.function (negsuc n) f a) vl = variant_from_error arguments_message
    variant_call _ vl = variant_from_error non_function_message

module _ (F : Double) where
  -- `matrix_compare` is the comparison of matrices.
  unfoldable pub variant_equal_with :
      (Matrix → Matrix → M F.D Bool) → Variant F.D → Variant F.D → M F.D Bool
  variant_equal_with matrix_compare (Variant.bool a) (Variant.bool b) = pure (eqb_ℤ a b)
  variant_equal_with matrix_compare (Variant.int a) (Variant.int b) = pure (eqb_ℤ a b)
  variant_equal_with matrix_compare (Variant.int a) (Variant.double b) =
      pure (compare_double F (F.of_int a) b)
  variant_equal_with matrix_compare (Variant.double a) (Variant.int b) =
      pure (compare_double F a (F.of_int b))
  variant_equal_with matrix_compare (Variant.double a) (Variant.double b) =
      pure (compare_double F a b)
  variant_equal_with matrix_compare (Variant.text a _) (Variant.text b _) =
      compare_strings a b >>= λ o. pure (is_eq o)
  variant_equal_with matrix_compare (Variant.error a _) (Variant.error b _) =
      compare_strings a b >>= λ o. pure (is_eq o)
  variant_equal_with matrix_compare (Variant.matrix a) (Variant.matrix b) = matrix_compare a b
  variant_equal_with matrix_compare (Variant.function n f _) (Variant.function m g _) =
      pure (eqb_ℤ n m && f == g)
  variant_equal_with matrix_compare _ _ = pure false

  -- The two functions call each other through matrices of matrices. `depth` bounds the calls on the
  -- stack: one past it is a fault.
  unfoldable pub variant_equal : (depth : ℕ) → Variant F.D → Variant F.D → M F.D Bool
  variant_equal zero a b = undefined
  variant_equal (suc depth) a b = variant_equal_with (matrix_compare_by (variant_equal depth)) a b

  unfoldable pub matrix_compare : (depth : ℕ) → Matrix → Matrix → M F.D Bool
  unfolding variant_equal
  matrix_compare depth = matrix_compare_by (variant_equal depth)

  unfoldable pub variant_less : Variant F.D → Variant F.D → M F.D Bool
  variant_less (Variant.int a) (Variant.int b) = pure (ltb_ℤ a b)
  variant_less (Variant.int a) (Variant.double b) = pure (F.less (F.of_int a) b)
  variant_less (Variant.double a) (Variant.int b) = pure (F.less a (F.of_int b))
  variant_less (Variant.double a) (Variant.double b) = pure (F.less a b)
  variant_less (Variant.text a _) (Variant.text b _) = compare_strings a b >>= λ o. pure (is_lt o)
  variant_less _ _ = pure false

  unfoldable pub variant_add : Variant F.D → Variant F.D → M F.D (Variant F.D)
  variant_add (Variant.int a) (Variant.int b) =
      lift (check_int (a +ℤ b)) >>= λ i. pure (Variant.int i)
  variant_add (Variant.int a) (Variant.double b) = pure (Variant.double (F.plus (F.of_int a) b))
  variant_add (Variant.double a) (Variant.int b) = pure (Variant.double (F.plus a (F.of_int b)))
  variant_add (Variant.double a) (Variant.double b) = pure (Variant.double (F.plus a b))
  variant_add (Variant.text a l_a) (Variant.text b l_b) = do
    l ← lift (check_int (l_a +ℤ l_b))
    size ← lift (string_size l)
    p ← concat_strings size a b
    pure (Variant.text p l)
  variant_add _ _ = pure Variant.empty

  unfoldable pub variant_multiply : Variant F.D → Variant F.D → M F.D (Variant F.D)
  variant_multiply (Variant.int a) (Variant.int b) =
      lift (check_int (a *ℤ b)) >>= λ i. pure (Variant.int i)
  variant_multiply (Variant.int a) (Variant.double b) =
      pure (Variant.double (F.times (F.of_int a) b))
  variant_multiply (Variant.double a) (Variant.int b) =
      pure (Variant.double (F.times a (F.of_int b)))
  variant_multiply (Variant.double a) (Variant.double b) = pure (Variant.double (F.times a b))
  variant_multiply _ _ = pure Variant.empty

-- ===== src/Types/Variant.antt =====
-- src/lib/core_types/core_types_variant.c: how variants are made, copied, freed, tested and converted.
-- The operators are in Types/Operators.antt. A result that is a string literal is the bytes of it.
use arnovich_core.Base.{
  ℕ, ◌+◌, ◌-◌, ◌%◌, ◌^◌, Bool, List, [], ◌∷◌, ltb, ◌==◌, if◌then◌else◌, ℤ, pos, negsuc, Outcome,
  done, fault, access,
}
use arnovich_core.Base.CString.{strlen, strcpy}
use arnovich_core.Types.Value.{Matrix, Variant, type_code}
use arnovich_core.Types.Double.{Double}
use arnovich_core.Types.Heap.{chars, M, pure, ◌>>=◌, lift, malloc, free, load_chars}
use arnovich_core.Types.Matrix.{matrix_copy, matrix_free, matrix_identity, u32}

-- (int)n of a size_t
unfoldable pub int_of_size : ℕ → ℤ
int_of_size n = let r = n % u32 in if ltb r (2 ^ 31) then pos r else negsuc (u32 - 1 - r)

-- sizeof(char)*(l+1). The sum overflows at the largest int. A negative one makes a size that malloc
-- does not give or that holds no string, so that the strcpy behind it faults.
unfoldable pub string_size : ℤ → Outcome ℕ
string_size (pos n) = if ltb (n + 1) (2 ^ 31) then done (n + 1) else fault
string_size (negsuc n) = fault

module _ {D : Type 0} where
  -- malloc of `size` bytes and strcpy of `s` to them. The bytes behind the terminator are not
  -- initialised and no function reads or writes them, so the block is what strcpy writes.
  unfoldable pub new_string : ℕ → List ℕ → M D ℕ
  new_string size s = lift (strcpy size s) >>= λ t. malloc (chars t)

  unfoldable pub variant_free : Variant D → M D (Unit {0})
  variant_free Variant.empty = pure tt
  variant_free (Variant.bool _) = pure tt
  variant_free (Variant.int _) = pure tt
  variant_free (Variant.double _) = pure tt
  variant_free (Variant.text m_s _) = free m_s
  variant_free (Variant.error m_s _) = free m_s
  variant_free (Variant.matrix m) = matrix_free m
  variant_free (Variant.function _ _ _) = pure tt

  -- The copy of a string with its length.
  unfoldable pub copy_string : ℕ → ℤ → M D ℕ
  copy_string m_s m_l = do size ← lift (string_size m_l); s ← load_chars m_s; new_string size s

  unfoldable pub variant_copy : Variant D → M D (Variant D)
  variant_copy Variant.empty = pure Variant.empty
  variant_copy (Variant.bool b) = pure (Variant.bool b)
  variant_copy (Variant.int i) = pure (Variant.int i)
  variant_copy (Variant.double d) = pure (Variant.double d)
  variant_copy (Variant.text m_s m_l) = copy_string m_s m_l >>= λ p. pure (Variant.text p m_l)
  variant_copy (Variant.error m_s m_l) = copy_string m_s m_l >>= λ p. pure (Variant.error p m_l)
  variant_copy (Variant.matrix m) = matrix_copy m >>= λ mm. pure (Variant.matrix mm)
  variant_copy (Variant.function n f a) = pure (Variant.function n f a)

  unfoldable pub variant_from_bool : ℤ → Variant D
  variant_from_bool b = Variant.bool b

  unfoldable pub variant_from_double : D → Variant D
  variant_from_double d = Variant.double d

  unfoldable pub variant_from_int : ℤ → Variant D
  variant_from_int i = Variant.int i

  unfoldable pub variant_from_function : (f a : ℕ) → ℤ → Variant D
  variant_from_function f a n = Variant.function n f a

  -- A variant of the length and the copy of a string that the caller gives.
  unfoldable pub string_of : (ℕ → ℤ → Variant D) → List ℕ → M D (Variant D)
  string_of make c = do
    n ← lift (strlen c)
    size ← lift (string_size (int_of_size n))
    p ← new_string size c
    pure (make p (int_of_size n))

  unfoldable pub variant_from_string : List ℕ → M D (Variant D)
  variant_from_string = string_of Variant.text

  unfoldable pub variant_from_error : List ℕ → M D (Variant D)
  variant_from_error = string_of Variant.error

  unfoldable pub variant_from_matrix : Matrix → M D (Variant D)
  variant_from_matrix m = matrix_copy m >>= λ mm. pure (Variant.matrix mm)

  unfoldable pub variant_matrix : Matrix → Variant D
  variant_matrix m = Variant.matrix m

  unfoldable pub variant_empty : Variant D
  variant_empty = Variant.empty

  unfoldable pub variant_nil : Variant D
  unfolding variant_empty
  variant_nil = variant_empty

  -- The pointer is read at the call.
  unfoldable pub variant_as_string : Variant D → M D (List ℕ)
  variant_as_string (Variant.text m_s _) = load_chars m_s
  variant_as_string Variant.empty = pure (0 ∷ [])
  variant_as_string (Variant.bool _) = pure (0 ∷ [])
  variant_as_string (Variant.int _) = pure (0 ∷ [])
  variant_as_string (Variant.double _) = pure (0 ∷ [])
  variant_as_string (Variant.matrix _) = pure (0 ∷ [])
  variant_as_string (Variant.error _ _) = pure (0 ∷ [])
  variant_as_string (Variant.function _ _ _) = pure (0 ∷ [])

  unfoldable pub variant_as_error : Variant D → M D (List ℕ)
  variant_as_error (Variant.error m_s _) = load_chars m_s
  variant_as_error Variant.empty = pure (0 ∷ [])
  variant_as_error (Variant.bool _) = pure (0 ∷ [])
  variant_as_error (Variant.int _) = pure (0 ∷ [])
  variant_as_error (Variant.double _) = pure (0 ∷ [])
  variant_as_error (Variant.matrix _) = pure (0 ∷ [])
  variant_as_error (Variant.text _ _) = pure (0 ∷ [])
  variant_as_error (Variant.function _ _ _) = pure (0 ∷ [])

  unfoldable pub variant_as_matrix : Variant D → M D Matrix
  variant_as_matrix (Variant.matrix m) = pure m
  variant_as_matrix Variant.empty = matrix_identity (pos 0)
  variant_as_matrix (Variant.bool _) = matrix_identity (pos 0)
  variant_as_matrix (Variant.int _) = matrix_identity (pos 0)
  variant_as_matrix (Variant.double _) = matrix_identity (pos 0)
  variant_as_matrix (Variant.text _ _) = matrix_identity (pos 0)
  variant_as_matrix (Variant.error _ _) = matrix_identity (pos 0)
  variant_as_matrix (Variant.function _ _ _) = matrix_identity (pos 0)

  unfoldable pub variant_as_bool : Variant D → ℤ
  variant_as_bool (Variant.bool b) = b
  variant_as_bool (Variant.int i) = i
  variant_as_bool Variant.empty = pos 0
  variant_as_bool (Variant.double _) = pos 0
  variant_as_bool (Variant.text _ _) = pos 0
  variant_as_bool (Variant.matrix _) = pos 0
  variant_as_bool (Variant.error _ _) = pos 0
  variant_as_bool (Variant.function _ _ _) = pos 0

  unfoldable pub variant_is_empty : Variant D → Bool
  variant_is_empty v = type_code v == 0

  unfoldable pub variant_is_bool : Variant D → Bool
  variant_is_bool v = type_code v == 1

  unfoldable pub variant_is_int : Variant D → Bool
  variant_is_int v = type_code v == 2

  unfoldable pub variant_is_double : Variant D → Bool
  variant_is_double v = type_code v == 3

  unfoldable pub variant_is_string : Variant D → Bool
  variant_is_string v = type_code v == 4

  unfoldable pub variant_is_matrix : Variant D → Bool
  variant_is_matrix v = type_code v == 5

  unfoldable pub variant_is_error : Variant D → Bool
  variant_is_error v = type_code v == 6

  unfoldable pub variant_is_function : Variant D → Bool
  variant_is_function v = type_code v == 7

-- The first four bytes of the union as an int, whatever the type: `low_double` is what they are of a
-- double. Pointers are read by their low bits, and an EMPTY variant holds 0.
unfoldable pub variant_params : {D : Type 0} → (low_double : D → ℤ) → Variant D → ℤ
variant_params low_double (Variant.function n f a) = n
variant_params low_double (Variant.bool b) = b
variant_params low_double (Variant.int i) = i
variant_params low_double (Variant.double d) = low_double d
variant_params low_double (Variant.text m_s m_l) = int_of_size m_s
variant_params low_double (Variant.error m_s m_l) = int_of_size m_s
variant_params low_double (Variant.matrix m) = int_of_size m.m_values
variant_params low_double Variant.empty = pos 0

module _ (F : Double) where
  -- The conversion of a double that no int holds is undefined.
  unfoldable pub variant_as_int : Variant F.D → Outcome ℤ
  variant_as_int (Variant.int i) = done i
  variant_as_int (Variant.double d) = access (F.to_int d)
  variant_as_int Variant.empty = done (pos 0)
  variant_as_int (Variant.bool _) = done (pos 0)
  variant_as_int (Variant.text _ _) = done (pos 0)
  variant_as_int (Variant.matrix _) = done (pos 0)
  variant_as_int (Variant.error _ _) = done (pos 0)
  variant_as_int (Variant.function _ _ _) = done (pos 0)

  unfoldable pub variant_as_double : Variant F.D → F.D
  variant_as_double (Variant.double d) = d
  variant_as_double (Variant.int i) = F.of_int i
  variant_as_double Variant.empty = F.zero_double
  variant_as_double (Variant.bool _) = F.zero_double
  variant_as_double (Variant.text _ _) = F.zero_double
  variant_as_double (Variant.matrix _) = F.zero_double
  variant_as_double (Variant.error _ _) = F.zero_double
  variant_as_double (Variant.function _ _ _) = F.zero_double

-- ===== src/Python/RoundTrip.antt =====
-- Values that go to Python and come back (src/lib/core_python/core_python.c).
use arnovich_core.Base.{
  ℕ, suc, ◌^◌, ◌<◌, ◌≡◌, refl, inl, inr, Bool, true, false, Option, none, some, List, if◌then◌else◌,
  ℤ, pos, negsuc, eqb_ℤ, Bool-cases, arith, Outcome, done, fault,
}
use arnovich_core.Base.CString.{cstring, IsText}
use arnovich_core.Types.Value.{Variant}
use arnovich_core.Types.Double.{Double}
use arnovich_core.Types.Heap.{Heap}
use arnovich_core.Types.Matrix.{to_u32}
use arnovich_core.Types.Variant.{
  int_of_size, variant_from_int, variant_from_double, variant_from_string, variant_nil,
  variant_empty, variant_as_string,
}
use arnovich_core.Types.Operators.Strings.{TextAt, load_chars-TextAt}
use arnovich_core.Python.{
  Interpreter, int_of_long, string_value, of_string, of_object, py_to_variant_with, py_to_variant,
}
use arnovich_core.Python.Objects.{truth, variant_to_py_with, variant_to_py}

-- What the documentation of Python 2 says of the objects that the conversions make: of which types they
-- are and what they hold; a bool is an int too. Memory does not run out.
pub record IsPython (F : Double) (py : Interpreter F) : Type 0 where
  pub ints :
      (i : ℤ) (s : py.Store)
      → (o : py.Object) × (s' : py.Store) × (py.int_from_long i s ≡ (some o, s'))
        × (py.same o py.none_object ≡ false)
        × (py.int_check o ≡ true)
        × (py.int_as_long o ≡ i)
  pub floats :
      (d : F.D) (s : py.Store)
      → (o : py.Object) × (s' : py.Store) × (py.float_from_double d s ≡ (some o, s'))
        × (py.same o py.none_object ≡ false)
        × (py.int_check o ≡ false)
        × (py.string_check o ≡ false)
        × (py.float_check o ≡ true)
        × (py.float_as_double o ≡ d)
  pub strings :
      (t : List ℕ) (s : py.Store)
      → IsText t
      → (o : py.Object) × (s' : py.Store) × (py.string_from_string (cstring t) s ≡ (some o, s'))
        × (py.same o py.none_object ≡ false)
        × (py.int_check o ≡ false)
        × (py.string_check o ≡ true)
        × (py.string_as_string o ≡ some (cstring t))
  pub bools :
      (b : Bool)
      → let o = if b then py.true_object else py.false_object in
        (py.same o py.none_object ≡ false)
        × (py.int_check o ≡ true)
        × (py.int_as_long o ≡ (if b then pos 1 else pos 0))

-- The range of an int.
abbrev pub IsInt : ℤ → Type 0
IsInt (pos n) = n < 2 ^ 31
IsInt (negsuc n) = n < 2 ^ 31

pub int_of_long-IsInt : (i : ℤ) → IsInt i → int_of_long i ≡ i
unfolding int_of_long int_of_size to_u32
int_of_long-IsInt (pos n) h = ground arith
int_of_long-IsInt (negsuc n) h = ground arith

-- Variants that are well formed and no matrices.
abbrev pub Plain : {D : Type 0} → Heap D → Variant D → Type 0
Plain h (Variant.int i) = IsInt i
Plain h (Variant.text p l) = (t : List ℕ) × TextAt h p t
Plain h (Variant.matrix m) = ⊥
Plain h Variant.empty = Unit
Plain h (Variant.bool b) = Unit
Plain h (Variant.double d) = Unit
Plain h (Variant.error p l) = Unit
Plain h (Variant.function n f a) = Unit

module _ (F : Double) (py : Interpreter F) where
  -- A string comes back as the int that it reads as, if there is one, and else as a new string.
  abbrev pub string_back : List ℕ → Option py.Object → Heap F.D → Outcome (Variant F.D × Heap F.D)
  string_back t (some p) h = done (Variant.int (int_of_long (py.int_as_long p)), h)
  string_back t none h = variant_from_string t h

  -- What a variant comes back as.
  abbrev pub Back : (h : Heap F.D) (v : Variant F.D) → Plain h v → Outcome (Variant F.D × Heap F.D)
  Back h (Variant.int i) p = done (Variant.int i, h)
  Back h (Variant.double d) p = done (Variant.double d, h)
  Back h (Variant.text q l) (t, at) = string_back (cstring t) (py.int_from_string (cstring t)) h
  Back h (Variant.bool b) p = done (Variant.int (if eqb_ℤ b (pos 0) then pos 0 else pos 1), h)
  Back h Variant.empty p = done (Variant.int (pos 1), h)
  Back h (Variant.matrix m) p = fault
  Back h (Variant.error q l) p = done (Variant.empty, h)
  Back h (Variant.function n f a) p = done (Variant.empty, h)

  string_value-back :
      (t : List ℕ) (o : Option py.Object) (h : Heap F.D)
      → string_value F py t o h ≡ string_back t o h
  unfolding variant_from_int
  string_value-back t (some p) h = refl
  string_value-back t none h = refl

  -- A bool of Python is read as an int.
  of_truth :
      IsPython F py
      → (depth : ℕ) (h : Heap F.D) (s : py.Store) (b : Bool)
      → py_to_variant F py (suc depth) s (truth F py b) h
        ≡ done (Variant.int (if b then pos 1 else pos 0), h)
  unfolding py_to_variant py_to_variant_with of_object variant_from_int
  of_truth law depth h s true =
      let (not_none, is_int, value) = law.bools true in
      rw (not_none, is_int, value, int_of_long-IsInt (pos 1) (omega arith))
  of_truth law depth h s false =
      let (not_none, is_int, value) = law.bools false in
      rw (not_none, is_int, value, int_of_long-IsInt (pos 0) (omega arith))

  -- An int or a double goes to Python and comes back as it was; a string that reads as an int comes
  -- back as that int, and any other as a new string; a bool comes back as the int 0 or 1, EMPTY as the
  -- int 1, and an error or a function as EMPTY.
  pub py_to_variant-variant_to_py :
      IsPython F py
      → (depth : ℕ) (h : Heap F.D) (v : Variant F.D) (s : py.Store) (p : Plain h v)
      → (o : Option py.Object) × (s' : py.Store) × (variant_to_py F py (suc depth) v h s
          ≡ done (o, s'))
        × (py_to_variant F py (suc depth) s' o h ≡ Back h v p)
  unfolding variant_to_py variant_to_py_with py_to_variant py_to_variant_with of_object of_string
      variant_from_int variant_from_double variant_nil variant_empty variant_as_string
  py_to_variant-variant_to_py law depth h (Variant.int i) s p =
      let (o, s', made, not_none, is_int, value) = law.ints i s in
      (some o, s', rw made, rw (not_none, is_int, value, int_of_long-IsInt i p))
  py_to_variant-variant_to_py law depth h (Variant.double d) s p =
      let (o, s', made, not_none, not_int, not_string, is_float, value) = law.floats d s in
      (some o, s', rw made, rw (not_none, not_int, not_string, is_float, value))
  py_to_variant-variant_to_py law depth h (Variant.text q l) s (t, at) =
      let (o, s', made, not_none, not_int, is_string, value) = law.strings t s at.0 in
      (
        some o,
        s',
        rw (load_chars-TextAt h q t at, made),
        rw (not_none, not_int, is_string, value)
            (string_value-back (cstring t) (py.int_from_string (cstring t)) h),
      )
  py_to_variant-variant_to_py law depth h (Variant.bool b) s p =
      elim (Bool-cases (eqb_ℤ b (pos 0))) [
        | inl e ↦ (truth F py false, s, rw e, rw e (of_truth law depth h s false))
        | inr e ↦ (truth F py true, s, rw e, rw e (of_truth law depth h s true))
      ]
  py_to_variant-variant_to_py law depth h Variant.empty s p =
      (some py.true_object, s, refl, of_truth law depth h s true)
  py_to_variant-variant_to_py law depth h (Variant.matrix m) s p = absurd p
  py_to_variant-variant_to_py law depth h (Variant.error q l) s p = (none, s, refl, refl)
  py_to_variant-variant_to_py law depth h (Variant.function n f a) s p = (none, s, refl, refl)

-- ===== src/Python.antt =====
-- src/lib/core_python/core_python.c: conversions of objects of Python to variants and matrices; Objects
-- has those the other way. The interpreter is a parameter, the record Interpreter; that it notes errors
-- (PyErr_Clear) is left out.
pub mod Objects
pub mod RoundTrip
pub mod Rows
pub mod Table
mod TableExamples
pub mod Handling
pub mod Wrap
pub mod Examples
use arnovich_core.Base.{
  ℕ, zero, suc, ◌+◌, ◌-◌, Bool, true, false, ◌&&◌, Option, none, some, List, [], ◌∷◌, ◌==◌,
  if◌then◌else◌, ℤ, pos, ltb_ℤ, eqb_ℤ, length, get_elem?, Outcome, done, fault, access,
}
use arnovich_core.Base
use arnovich_core.Types.Value.{Matrix, Variant}
use arnovich_core.Types.Double.{Double}
use arnovich_core.Types.Heap.{Heap, M, pure, undefined, ◌>>=◌, ◌>>◌, lift, for_range}
use arnovich_core.Types.Matrix.{
  matrix_init, matrix_get, matrix_set, matrix_identity, to_u32, rounds,
}
use arnovich_core.Types.Variant.{
  int_of_size, variant_from_int, variant_from_double, variant_from_bool, variant_from_string,
  variant_from_matrix, variant_nil, variant_as_string,
}

-- The C interface of Python as the code uses it. `Store` is the state of the interpreter, which holds
-- what lists and dictionaries contain. A function that can return NULL returns an Option.
pub record Interpreter (F : Double) : Type 1 where
  pub Object : Type 0
  pub Store : Type 0
  -- Py_None, Py_True, Py_False, and the comparison of pointers
  pub none_object : Object
  pub true_object : Object
  pub false_object : Object
  pub same : Object → Object → Bool
  -- PyInt_Check, PyString_Check, PyFloat_Check, PyList_Check, PyDict_Check, PyBool_Check
  pub int_check : Object → Bool
  pub string_check : Object → Bool
  pub float_check : Object → Bool
  pub list_check : Object → Bool
  pub dict_check : Object → Bool
  pub bool_check : Object → Bool
  -- PyInt_AsLong, PyString_AsString, PyFloat_AsDouble
  pub int_as_long : Object → ℤ
  pub string_as_string : Object → Option (List ℕ)
  pub float_as_double : Object → F.D
  -- PyInt_FromString(s, NULL, 0)
  pub int_from_string : List ℕ → Option Object
  -- what PyList_Size and PyList_GetItem, and what PyDict_Size and PyDict_Next go through
  pub list_items : Object → Store → List Object
  pub dict_items : Object → Store → List (Object × Object)
  -- PyInt_FromLong, PyFloat_FromDouble, PyString_FromString
  pub int_from_long : ℤ → Store → Option Object × Store
  pub float_from_double : F.D → Store → Option Object × Store
  pub string_from_string : List ℕ → Store → Option Object × Store
  -- PyList_New, PyList_SetItem, PyDict_New, PyDict_SetItem
  pub list_new : ℤ → Store → Option Object × Store
  pub list_set_item : Object → ℕ → Option Object → Store → Store
  pub dict_new : Store → Option Object × Store
  pub dict_set_item : Option Object → Option Object → Option Object → Store → Store

-- The conversion of a long to int.
unfoldable pub int_of_long : ℤ → ℤ
int_of_long n = int_of_size (to_u32 n)

module _ (F : Double) (py : Interpreter F) where
  -- The value of a string: the int that it reads as, or else the string.
  abbrev pub string_value : List ℕ → Option py.Object → M F.D (Variant F.D)
  string_value s (some p) = pure (variant_from_int (int_of_long (py.int_as_long p)))
  string_value s none = variant_from_string s

  unfoldable pub of_string : Option (List ℕ) → M F.D (Variant F.D)
  of_string none = pure variant_nil
  of_string (some s) = string_value s (py.int_from_string s)

  -- The tests behind NULL and None. The second test of PyString_Check is behind the first, so that
  -- its branch is never taken.
  unfoldable pub of_object : (py.Object → M F.D Matrix) → py.Object → M F.D (Variant F.D)
  unfolding of_string
  of_object py_to_matrix o =
      if py.int_check o
      then pure (variant_from_int (int_of_long (py.int_as_long o)))
      else if py.string_check o
      then of_string (py.string_as_string o)
      else if py.float_check o
      then pure (variant_from_double (py.float_as_double o))
      else if py.list_check o
      then py_to_matrix o >>= variant_from_matrix
      else if py.dict_check o
      then py_to_matrix o >>= variant_from_matrix
      else if py.bool_check o
      then pure (variant_from_bool (if py.same o py.true_object then pos 1 else pos 0))
      else pure variant_nil

  unfoldable pub py_to_variant_with :
      (py.Object → M F.D Matrix) → Option py.Object → M F.D (Variant F.D)
  unfolding of_object
  py_to_variant_with py_to_matrix none = pure variant_nil
  py_to_variant_with py_to_matrix (some o) =
      if py.same o py.none_object then pure variant_nil else of_object py_to_matrix o

  -- int height = (int)PyList_Size(o)
  abbrev pub size_of : {A : Type 0} → List A → ℤ
  size_of xs = int_of_size (length xs)

  abbrev wider : ℤ → py.Object → py.Store → ℤ
  wider width o s =
      if py.list_check o && ltb_ℤ width (size_of (py.list_items o s))
      then size_of (py.list_items o s)
      else width

  -- The first loop: the width of the widest row.
  unfoldable pub width_loop : ℕ → ℕ → List py.Object → ℤ → py.Store → Outcome ℤ
  width_loop zero i items width s = done width
  width_loop (suc n) i items width s =
      Base.◌>>=◌ (access (get_elem? items i)) (λ o. width_loop n (suc i) items (wider width o s) s)

  -- matrix_set(m, j, i, core_python_py_to_variant(o))
  abbrev set_converted :
      (py.Object → M F.D (Variant F.D)) → Matrix → ℕ → ℕ → py.Object → M F.D (Unit {0})
  set_converted convert m j i o = convert o >>= matrix_set m j i

  abbrev fill_nil : Matrix → ℤ → ℕ → ℕ → M F.D (Unit {0})
  fill_nil m width i j = for_range (rounds width - j) j (λ k. matrix_set m k i variant_nil)

  -- One round of the second loop.
  unfoldable pub fill_row :
      (py.Object → M F.D (Variant F.D))
      → Matrix
      → ℤ
      → List py.Object
      → py.Store
      → ℕ
      → M F.D (Unit {0})
  fill_row convert m width items s i = lift (access (get_elem? items i)) >>= λ o.
      if py.list_check o
      then (for_range (rounds (size_of (py.list_items o s))) 0
            (λ j. lift (access (get_elem? (py.list_items o s) j)) >>= set_converted convert m j i)
          >> fill_nil m width i (rounds (size_of (py.list_items o s))))
      else (set_converted convert m 0 i o >> fill_nil m width i 1)

  unfoldable pub dict_loop :
      (py.Object → M F.D (Variant F.D))
      → Matrix
      → ℕ
      → List (py.Object × py.Object)
      → M F.D (Unit {0})
  dict_loop convert m i [] = pure tt
  dict_loop convert m i ((key, value) ∷ entries) = do
    set_converted convert m 0 i key
    set_converted convert m 1 i value
    dict_loop convert m (i + 1) entries

  abbrev of_list : (py.Object → M F.D (Variant F.D)) → py.Store → List py.Object → M F.D Matrix
  of_list convert s items = do
    width ← lift (width_loop (rounds (size_of items)) 0 items (pos 1) s)
    m ← matrix_init (to_u32 width) (to_u32 (size_of items))
    for_range (rounds (size_of items)) 0 (fill_row convert m width items s)
    pure m

  abbrev of_dict : (py.Object → M F.D (Variant F.D)) → List (py.Object × py.Object) → M F.D Matrix
  of_dict convert entries = do
    m ← matrix_init 2 (to_u32 (size_of entries))
    dict_loop convert m 0 entries
    pure m

  unfoldable pub py_to_matrix_with :
      (py.Object → M F.D (Variant F.D)) → py.Store → py.Object → M F.D Matrix
  unfolding width_loop fill_row dict_loop
  py_to_matrix_with convert s o =
      if py.list_check o
      then of_list convert s (py.list_items o s)
      else if py.dict_check o
      then of_dict convert (py.dict_items o s)
      else matrix_identity (pos 0)

  -- The two functions call each other through lists of lists; `depth` bounds the calls on the stack.
  unfoldable pub py_to_variant : (depth : ℕ) → py.Store → Option py.Object → M F.D (Variant F.D)
  unfolding py_to_matrix_with py_to_variant_with
  py_to_variant zero s o = undefined
  py_to_variant (suc depth) s o =
      let convert = py_to_variant depth s in
      py_to_variant_with (py_to_matrix_with (λ e. convert (some e)) s) o

  unfoldable pub py_to_matrix : (depth : ℕ) → py.Store → py.Object → M F.D Matrix
  unfolding py_to_variant
  py_to_matrix depth s = py_to_matrix_with (λ e. py_to_variant depth s (some e)) s

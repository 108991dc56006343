-- ===== src/Python/Examples.antt =====
-- The conversions between Python and variants, run with a small interpreter whose objects are values.
use arnovich_core.Base.{
  ℕ, suc, ◌-◌, ◌≡◌, refl, Bool, true, false, ◌&&◌, Option, none, some, List, [], ◌∷◌, ◌++◌, ◌==◌,
  length, fault, Outcome, arith, ltb, leb, if◌then◌else◌, ℤ, pos, done,
}
use arnovich_core.Base.CString.{cstring}
use arnovich_core.Types.Value.{Variant}
use arnovich_core.Types.Heap.{Heap, values, malloc, load_values, store_values, for_range}
use arnovich_core.Types.Operators.Examples.{whole_numbers, small_heap}
use arnovich_core.Types.Matrix.{matrix_init, matrix_set, element_count, index, to_u32}
use arnovich_core.Types.Variant.{
  int_of_size, variant_from_int, variant_nil, variant_empty, variant_free,
}
use arnovich_core.Python.{
  Interpreter, int_of_long, of_object, width_loop, fill_row, py_to_matrix_with, py_to_variant_with,
  py_to_variant, py_to_matrix,
}
use arnovich_core.Python.Objects.{variant_to_py_with, variant_to_py}
use arnovich_core.Python.Wrap.{
  handles, Wrapped, convert_arguments, free_arguments, finish, call_with, python_wrap_function,
}
use arnovich_core.Python.Handling.{written, handles-written}
use arnovich_core.Python.RoundTrip.{IsPython, Back, py_to_variant-variant_to_py}

-- A list is its items in order, up to `list_end`.
pub data Value : Type 0 where
  nothing : Value
  truth_value : Bool → Value
  int_value : ℤ → Value
  string_value : List ℕ → Value
  float_value : ℤ → Value
  list_end : Value
  list_item : Value → Value → Value

abbrev is_int : Value → Bool
is_int (truth_value b) = true
is_int (int_value i) = true
is_int v = false

abbrev is_string : Value → Bool
is_string (string_value s) = true
is_string v = false

abbrev is_float : Value → Bool
is_float (float_value d) = true
is_float v = false

abbrev is_list : Value → Bool
is_list list_end = true
is_list (list_item v l) = true
is_list v = false

abbrev is_truth : Value → Bool
is_truth (truth_value b) = true
is_truth v = false

abbrev is_nothing : Value → Bool
is_nothing nothing = true
is_nothing v = false

abbrev pub int_of : Value → ℤ
int_of (truth_value b) = if b then pos 1 else pos 0
int_of (int_value i) = i
int_of v = pos 0

abbrev string_of_value : Value → Option (List ℕ)
string_of_value (string_value s) = some s
string_of_value v = none

abbrev float_of : Value → ℤ
float_of (float_value d) = d
float_of v = pos 0

abbrev pub items : Value → List Value
items (list_item v l) = v ∷ items l
items v = []

-- A string of one digit.
abbrev read_digit : List ℕ → Option Value
read_digit (c ∷ d ∷ []) = if leb 48 c && ltb c 58 then some (int_value (pos (c - 48))) else none
read_digit s = none

abbrev pub small_python : Interpreter whole_numbers
small_python = record {
  Object = Value;
  Store = ℕ;
  none_object = nothing;
  true_object = truth_value true;
  false_object = truth_value false;
  same = λ a b. is_nothing a && is_nothing b;
  int_check = is_int;
  string_check = is_string;
  float_check = is_float;
  list_check = is_list;
  dict_check = λ o. false;
  bool_check = is_truth;
  int_as_long = int_of;
  string_as_string = string_of_value;
  float_as_double = float_of;
  int_from_string = read_digit;
  list_items = λ o s. items o;
  dict_items = λ o s. [];
  int_from_long = λ i s. (some (int_value i), suc s);
  float_from_double = λ d s. (some (float_value d), suc s);
  string_from_string = λ t s. (some (string_value t), suc s);
  list_new = λ n s. (some list_end, suc s);
  list_set_item = λ l i o s. s;
  dict_new = λ s. (none, s);
  dict_set_item = λ d k v s. s;
}

small_bools :
    (b : Bool)
    → let o = if b then small_python.true_object else small_python.false_object in
      (small_python.same o small_python.none_object ≡ false)
      × (small_python.int_check o ≡ true)
      × (small_python.int_as_long o ≡ (if b then pos 1 else pos 0))
small_bools true = (refl, refl, refl)
small_bools false = (refl, refl, refl)

small_python-IsPython : IsPython whole_numbers small_python
small_python-IsPython = record {
  ints = λ i s. (int_value i, suc s, refl, refl, refl, refl);
  floats = λ d s. (float_value d, suc s, refl, refl, refl, refl, refl, refl);
  strings = λ t s text. (string_value (cstring t), suc s, refl, refl, refl, refl, refl);
  bools = small_bools;
}

py_to_variant-variant_to_py_example :
    (o : Option Value) × (s : ℕ) × (variant_to_py whole_numbers small_python 1
        (Variant.text 1 (pos 1))
        small_heap
        0
      ≡ done (o, s))
    × (py_to_variant whole_numbers small_python 1 s o small_heap
        ≡ Back whole_numbers small_python small_heap
            (Variant.text 1 (pos 1))
            (65 ∷ [], (((λ e. omega arith), tt), refl)))
py_to_variant-variant_to_py_example =
    py_to_variant-variant_to_py whole_numbers small_python small_python-IsPython 0 small_heap
      (Variant.text 1 (pos 1)) 0 (65 ∷ [], (((λ e. omega arith), tt), refl))

-- [[1], [2, 3]]: the shorter row is filled with EMPTY.
abbrev pub rows : Value
rows =
    list_item (list_item (int_value (pos 1)) list_end)
      (list_item (list_item (int_value (pos 2)) (list_item (int_value (pos 3)) list_end)) list_end)

py_to_matrix_run :
    py_to_matrix whole_numbers small_python 1 0 rows small_heap
    ≡ done (
      record { m_values = 4; m_width = 2; m_height = 2 },
      small_heap
          ++ some (
              values (
                Variant.int (pos 1)
                ∷ Variant.empty
                ∷ Variant.int (pos 2)
                ∷ Variant.int (pos 3)
                ∷ []))
            ∷ [],
    )
unfolding py_to_matrix py_to_matrix_with py_to_variant py_to_variant_with of_object width_loop
    fill_row int_of_long int_of_size to_u32 matrix_init malloc matrix_set load_values store_values
    for_range element_count index variant_from_int variant_nil variant_empty
py_to_matrix_run = refl

-- "KeyError: no" is 12 bytes: the error function tests whether the message is empty.
abbrev no_message : List ℕ → List ℕ → Bool
no_message name msg = length msg == 1

abbrev key_error : List ℕ
key_error = 75 ∷ 69 ∷ []

handles-written_example :
    handles true (some no_message) (written key_error (110 ∷ 111 ∷ []))
    ≡ done (true, cstring key_error)
handles-written_example =
    handles-written true no_message 75 (69 ∷ []) (110 ∷ 111 ∷ [])
      (((λ e. omega arith), refl), (((λ e. omega arith), refl), tt))
      (((λ e. omega arith), refl), (((λ e. omega arith), refl), tt)) (λ e. omega arith)
      (omega arith) (omega arith)

-- A function of one argument that returns it.
abbrev identity : List (Variant ℤ) → Heap ℤ → Outcome (Variant ℤ × Heap ℤ)
identity (v ∷ []) h = done (v, h)
identity vs h = fault

python_wrap_function_run :
    (python_wrap_function whole_numbers small_python true 1
        (some (int_value (pos 5) ∷ []))
        (pos 1)
        identity
        none
        small_heap
        0
      ≡ done (Wrapped.returned (some (int_value (pos 5))), small_heap, 1))
    × (python_wrap_function whole_numbers small_python true 1
          (some [])
          (pos 1)
          identity
          none
          small_heap
          0
        ≡ done (Wrapped.wrong_number, small_heap, 0))
unfolding python_wrap_function call_with convert_arguments free_arguments finish py_to_variant
    py_to_variant_with of_object int_of_long int_of_size to_u32 variant_from_int variant_to_py
    variant_to_py_with variant_free
python_wrap_function_run = (refl, refl)

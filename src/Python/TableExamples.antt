-- ===== src/Python/TableExamples.antt =====
-- The matrix of a small list of lists.
use arnovich_core.Base.{
  ℕ, zero, suc, ◌^◌, ◌<◌, ◌≡◌, refl, some, [], ◌∷◌, arith, ℤ, pos, length, done,
}
use arnovich_core.Types.Value.{Variant}
use arnovich_core.Types.Heap.{Heap, M}
use arnovich_core.Types.Matrix.Rows.{Elements}
use arnovich_core.Types.Matrix.Identity.{fresh}
use arnovich_core.Types.Variant.{variant_from_int}
use arnovich_core.Types.Operators.Examples.{whole_numbers, small_heap}
use arnovich_core.Python.{of_object, py_to_variant_with, py_to_variant, py_to_matrix}
use arnovich_core.Python.Rows.{row_of, Converts}
use mathlib.Core.Path.{subst}
use arnovich_core.Python.RoundTrip.{int_of_long-IsInt}
use arnovich_core.Python.Table.{RowsFit, ConvertsAll, rows_table, py_to_matrix-rows}
use arnovich_core.Python.Examples.{
  Value, int_value, list_item, list_end, int_of, items, rows, small_python,
}

abbrev as_int : Value → Variant ℤ
as_int o = Variant.int (int_of o)

abbrev convert_item : Value → M ℤ (Variant ℤ)
convert_item e = py_to_variant whole_numbers small_python 1 0 (some e)

some-injective : (x y : Value) → some x ≡ some y → x ≡ y
some-injective x y e = cc

int-converts :
    (n : ℕ) (e : Value)
    → n < 2 ^ 31
    → int_value (pos n) ≡ e
    → (h : Heap ℤ) → convert_item e h ≡ done (as_int e, h)
unfolding py_to_variant py_to_variant_with of_object variant_from_int
int-converts n e small same =
    subst (λ e. (h : Heap ℤ) → convert_item e h ≡ done (as_int e, h)) same
      (λ h. rw (int_of_long-IsInt (pos n) small))

first_row : Converts whole_numbers small_python 0 convert_item as_int (int_value (pos 1) ∷ [])
first_row zero e a = int-converts 1 e (omega arith) (some-injective (int_value (pos 1)) e a)
first_row (suc k) e a = absurd (cc)

second_row :
    Converts whole_numbers small_python 0 convert_item as_int
      (int_value (pos 2) ∷ int_value (pos 3) ∷ [])
second_row zero e a = int-converts 2 e (omega arith) (some-injective (int_value (pos 2)) e a)
second_row (suc zero) e a = int-converts 3 e (omega arith) (some-injective (int_value (pos 3)) e a)
second_row (suc (suc k)) e a = absurd (cc)

abbrev row_1 : Value
row_1 = list_item (int_value (pos 1)) list_end

abbrev row_2 : Value
row_2 = list_item (int_value (pos 2)) (list_item (int_value (pos 3)) list_end)

rows-ConvertsAll : ConvertsAll whole_numbers small_python 0 convert_item as_int (items rows)
rows-ConvertsAll zero r a =
    subst
      (λ r.
        Converts whole_numbers small_python 0 convert_item as_int
          (row_of whole_numbers small_python 0 r))
      (some-injective row_1 r a) first_row
rows-ConvertsAll (suc zero) r a =
    subst
      (λ r.
        Converts whole_numbers small_python 0 convert_item as_int
          (row_of whole_numbers small_python 0 r))
      (some-injective row_2 r a) second_row
rows-ConvertsAll (suc (suc l)) r a = absurd (cc)

rows-RowsFit : RowsFit whole_numbers small_python 0 (items rows)
rows-RowsFit zero r a =
    subst (λ r. length (row_of whole_numbers small_python 0 r) < 2 ^ 31) (some-injective row_1 r a)
      (omega arith)
rows-RowsFit (suc zero) r a =
    subst (λ r. length (row_of whole_numbers small_python 0 r) < 2 ^ 31) (some-injective row_2 r a)
      (omega arith)
rows-RowsFit (suc (suc l)) r a = absurd (cc)

py_to_matrix-rows_example :
    (g : Heap ℤ) × (py_to_matrix whole_numbers small_python 1 0 rows small_heap
      ≡ done (fresh small_heap 2 2, g))
    × Elements g
        (fresh small_heap 2 2)
        (rows_table whole_numbers small_python 0 convert_item as_int (items rows))
py_to_matrix-rows_example =
    py_to_matrix-rows whole_numbers small_python 0 1 as_int rows small_heap refl rows-ConvertsAll
      rows-RowsFit (omega arith) (omega arith)

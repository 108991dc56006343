-- ===== src/Types/Printing/Examples.antt =====
-- Strings of variants and matrices, and their theorems at a small heap.
use arnovich_core.Base.{
  ℕ, zero, suc, ◌≤◌, ◌<◌, ◌≡◌, ◌≢◌, refl, false, some, List, [], ◌∷◌, ◌++◌, arith, ℤ, pos, negsuc,
  length, get_elem?, replicate, done, fault,
}
use arnovich_core.Base.CString.{cstring}
use arnovich_core.Types.Value.{Matrix, Variant}
use arnovich_core.Types.Heap.{values, Heap, load_values}
use arnovich_core.Types.Matrix.{matrix_get, index}
use arnovich_core.Types.Operators.Examples.{whole_numbers, small_heap, row}
use arnovich_core.Types.Printing.{
  string_length, error_prefix, decimal, print_int, Statics, Printed, cat, start, cat_printed,
  next_n, variant_to_string, matrix_to_string,
}
use arnovich_core.Types.Printing.Bounds.{guarded, variant_to_string-guarded}
use arnovich_core.Types.Printing.Rendering.{ShowsAll, matrix_text, matrix_to_string-text}
use arnovich_core.Types.Printing.Nested.{opened, matrix_to_string-nested}

abbrev initial : Statics
initial = record { str = 0 ∷ []; strs = replicate 10 (0 ∷ []); n = 0 }

print_int_run : print_int (negsuc 1204) ≡ 45 ∷ 49 ∷ 50 ∷ 48 ∷ 53 ∷ []
unfolding print_int decimal
print_int_run = refl

variant_to_string-guarded_example :
    (variant_to_string whole_numbers false 1 small_heap (Variant.text 1 (pos 1)) initial
      ≡ guarded 1 (65 ∷ []) initial)
    × (variant_to_string whole_numbers false 1 small_heap (Variant.error 1 (pos 1)) initial
        ≡ guarded 1 (error_prefix ++ 65 ∷ []) initial)
variant_to_string-guarded_example =
    variant_to_string-guarded whole_numbers false 0 small_heap 1 (65 ∷ []) initial
      (((λ e. omega arith), tt), refl)

-- The int 1 and EMPTY.
abbrev shown : ℕ → ℕ → List ℕ
shown i zero = 49 ∷ []
shown i (suc j) = []

row-ShowsAll : ShowsAll whole_numbers small_heap row shown
unfolding matrix_get load_values index print_int decimal
row-ShowsAll zero zero a b = (Variant.int (pos 1), refl, refl)
row-ShowsAll zero (suc zero) a b = (Variant.empty, refl, refl)
row-ShowsAll zero (suc (suc j)) a b = absurd (omega arith)
row-ShowsAll (suc i) j a b = absurd (omega arith)

matrix_to_string-text_example :
    (length (matrix_text 2 1 shown) < string_length
      → (st : Statics) × (matrix_to_string whole_numbers false 1 small_heap row initial
          ≡ done (Printed.in_matrix (next_n 0), st))
        × (get_elem? st.strs (next_n 0) ≡ some (cstring (matrix_text 2 1 shown)))
        × ((k : ℕ) → k ≢ next_n 0 → get_elem? st.strs k ≡ get_elem? initial.strs k))
    × (string_length ≤ length (matrix_text 2 1 shown)
        → matrix_to_string whole_numbers false 1 small_heap row initial ≡ fault)
matrix_to_string-text_example =
    matrix_to_string-text whole_numbers false 0 small_heap row shown initial (refl, omega arith)
      row-ShowsAll

-- A matrix with the matrix `row` in it.
abbrev outer : Matrix
outer = record { m_values = 4; m_width = 1; m_height = 1 }

abbrev nested_heap : Heap ℤ
nested_heap = small_heap ++ some (values (Variant.matrix row ∷ [])) ∷ []

outer-get : matrix_get outer 0 0 nested_heap ≡ done (Variant.matrix row, nested_heap)
unfolding matrix_get load_values index
outer-get = refl

nested-ShowsAll : ShowsAll whole_numbers nested_heap row shown
unfolding matrix_get load_values index print_int decimal
nested-ShowsAll zero zero a b = (Variant.int (pos 1), refl, refl)
nested-ShowsAll zero (suc zero) a b = (Variant.empty, refl, refl)
nested-ShowsAll zero (suc (suc j)) a b = absurd (omega arith)
nested-ShowsAll (suc i) j a b = absurd (omega arith)

matrix_to_string-nested_example :
    (cat 1 (91 ∷ 0 ∷ []) (start whole_numbers false initial) ≡ done (opened whole_numbers initial))
    × ((st : Statics) × (variant_to_string whole_numbers false 2 nested_heap
            (Variant.matrix row)
            (opened whole_numbers initial)
          ≡ done (Printed.in_matrix st.n, st))
        × (get_elem? st.strs st.n ≡ some (cstring (matrix_text 2 1 shown)))
        × (cat_printed whole_numbers false nested_heap st.n (Printed.in_matrix st.n) st ≡ fault))
    × (matrix_to_string whole_numbers false 2 nested_heap outer initial ≡ fault)
matrix_to_string-nested_example =
    matrix_to_string-nested whole_numbers 0 nested_heap outer row shown initial (refl, omega arith)
      nested-ShowsAll (omega arith) (omega arith) (omega arith) outer-get

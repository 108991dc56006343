-- ===== src/Types/Operators/Examples.antt =====
-- Runs of variants and matrices, and their theorems at a small heap. The doubles are whole numbers here.
use arnovich_core.Base.{
  ℕ, ◌≡◌, ◌≢◌, refl, ◌⊎◌, ◌↔◌, true, none, some, List, [], ◌∷◌, ◌++◌, ◌+◌, ◌<◌, arith, ℤ, pos,
  pos_part, neg_part, sub_ℕ, ◌+ℤ◌, ◌*ℤ◌, ltb_ℤ, done,
}
use arnovich_core.Base.CString.{cstring}
use arnovich_core.Types.Value.{Matrix, Variant}
use arnovich_core.Types.Double.{Double, IsIeee}
use arnovich_core.Types.Heap.{chars, values, Heap, load_values}
use arnovich_core.Types.Matrix.{matrix_get, matrix_set, index}
use arnovich_core.Types.Matrix.Access.{MatrixAt, matrix_set-get}
use arnovich_core.Base.{zero, suc, ◌==◌, if◌then◌else◌}
use arnovich_core.Types.Matrix.{matrix_move_rows, matrix_identity}
use arnovich_core.Types.Matrix.Identity.{fresh, diagonal, matrix_identity-diagonal}
use arnovich_core.Types.Matrix.Rows.{Table, Elements, swapped, matrix_move_rows-swapped}
use arnovich_core.Types.Variant.{variant_copy, variant_free}
use arnovich_core.Types.Operators.{variant_equal, matrix_compare, variant_less, variant_add}
use arnovich_core.Types.Operators.Symmetry.{variant_equal-sym}
use arnovich_core.Types.Operators.Compare.{ElementsEqual, matrix_compare_iff}
use arnovich_core.Types.Operators.Less.{variant_less_trans}
use arnovich_core.Types.Operators.Strings.{TextAt, variant_add-text, variant_copy-free}

abbrev pub whole_numbers : Double
whole_numbers = record {
  D = ℤ;
  of_int = λ i. i;
  to_int = some;
  plus = λ a b. a +ℤ b;
  minus = λ a b. sub_ℕ (pos_part a + neg_part b) (neg_part a + pos_part b);
  times = λ a b. a *ℤ b;
  fabs = λ a. pos (pos_part a + neg_part a);
  less = ltb_ℤ;
  zero_double = pos 0;
  compare_epsilon = pos 1;
  print = λ a. [];
}

whole_numbers-IsIeee : IsIeee whole_numbers
whole_numbers-IsIeee = record {
  fabs-minus = λ a b. ground arith;
  less_trans = λ a b c h k. ground arith;
  less_irrefl = λ a. ground arith;
  less-of_int = λ a b. refl;
}

-- NULL, the strings A and B, and the elements of a matrix of two columns and one row.
abbrev pub small_heap : Heap ℤ
small_heap =
    none
    ∷ some (chars (cstring (65 ∷ [])))
    ∷ some (chars (cstring (66 ∷ [])))
    ∷ some (values (Variant.int (pos 1) ∷ Variant.empty ∷ []))
    ∷ []

abbrev pub row : Matrix
row = record { m_values = 3; m_width = 2; m_height = 1 }

row-MatrixAt : MatrixAt small_heap row (Variant.int (pos 1) ∷ Variant.empty ∷ [])
row-MatrixAt = record { live = refl; size = refl; fits = omega arith }

text_a : TextAt small_heap 1 (65 ∷ [])
text_a = (((λ e. omega arith), tt), refl)

text_b : TextAt small_heap 2 (66 ∷ [])
text_b = (((λ e. omega arith), tt), refl)

matrix_set-get_example :
    (g : Heap ℤ) × (ws : List (Variant ℤ)) × (matrix_set row 1 0 (Variant.int (pos 7)) small_heap
      ≡ done (tt, g))
    × MatrixAt g row ws
    × (matrix_get row 1 0 g ≡ done (Variant.int (pos 7), g))
    × ((k l : ℕ)
        → k < 2
        → l < 1
        → (k ≢ 1) ⊎ (l ≢ 0)
        → (u : Variant ℤ) × (matrix_get row k l small_heap ≡ done (u, small_heap))
          × (matrix_get row k l g ≡ done (u, g)))
matrix_set-get_example =
    matrix_set-get small_heap row (Variant.int (pos 1) ∷ Variant.empty ∷ []) row-MatrixAt 1 0
      (omega arith) (omega arith) (Variant.int (pos 7))

matrix_compare_iff_example :
    (matrix_compare whole_numbers 3 row row small_heap ≡ done (true, small_heap)) ↔ (
      (row.m_width ≡ row.m_width)
      × (row.m_height ≡ row.m_height)
      × ((i j : ℕ) → i < 2 → j < 1 → ElementsEqual whole_numbers 3 row row small_heap i j))
matrix_compare_iff_example = matrix_compare_iff whole_numbers 3 row row small_heap

second_empty : matrix_get row 1 0 small_heap ≡ done (Variant.empty, small_heap)
unfolding matrix_get load_values index
second_empty = refl

variant_equal-sym_example :
    variant_equal whole_numbers 2 (Variant.matrix row) (Variant.double (pos 1)) small_heap
    ≡ variant_equal whole_numbers 2 (Variant.double (pos 1)) (Variant.matrix row) small_heap
variant_equal-sym_example =
    variant_equal-sym whole_numbers whole_numbers-IsIeee 2 (Variant.matrix row)
      (Variant.double (pos 1)) small_heap

one_less_two :
    variant_less whole_numbers (Variant.int (pos 1)) (Variant.double (pos 2)) small_heap
    ≡ done (true, small_heap)
unfolding variant_less
one_less_two = refl

two_less_three :
    variant_less whole_numbers (Variant.double (pos 2)) (Variant.int (pos 3)) small_heap
    ≡ done (true, small_heap)
unfolding variant_less
two_less_three = refl

variant_less_trans_example :
    variant_less whole_numbers (Variant.int (pos 1)) (Variant.int (pos 3)) small_heap
    ≡ done (true, small_heap)
variant_less_trans_example =
    variant_less_trans whole_numbers whole_numbers-IsIeee (Variant.int (pos 1))
      (Variant.double (pos 2)) (Variant.int (pos 3)) small_heap one_less_two two_less_three

variant_add-text_example :
    variant_add whole_numbers (Variant.text 1 (pos 1)) (Variant.text 2 (pos 1)) small_heap
    ≡ done (Variant.text 4 (pos 2), small_heap ++ some (chars (cstring (65 ∷ 66 ∷ []))) ∷ [])
variant_add-text_example =
    variant_add-text whole_numbers small_heap 1 2 (65 ∷ []) (66 ∷ []) text_a text_b (omega arith)

variant_copy-free_example :
    (c : Variant ℤ) × (g : Heap ℤ) × (variant_copy (Variant.text 1 (pos 1)) small_heap
      ≡ done (c, g))
    × (variant_equal whole_numbers 1 (Variant.text 1 (pos 1)) c g ≡ done (true, g))
    × (variant_free c g ≡ done (tt, small_heap ++ none ∷ []))
variant_copy-free_example =
    variant_copy-free whole_numbers 0 small_heap 1 (65 ∷ []) (omega arith) text_a (omega arith)

-- The same two elements, one above the other.
abbrev column : Matrix
column = record { m_values = 3; m_width = 1; m_height = 2 }

abbrev one_above_empty : Table ℤ
one_above_empty i j = if j == 0 then Variant.int (pos 1) else Variant.empty

column_get :
    (i j : ℕ)
    → i < 1
    → j < 2
    → matrix_get column i j small_heap ≡ done (one_above_empty i j, small_heap)
unfolding matrix_get load_values index
column_get zero zero a b = refl
column_get zero (suc zero) a b = refl
column_get zero (suc (suc j)) a b = absurd (omega arith)
column_get (suc i) j a b = absurd (omega arith)

column-Elements : Elements small_heap column one_above_empty
column-Elements = record {
  vs = Variant.int (pos 1) ∷ Variant.empty ∷ [];
  at = record { live = refl; size = refl; fits = omega arith };
  get = column_get;
}

matrix_move_rows-swapped_example :
    (g : Heap ℤ) × (matrix_move_rows column (pos 0) (pos 1) small_heap ≡ done (tt, g))
    × Elements g column (λ k l. one_above_empty k (swapped 0 1 l))
matrix_move_rows-swapped_example =
    matrix_move_rows-swapped column one_above_empty 0 1 (omega arith) (omega arith) small_heap
      column-Elements (omega arith) (omega arith)

matrix_identity-diagonal_example :
    (g : Heap ℤ) × (matrix_identity (pos 3) small_heap ≡ done (fresh small_heap 3 3, g))
    × Elements g (fresh small_heap 3 3) diagonal
matrix_identity-diagonal_example = matrix_identity-diagonal small_heap 3 (omega arith) (omega arith)

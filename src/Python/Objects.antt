-- ===== src/Python/Objects.antt =====
-- src/lib/core_python/core_python.c: conversions of variants and matrices to objects of Python.
use arnovich_core.Base.{
  ℕ, zero, suc, Bool, true, false, Option, none, some, ◌==◌, if◌then◌else◌, pos, eqb_ℤ, Outcome,
  done, fault, ◌>>=◌,
}
use arnovich_core.Types.Value.{Matrix, Variant}
use arnovich_core.Types.Double.{Double}
use arnovich_core.Types.Heap.{Heap}
use arnovich_core.Types.Matrix.{matrix_get, to_u32, rounds}
use arnovich_core.Types.Variant.{int_of_size, variant_as_string}
use arnovich_core.Python.{Interpreter}

module _ (F : Double) (py : Interpreter F) where
  -- Py_RETURN_TRUE or Py_RETURN_FALSE.
  abbrev pub truth : Bool → Option py.Object
  truth b = some (if b then py.true_object else py.false_object)

  -- The heap is read and the interpreter's state changes. `matrix_to_py` is the call for matrices.
  abbrev pub Builder : Type 0 → Type 0
  Builder A = A → Heap F.D → py.Store → Outcome (Option py.Object × py.Store)

  -- The tests in the order of the source.
  unfoldable pub variant_to_py_with : Builder Matrix → Builder (Variant F.D)
  variant_to_py_with matrix_to_py (Variant.int i) h s = done (py.int_from_long i s)
  variant_to_py_with matrix_to_py (Variant.double d) h s = done (py.float_from_double d s)
  variant_to_py_with matrix_to_py (Variant.text m_s m_l) h s =
      ◌>>=◌ (variant_as_string (Variant.text m_s m_l) h) (λ r. done (py.string_from_string r.0 s))
  variant_to_py_with matrix_to_py (Variant.matrix m) h s = matrix_to_py m h s
  variant_to_py_with matrix_to_py Variant.empty h s = done (some py.true_object, s)
  variant_to_py_with matrix_to_py (Variant.bool b) h s =
      done (truth (if eqb_ℤ b (pos 0) then false else true), s)
  variant_to_py_with matrix_to_py (Variant.error m_s m_l) h s = done (none, s)
  variant_to_py_with matrix_to_py (Variant.function n f a) h s = done (none, s)

  -- for(j = j₀; j < j₀ + n; ++j) PyList_SetItem(list, j, item(j))
  unfoldable pub set_items :
      ℕ
      → ℕ
      → py.Object
      → (ℕ → py.Store → Outcome (Option py.Object × py.Store))
      → py.Store
      → Outcome py.Store
  set_items zero j list item s = done s
  set_items (suc n) j list item s =
      ◌>>=◌ (item j s) (λ r. set_items n (suc j) list item (py.list_set_item list j r.0 r.1))

  -- PyList_New and, if it gives a list, the loop over its items.
  unfoldable pub list_with :
      Option py.Object × py.Store
      → ℕ
      → (ℕ → py.Store → Outcome (Option py.Object × py.Store))
      → Outcome (Option py.Object × py.Store)
  unfolding set_items
  list_with (none, s) n item = done (none, s)
  list_with (some list, s) n item = ◌>>=◌ (set_items n 0 list item s) (λ s'. done (some list, s'))

  unfoldable pub row_to_py :
      Builder (Variant F.D)
      → Matrix
      → ℕ
      → Heap F.D
      → py.Store
      → Outcome (Option py.Object × py.Store)
  unfolding list_with
  row_to_py variant_to_py m i h s =
      let width = int_of_size m.m_width in
      list_with (py.list_new width s) (rounds width)
        (λ j s1. ◌>>=◌ (matrix_get m j i h) (λ r. variant_to_py r.0 h s1))

  -- A matrix of one row is its row.
  unfoldable pub matrix_to_py_with : Builder (Variant F.D) → Builder Matrix
  unfolding list_with row_to_py
  matrix_to_py_with variant_to_py m h s =
      let height = int_of_size m.m_height in
      if eqb_ℤ height (pos 1)
      then row_to_py variant_to_py m 0 h s
      else list_with (py.list_new height s) (rounds height)
          (λ i s1. row_to_py variant_to_py m i h s1)

  unfoldable pub variant_to_py : (depth : ℕ) → Builder (Variant F.D)
  variant_to_py zero v h s = fault
  variant_to_py (suc depth) v h s =
      variant_to_py_with (matrix_to_py_with (variant_to_py depth)) v h s

  unfoldable pub matrix_to_py : (depth : ℕ) → Builder Matrix
  unfolding variant_to_py matrix_to_py_with
  matrix_to_py depth = matrix_to_py_with (variant_to_py depth)

  -- The loop of core_python_variants_to_py_dict, with the key converted before the value.
  unfoldable pub entries_loop :
      (depth n i : ℕ) → Option py.Object → Matrix → Matrix → Heap F.D → py.Store → Outcome py.Store
  unfolding variant_to_py
  entries_loop depth zero i rtn m1 m2 h s = done s
  entries_loop depth (suc n) i rtn m1 m2 h s = ◌>>=◌ (matrix_get m1 0 i h) (λ k.
      ◌>>=◌ (variant_to_py depth k.0 h s) (λ p. ◌>>=◌ (matrix_get m2 0 i h) (λ v.
        ◌>>=◌ (variant_to_py depth v.0 h p.1)
          (λ q. entries_loop depth n (suc i) rtn m1 m2 h (py.dict_set_item rtn p.0 q.0 q.1)))))

  abbrev dict_of :
      (depth n : ℕ)
      → Matrix
      → Matrix
      → Heap F.D
      → Option py.Object × py.Store
      → Outcome (Option py.Object × py.Store)
  dict_of depth n m1 m2 h (rtn, s) =
      ◌>>=◌ (entries_loop depth n 0 rtn m1 m2 h s) (λ s'. done (rtn, s'))

  unfoldable pub variants_to_py_dict :
      (depth : ℕ)
      → Variant F.D
      → Variant F.D
      → Heap F.D
      → py.Store
      → Outcome (Option py.Object × py.Store)
  unfolding entries_loop
  variants_to_py_dict depth (Variant.matrix m1) (Variant.matrix m2) h s =
      if to_u32 (int_of_size m1.m_height) == m2.m_height
      then dict_of depth (rounds (int_of_size m1.m_height)) m1 m2 h (py.dict_new s)
      else done (none, s)
  variants_to_py_dict depth vars vals h s = done (none, s)

-- ===== src/Types/Operators/Compare.antt =====
-- matrix_compare against its specification in include/core_types/core_types_matrix.h.
use arnovich_core.Base.{
  ℕ, zero, suc, ◌<◌, ◌≡◌, refl, ◌≢◌, ◌↔◌, inl, inr, Bool, true, false, ◌&&◌, arith, ◌==◌,
  Bool-cases, done,
}
use arnovich_core.Base.CString.{strcmp}
use mathlib.Core.Path.{subst}
use arnovich_core.Types.Value.{Matrix, Variant}
use arnovich_core.Types.Double.{Double}
use arnovich_core.Types.Heap.{Heap, M, pure, ◌>>=◌, load_chars, all_range}
use arnovich_core.Types.Matrix.{matrix_get, matrix_compare_by}
use arnovich_core.Types.Operators.{
  compare_strings, variant_equal_with, variant_equal, matrix_compare,
}
use arnovich_core.Base.CString.{is_eq}
use arnovich_core.Types.Operators.Symmetry.{matrix_get-Reads}
use arnovich_core.Types.Heap.Reads.{
  Reads, all_range-Reads, bind-Reads, bind-done, if-Reads, lift-Reads, load_chars-Reads, loop_iff,
  pure-Reads,
}

compare-Reads : {D : Type 0} (p q : ℕ) → Reads {D = D} (compare_strings p q >>= λ o. pure (is_eq o))
unfolding compare_strings
compare-Reads p q =
    bind-Reads (compare_strings p q) _
      (bind-Reads (load_chars p) _ (load_chars-Reads p)
        (λ s. bind-Reads (load_chars q) _ (load_chars-Reads q) (λ t. lift-Reads (strcmp s t))))
      (λ o. pure-Reads (is_eq o))

variant_equal_with-Reads :
    (F : Double) (cmp : Matrix → Matrix → M F.D Bool)
    → ((a b : Matrix) → Reads (cmp a b))
    → (v w : Variant F.D) → Reads (variant_equal_with F cmp v w)
unfolding variant_equal_with
variant_equal_with-Reads F cmp r Variant.empty w = pure-Reads false
variant_equal_with-Reads F cmp r (Variant.bool a) Variant.empty = pure-Reads _
variant_equal_with-Reads F cmp r (Variant.bool a) (Variant.bool b) = pure-Reads _
variant_equal_with-Reads F cmp r (Variant.bool a) (Variant.int b) = pure-Reads _
variant_equal_with-Reads F cmp r (Variant.bool a) (Variant.double b) = pure-Reads _
variant_equal_with-Reads F cmp r (Variant.bool a) (Variant.text b _) = pure-Reads _
variant_equal_with-Reads F cmp r (Variant.bool a) (Variant.matrix b) = pure-Reads _
variant_equal_with-Reads F cmp r (Variant.bool a) (Variant.error b _) = pure-Reads _
variant_equal_with-Reads F cmp r (Variant.bool a) (Variant.function _ _ _) = pure-Reads _
variant_equal_with-Reads F cmp r (Variant.int a) Variant.empty = pure-Reads _
variant_equal_with-Reads F cmp r (Variant.int a) (Variant.bool b) = pure-Reads _
variant_equal_with-Reads F cmp r (Variant.int a) (Variant.int b) = pure-Reads _
variant_equal_with-Reads F cmp r (Variant.int a) (Variant.double b) = pure-Reads _
variant_equal_with-Reads F cmp r (Variant.int a) (Variant.text b _) = pure-Reads _
variant_equal_with-Reads F cmp r (Variant.int a) (Variant.matrix b) = pure-Reads _
variant_equal_with-Reads F cmp r (Variant.int a) (Variant.error b _) = pure-Reads _
variant_equal_with-Reads F cmp r (Variant.int a) (Variant.function _ _ _) = pure-Reads _
variant_equal_with-Reads F cmp r (Variant.double a) Variant.empty = pure-Reads _
variant_equal_with-Reads F cmp r (Variant.double a) (Variant.bool b) = pure-Reads _
variant_equal_with-Reads F cmp r (Variant.double a) (Variant.int b) = pure-Reads _
variant_equal_with-Reads F cmp r (Variant.double a) (Variant.double b) = pure-Reads _
variant_equal_with-Reads F cmp r (Variant.double a) (Variant.text b _) = pure-Reads _
variant_equal_with-Reads F cmp r (Variant.double a) (Variant.matrix b) = pure-Reads _
variant_equal_with-Reads F cmp r (Variant.double a) (Variant.error b _) = pure-Reads _
variant_equal_with-Reads F cmp r (Variant.double a) (Variant.function _ _ _) = pure-Reads _
variant_equal_with-Reads F cmp r (Variant.text a _) Variant.empty = pure-Reads _
variant_equal_with-Reads F cmp r (Variant.text a _) (Variant.bool b) = pure-Reads _
variant_equal_with-Reads F cmp r (Variant.text a _) (Variant.int b) = pure-Reads _
variant_equal_with-Reads F cmp r (Variant.text a _) (Variant.double b) = pure-Reads _
variant_equal_with-Reads F cmp r (Variant.text a _) (Variant.text b _) = compare-Reads a b
variant_equal_with-Reads F cmp r (Variant.text a _) (Variant.matrix b) = pure-Reads _
variant_equal_with-Reads F cmp r (Variant.text a _) (Variant.error b _) = pure-Reads _
variant_equal_with-Reads F cmp r (Variant.text a _) (Variant.function _ _ _) = pure-Reads _
variant_equal_with-Reads F cmp r (Variant.matrix a) Variant.empty = pure-Reads _
variant_equal_with-Reads F cmp r (Variant.matrix a) (Variant.bool b) = pure-Reads _
variant_equal_with-Reads F cmp r (Variant.matrix a) (Variant.int b) = pure-Reads _
variant_equal_with-Reads F cmp r (Variant.matrix a) (Variant.double b) = pure-Reads _
variant_equal_with-Reads F cmp r (Variant.matrix a) (Variant.text b _) = pure-Reads _
variant_equal_with-Reads F cmp r (Variant.matrix a) (Variant.matrix b) = r a b
variant_equal_with-Reads F cmp r (Variant.matrix a) (Variant.error b _) = pure-Reads _
variant_equal_with-Reads F cmp r (Variant.matrix a) (Variant.function _ _ _) = pure-Reads _
variant_equal_with-Reads F cmp r (Variant.error a _) Variant.empty = pure-Reads _
variant_equal_with-Reads F cmp r (Variant.error a _) (Variant.bool b) = pure-Reads _
variant_equal_with-Reads F cmp r (Variant.error a _) (Variant.int b) = pure-Reads _
variant_equal_with-Reads F cmp r (Variant.error a _) (Variant.double b) = pure-Reads _
variant_equal_with-Reads F cmp r (Variant.error a _) (Variant.text b _) = pure-Reads _
variant_equal_with-Reads F cmp r (Variant.error a _) (Variant.matrix b) = pure-Reads _
variant_equal_with-Reads F cmp r (Variant.error a _) (Variant.error b _) = compare-Reads a b
variant_equal_with-Reads F cmp r (Variant.error a _) (Variant.function _ _ _) = pure-Reads _
variant_equal_with-Reads F cmp r (Variant.function _ _ _) Variant.empty = pure-Reads _
variant_equal_with-Reads F cmp r (Variant.function _ _ _) (Variant.bool b) = pure-Reads _
variant_equal_with-Reads F cmp r (Variant.function _ _ _) (Variant.int b) = pure-Reads _
variant_equal_with-Reads F cmp r (Variant.function _ _ _) (Variant.double b) = pure-Reads _
variant_equal_with-Reads F cmp r (Variant.function _ _ _) (Variant.text b _) = pure-Reads _
variant_equal_with-Reads F cmp r (Variant.function _ _ _) (Variant.matrix b) = pure-Reads _
variant_equal_with-Reads F cmp r (Variant.function _ _ _) (Variant.error b _) = pure-Reads _
variant_equal_with-Reads F cmp r (Variant.function _ _ _) (Variant.function _ _ _) = pure-Reads _

element-Reads :
    {D : Type 0} (equal : Variant D → Variant D → M D Bool)
    → ((v w : Variant D) → Reads (equal v w))
    → (a b : Matrix) (i j : ℕ)
    → Reads (matrix_get a i j >>= λ v. matrix_get b i j >>= λ w. equal v w)
element-Reads equal r a b i j =
    bind-Reads (matrix_get a i j) _ (matrix_get-Reads a i j)
      (λ v. bind-Reads (matrix_get b i j) _ (matrix_get-Reads b i j) (λ w. r v w))

matrix_compare_by-Reads :
    {D : Type 0} (equal : Variant D → Variant D → M D Bool)
    → ((v w : Variant D) → Reads (equal v w))
    → (a b : Matrix) → Reads (matrix_compare_by equal a b)
unfolding matrix_compare_by
matrix_compare_by-Reads equal r a b =
    if-Reads (a.m_width == b.m_width && a.m_height == b.m_height)
      (all_range-Reads a.m_width 0 _
        (λ i. all_range-Reads a.m_height 0 _ (λ j. element-Reads equal r a b i j)))
      (pure-Reads false)

-- variant_equal leaves the heap as it is.
pub variant_equal-Reads :
    (F : Double) (depth : ℕ) (v w : Variant F.D) → Reads (variant_equal F depth v w)
unfolding variant_equal
variant_equal-Reads F zero v w = λ h. inl refl
variant_equal-Reads F (suc depth) v w =
    variant_equal_with-Reads F (matrix_compare_by (variant_equal F depth))
      (matrix_compare_by-Reads (variant_equal F depth) (variant_equal-Reads F depth)) v w

-- The elements in column i and row j of both matrices are there and variant_equal.
abbrev pub ElementsEqual : (F : Double) → ℕ → Matrix → Matrix → Heap F.D → ℕ → ℕ → Type 0
ElementsEqual F depth a b h i j =
    (v w : Variant F.D) × (matrix_get a i j h ≡ done (v, h))
    × (matrix_get b i j h ≡ done (w, h))
    × (variant_equal F depth v w h ≡ done (true, h))

element_test :
    (F : Double) (depth : ℕ) (a b : Matrix) (h : Heap F.D) (i j : ℕ)
    → ((matrix_get a i j >>= λ v. matrix_get b i j >>= λ w. variant_equal F depth v w) h
        ≡ done (true, h))
      ↔ ElementsEqual F depth a b h i j
element_test F depth a b h i j = (
  (λ e.
      let (v, x, p) = bind-done (matrix_get a i j) _ (matrix_get-Reads a i j) h e in
      let (w, y, q) = bind-done (matrix_get b i j) _ (matrix_get-Reads b i j) h p in
      (v, w, x, y, q)),
  (λ (v, w, x, y, z). rw (x, y) z),
)

module _ (F : Double) (depth : ℕ) (a b : Matrix) (h : Heap F.D) where
  column : ℕ → M F.D Bool
  column i =
      all_range a.m_height 0
        (λ j. matrix_get a i j >>= λ v. matrix_get b i j >>= λ w. variant_equal F depth v w)

  test-Reads :
      (i j : ℕ)
      → Reads (matrix_get a i j >>= λ v. matrix_get b i j >>= λ w. variant_equal F depth v w)
  test-Reads = element-Reads (variant_equal F depth) (variant_equal-Reads F depth) a b

  column-Reads : (i : ℕ) → Reads (column i)
  unfolding column
  column-Reads i = all_range-Reads a.m_height 0 _ (test-Reads i)

  column_iff :
      (i : ℕ)
      → (column i h ≡ done (true, h)) ↔ (
          (j : ℕ)
          → j < a.m_height
          → (matrix_get a i j >>= λ v. matrix_get b i j >>= λ w. variant_equal F depth v w) h
            ≡ done (true, h))
  unfolding column
  column_iff i = loop_iff a.m_height _ (test-Reads i) h

  elements_iff :
      (all_range a.m_width 0 column h ≡ done (true, h))
      ↔ ((i j : ℕ) → i < a.m_width → j < a.m_height → ElementsEqual F depth a b h i j)
  unfolding column
  elements_iff =
      let outer = loop_iff a.m_width column column-Reads h in
      (
        (λ e i j x y. (element_test F depth a b h i j).0 ((column_iff i).0 (outer.0 e i x) j y)),
        (λ all.
            outer.1
              (λ i x. (column_iff i).1 (λ j y. (element_test F depth a b h i j).1 (all i j x y)))),
      )

  -- matrix_compare answers true exactly where the sizes are equal and every two elements at the same
  -- place are variant_equal.
  pub matrix_compare_iff : (matrix_compare F depth a b h ≡ done (true, h)) ↔ (
      (a.m_width ≡ b.m_width)
      × (a.m_height ≡ b.m_height)
      × ((i j : ℕ) → i < a.m_width → j < a.m_height → ElementsEqual F depth a b h i j))
  unfolding matrix_compare matrix_compare_by column
  matrix_compare_iff = elim (Bool-cases (a.m_width == b.m_width && a.m_height == b.m_height)) [
    | inl t ↦ (
      (λ e. (ground arith, ground arith, elements_iff.0 (rw t at e))),
      (λ (x, y, all). rw t (elements_iff.1 all)),
    )
    | inr t ↦ ((λ e. absurd (cc (rw t at e))), (λ (x, y, all). absurd (ground arith)))
  ]

-- A matrix with an EMPTY element is not equal to itself.
pub matrix_compare-empty :
    (F : Double) (depth : ℕ) (m : Matrix) (h : Heap F.D) (i j : ℕ)
    → i < m.m_width
    → j < m.m_height
    → matrix_get m i j h ≡ done (Variant.empty, h)
    → matrix_compare F depth m m h ≢ done (true, h)
unfolding variant_equal variant_equal_with
matrix_compare-empty F depth m h i j x y at e =
    let (_, _, all) = (matrix_compare_iff F depth m m h).0 e in
    let (v, w, p, q, r) = all i j x y in not_equal depth v w (cc) r
  where
    not_equal :
        (depth : ℕ) (v w : Variant F.D)
        → v ≡ Variant.empty
        → variant_equal F depth v w h ≢ done (true, h)
    not_equal zero v w a b = cc
    not_equal (suc depth) v w a b =
        cc (subst (λ v. variant_equal F (suc depth) v w h ≡ done (true, h)) a b)

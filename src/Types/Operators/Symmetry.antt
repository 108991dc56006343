-- ===== src/Types/Operators/Symmetry.antt =====
-- variant_equal and matrix_compare with their arguments the other way round
-- (src/lib/core_types/core_types_variant.c, core_types_matrix.c).
use arnovich_core.Base.{
  ℕ, zero, suc, Ordering, ◌≡◌, refl, sym, ap, ◌∙◌, ◌⊎◌, inl, inr, Bool, ◌&&◌, Option, none, some,
  List, [], ◌∷◌, arith, ◌==◌, Bool-cases, ℤ, eqb_ℤ, get_elem?, Outcome, done, fault, access,
}
use mathlib.Core.Path.{fun_ext}
use arnovich_core.Base.CString.{strcmp}
use arnovich_core.Base.CString.Order.{opposite}
use arnovich_core.Types.Value.{Matrix, Variant}
use arnovich_core.Types.Double.{Double, compare_double, IsIeee}
use arnovich_core.Types.Heap.{
  Heap, M, pure, and_then, ◌>>=◌, lift, load_chars, load_values, as_values, block_at, all_range,
}
use arnovich_core.Types.Heap.Reads.{
  Reads, all_range-cong, and_then_assoc, load_chars-Reads, Reads-swap,
}
use arnovich_core.Types.Matrix.{matrix_get, matrix_compare_by, index}
use arnovich_core.Types.Operators.{compare_strings, variant_equal_with, variant_equal}
use arnovich_core.Base.CString.{is_eq}

abbrev flip : Outcome Ordering → Outcome Ordering
flip (done o) = done (opposite o)
flip fault = fault

strcmp-flip : (a b : List ℕ) → strcmp b a ≡ flip (strcmp a b)
unfolding strcmp
strcmp-flip [] [] = refl
strcmp-flip [] (d ∷ b) = refl
strcmp-flip (c ∷ a) [] = refl
strcmp-flip (c ∷ a) (d ∷ b) = ground (arith, strcmp-flip a b)

pub matrix_get-Reads : {D : Type 0} (m : Matrix) (i j : ℕ) → Reads {D = D} (matrix_get m i j)
unfolding matrix_get load_values
matrix_get-Reads {D} m i j h = go (as_values (block_at h m.m_values))
  where
    last :
        (o : Option (Variant D))
        → (lift (access o) h ≡ fault) ⊎ ((a : Variant D) × (lift (access o) h ≡ done (a, h)))
    last none = inl refl
    last (some v) = inr (v, refl)

    element : List (Variant D) → M D (Variant D)
    element vs = lift (access (get_elem? vs (index m i j)))

    go :
        (o : Outcome (List (Variant D)))
        → ((lift o >>= element) h ≡ fault)
          ⊎ ((a : Variant D) × ((lift o >>= element) h ≡ done (a, h)))
    go (done vs) = last (get_elem? vs (index m i j))
    go fault = inl refl

strcmp-is_eq :
    (a b : List ℕ) {D : Type 0} (h : Heap D)
    → (lift (strcmp a b) >>= λ o. pure (is_eq o)) h ≡ (lift (strcmp b a) >>= λ o. pure (is_eq o)) h
strcmp-is_eq a b h = rw (strcmp-flip a b) (go (strcmp a b))
  where
    go :
        (o : Outcome Ordering)
        → (lift o >>= λ o. pure (is_eq o)) h ≡ (lift (flip o) >>= λ o. pure (is_eq o)) h
    go (done Ordering.lt) = refl
    go (done Ordering.eq) = refl
    go (done Ordering.gt) = refl
    go fault = refl

compare_strings-is_eq :
    {D : Type 0} (p q : ℕ) (h : Heap D)
    → (compare_strings p q >>= λ o. pure (is_eq o)) h
      ≡ (compare_strings q p >>= λ o. pure (is_eq o)) h
unfolding compare_strings
compare_strings-is_eq p q h =
    and_then_assoc (load_chars p h) _ _
    ∙ ap (and_then (load_chars p h)) (fun_ext λ s. fun_ext λ k. and_then_assoc (load_chars q k) _ _)
    ∙ Reads-swap (load_chars p) (load_chars q) (λ s t. lift (strcmp s t) >>= λ o. pure (is_eq o))
        (λ t s. lift (strcmp t s) >>= λ o. pure (is_eq o)) (load_chars-Reads p) (load_chars-Reads q)
        (λ s t k. strcmp-is_eq s t k) h
    ∙ sym (
        ap (and_then (load_chars q h))
          (fun_ext λ s. fun_ext λ k. and_then_assoc (load_chars p k) _ _))
    ∙ sym (and_then_assoc (load_chars q h) _ _)

loops_swap :
    {D : Type 0} (equal : Variant D → Variant D → M D Bool)
    → ((v w : Variant D) (h : Heap D) → equal v w h ≡ equal w v h)
    → (a b : Matrix) (h : Heap D) {m m' n n' : ℕ} → m ≡ m'
    → n ≡ n'
    → all_range m 0
        (λ i. all_range n 0 (λ j. matrix_get a i j >>= λ v. matrix_get b i j >>= λ w. equal v w))
        h
      ≡ all_range m' 0
          (λ i. all_range n' 0 (λ j. matrix_get b i j >>= λ v. matrix_get a i j >>= λ w. equal v w))
          h
loops_swap equal same a b h {m' = m} {n' = n} p q =
    rw (p, q)
      (all_range-cong m 0 _ _
        (λ i k.
          all_range-cong n 0 _ _
            (λ j l.
              Reads-swap (matrix_get a i j) (matrix_get b i j) equal equal (matrix_get-Reads a i j)
                (matrix_get-Reads b i j) same l)
            k)
        h)

matrix_compare_by-sym :
    {D : Type 0} (equal : Variant D → Variant D → M D Bool)
    → ((v w : Variant D) (h : Heap D) → equal v w h ≡ equal w v h)
    → (a b : Matrix) (h : Heap D) → matrix_compare_by equal a b h ≡ matrix_compare_by equal b a h
unfolding matrix_compare_by
matrix_compare_by-sym equal same a b h =
    let t : (b.m_width == a.m_width && b.m_height == a.m_height)
        ≡ (a.m_width == b.m_width && a.m_height == b.m_height) =
      ground arith in
    elim (Bool-cases (a.m_width == b.m_width && a.m_height == b.m_height)) [
      | inl e ↦ rw (t, e) (loops_swap equal same a b h (ground arith) (ground arith))
      | inr e ↦ rw (t, e)
    ]

eqb_ℤ-sym : (a b : ℤ) → eqb_ℤ a b ≡ eqb_ℤ b a
eqb_ℤ-sym a b = ground arith

compare_double-sym :
    (F : Double) → IsIeee F → (a b : F.D) → compare_double F a b ≡ compare_double F b a
compare_double-sym F law a b = rw (compare_double, law.fabs-minus a b)

variant_equal_with-sym :
    (F : Double)
    → IsIeee F
    → (cmp : Matrix → Matrix → M F.D Bool) → ((a b : Matrix) (h : Heap F.D) → cmp a b h ≡ cmp b a h)
    → (v w : Variant F.D) (h : Heap F.D)
    → variant_equal_with F cmp v w h ≡ variant_equal_with F cmp w v h
unfolding variant_equal_with
variant_equal_with-sym F law cmp same Variant.empty Variant.empty h = refl
variant_equal_with-sym F law cmp same Variant.empty (Variant.bool b) h = refl
variant_equal_with-sym F law cmp same Variant.empty (Variant.int b) h = refl
variant_equal_with-sym F law cmp same Variant.empty (Variant.double b) h = refl
variant_equal_with-sym F law cmp same Variant.empty (Variant.text b k) h = refl
variant_equal_with-sym F law cmp same Variant.empty (Variant.matrix b) h = refl
variant_equal_with-sym F law cmp same Variant.empty (Variant.error b k) h = refl
variant_equal_with-sym F law cmp same Variant.empty (Variant.function m g b) h = refl
variant_equal_with-sym F law cmp same (Variant.bool a) Variant.empty h = refl
variant_equal_with-sym F law cmp same (Variant.bool a) (Variant.bool b) h = rw (eqb_ℤ-sym a b)
variant_equal_with-sym F law cmp same (Variant.bool a) (Variant.int b) h = refl
variant_equal_with-sym F law cmp same (Variant.bool a) (Variant.double b) h = refl
variant_equal_with-sym F law cmp same (Variant.bool a) (Variant.text b k) h = refl
variant_equal_with-sym F law cmp same (Variant.bool a) (Variant.matrix b) h = refl
variant_equal_with-sym F law cmp same (Variant.bool a) (Variant.error b k) h = refl
variant_equal_with-sym F law cmp same (Variant.bool a) (Variant.function m g b) h = refl
variant_equal_with-sym F law cmp same (Variant.int a) Variant.empty h = refl
variant_equal_with-sym F law cmp same (Variant.int a) (Variant.bool b) h = refl
variant_equal_with-sym F law cmp same (Variant.int a) (Variant.int b) h = rw (eqb_ℤ-sym a b)
variant_equal_with-sym F law cmp same (Variant.int a) (Variant.double b) h =
    rw (compare_double-sym F law (F.of_int a) b)
variant_equal_with-sym F law cmp same (Variant.int a) (Variant.text b k) h = refl
variant_equal_with-sym F law cmp same (Variant.int a) (Variant.matrix b) h = refl
variant_equal_with-sym F law cmp same (Variant.int a) (Variant.error b k) h = refl
variant_equal_with-sym F law cmp same (Variant.int a) (Variant.function m g b) h = refl
variant_equal_with-sym F law cmp same (Variant.double a) Variant.empty h = refl
variant_equal_with-sym F law cmp same (Variant.double a) (Variant.bool b) h = refl
variant_equal_with-sym F law cmp same (Variant.double a) (Variant.int b) h =
    rw (compare_double-sym F law a (F.of_int b))
variant_equal_with-sym F law cmp same (Variant.double a) (Variant.double b) h =
    rw (compare_double-sym F law a b)
variant_equal_with-sym F law cmp same (Variant.double a) (Variant.text b k) h = refl
variant_equal_with-sym F law cmp same (Variant.double a) (Variant.matrix b) h = refl
variant_equal_with-sym F law cmp same (Variant.double a) (Variant.error b k) h = refl
variant_equal_with-sym F law cmp same (Variant.double a) (Variant.function m g b) h = refl
variant_equal_with-sym F law cmp same (Variant.text a l) Variant.empty h = refl
variant_equal_with-sym F law cmp same (Variant.text a l) (Variant.bool b) h = refl
variant_equal_with-sym F law cmp same (Variant.text a l) (Variant.int b) h = refl
variant_equal_with-sym F law cmp same (Variant.text a l) (Variant.double b) h = refl
variant_equal_with-sym F law cmp same (Variant.text a l) (Variant.text b k) h =
    compare_strings-is_eq a b h
variant_equal_with-sym F law cmp same (Variant.text a l) (Variant.matrix b) h = refl
variant_equal_with-sym F law cmp same (Variant.text a l) (Variant.error b k) h = refl
variant_equal_with-sym F law cmp same (Variant.text a l) (Variant.function m g b) h = refl
variant_equal_with-sym F law cmp same (Variant.matrix a) Variant.empty h = refl
variant_equal_with-sym F law cmp same (Variant.matrix a) (Variant.bool b) h = refl
variant_equal_with-sym F law cmp same (Variant.matrix a) (Variant.int b) h = refl
variant_equal_with-sym F law cmp same (Variant.matrix a) (Variant.double b) h = refl
variant_equal_with-sym F law cmp same (Variant.matrix a) (Variant.text b k) h = refl
variant_equal_with-sym F law cmp same (Variant.matrix a) (Variant.matrix b) h = same a b h
variant_equal_with-sym F law cmp same (Variant.matrix a) (Variant.error b k) h = refl
variant_equal_with-sym F law cmp same (Variant.matrix a) (Variant.function m g b) h = refl
variant_equal_with-sym F law cmp same (Variant.error a l) Variant.empty h = refl
variant_equal_with-sym F law cmp same (Variant.error a l) (Variant.bool b) h = refl
variant_equal_with-sym F law cmp same (Variant.error a l) (Variant.int b) h = refl
variant_equal_with-sym F law cmp same (Variant.error a l) (Variant.double b) h = refl
variant_equal_with-sym F law cmp same (Variant.error a l) (Variant.text b k) h = refl
variant_equal_with-sym F law cmp same (Variant.error a l) (Variant.matrix b) h = refl
variant_equal_with-sym F law cmp same (Variant.error a l) (Variant.error b k) h =
    compare_strings-is_eq a b h
variant_equal_with-sym F law cmp same (Variant.error a l) (Variant.function m g b) h = refl
variant_equal_with-sym F law cmp same (Variant.function n f a) Variant.empty h = refl
variant_equal_with-sym F law cmp same (Variant.function n f a) (Variant.bool b) h = refl
variant_equal_with-sym F law cmp same (Variant.function n f a) (Variant.int b) h = refl
variant_equal_with-sym F law cmp same (Variant.function n f a) (Variant.double b) h = refl
variant_equal_with-sym F law cmp same (Variant.function n f a) (Variant.text b k) h = refl
variant_equal_with-sym F law cmp same (Variant.function n f a) (Variant.matrix b) h = refl
variant_equal_with-sym F law cmp same (Variant.function n f a) (Variant.error b k) h = refl
variant_equal_with-sym F law cmp same (Variant.function n f a) (Variant.function m g b) h =
    ap (λ t. done (t, h)) (ground arith)

-- variant_equal is symmetric, faults included, at every depth of nested matrices.
pub variant_equal-sym :
    (F : Double)
    → IsIeee F
    → (depth : ℕ) (v w : Variant F.D) (h : Heap F.D)
    → variant_equal F depth v w h ≡ variant_equal F depth w v h
unfolding variant_equal
variant_equal-sym F law zero v w h = refl
variant_equal-sym F law (suc depth) v w h =
    variant_equal_with-sym F law (matrix_compare_by (variant_equal F depth))
      (matrix_compare_by-sym (variant_equal F depth) (variant_equal-sym F law depth)) v w h

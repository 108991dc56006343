-- ===== src/Types/Printing/Nested.antt =====
-- matrix_to_string (src/lib/core_types/core_types_matrix.c) on a matrix with a matrix in it.
use arnovich_core.Base.{
  ℕ, zero, suc, ◌<◌, ◌≡◌, refl, arith, true, false, [], ◌∷◌, ◌==◌, ==_iff, Outcome, done, fault,
  ◌>>=◌,
}
use arnovich_core.Types.Value.{Matrix, Variant}
use arnovich_core.Types.Double.{Double}
use arnovich_core.Types.Heap.{Heap}
use arnovich_core.Types.Matrix.{matrix_get}
use arnovich_core.Types.Printing.{
  Statics, Printed, cat, for_text, cat_printed, element, row, start, matrix_to_string_by,
  variant_to_string, variant_to_string_with, matrix_to_string, next_n, string_length,
}
use arnovich_core.Base.{
  some, set, length, length-set, get_elem?, sym, ap, ◌∙◌, get_elem?-set_self, List,
}
use arnovich_core.Base.CString.{cstring, strlen, strcpy, terminated}
use arnovich_core.Types.Printing.Rendering.{
  IsValid, ShowsAll, matrix_text, next_n-valid, matrix_to_string-text, matrix_to_string-current,
}

bind_fault :
    {A B : Type 0} (o : Outcome A) (f : A → Outcome B) → ((a : A) → f a ≡ fault) → (o >>= f) ≡ fault
bind_fault (done a) f h = h a
bind_fault fault f h = refl

==_self : (n : ℕ) → (n == n) ≡ true
==_self n = (==_iff n n).1 refl

-- A printer that returns its own current buffer.
own_buffer-fault :
    {C : Type 0} (o : Outcome Statics) (k : Printed × Statics → Outcome C)
    → ((st : Statics) → k (Printed.in_matrix st.n, st) ≡ fault)
    → ((o >>= λ st. done (Printed.in_matrix st.n, st)) >>= k) ≡ fault
own_buffer-fault (done st) k h = h st
own_buffer-fault fault k h = refl

printer-fault :
    {C : Type 0} (o : Outcome Statics) (f : Statics → Outcome Statics)
    (k : Printed × Statics → Outcome C)
    → ((st : Statics) → k (Printed.in_matrix st.n, st) ≡ fault)
    → ((o >>= λ st1. f st1 >>= λ st. done (Printed.in_matrix st.n, st)) >>= k) ≡ fault
printer-fault (done st1) f k h = own_buffer-fault (f st1) k h
printer-fault fault f k h = refl

-- A loop faults whose first round does.
for_text-fault :
    (n : ℕ) (body : ℕ → Statics → Outcome Statics) (st : Statics)
    → 0 < n
    → body 0 st ≡ fault
    → for_text n 0 body st ≡ fault
unfolding for_text
for_text-fault zero body st some_round e = absurd (omega arith)
for_text-fault (suc n) body st some_round e = rw e

module _ (F : Double) where
  element-fault :
      (depth : ℕ) (h : Heap F.D) (m mm : Matrix) (st : Statics)
      → matrix_get m 0 0 h ≡ done (Variant.matrix mm, h)
      → element F false (variant_to_string F false depth) h m 0 0 st ≡ fault
  unfolding element cat_printed variant_to_string variant_to_string_with matrix_to_string_by
  element-fault zero h m mm st got = rw got
  element-fault (suc depth) h m mm st got = rw got (
      printer-fault
        (for_text mm.m_height 0 (row F false (variant_to_string F false depth) h mm)
          (start F false st))
        (λ st1. cat st1.n (93 ∷ 0 ∷ []) st1) _ (λ st'. rw (==_self st'.n)))

  row-fault :
      (depth : ℕ) (h : Heap F.D) (m mm : Matrix) (st : Statics)
      → 0 < m.m_width
      → matrix_get m 0 0 h ≡ done (Variant.matrix mm, h)
      → row F false (variant_to_string F false depth) h m 0 st ≡ fault
  unfolding row
  row-fault depth h m mm st wide got = bind_fault (cat st.n (91 ∷ 0 ∷ []) st) _ (λ st1.
      let e =
        for_text-fault m.m_width (element F false (variant_to_string F false depth) h m 0) st1 wide
          (element-fault depth h m mm st1 got) in
      rw e)

  -- The state in which the first element is printed, behind the two brackets.
  abbrev pub opened : Statics → Statics
  opened st = record st {
    n = next_n st.n;
    strs = set (set st.strs (next_n st.n) (91 ∷ 0 ∷ [])) (next_n st.n) (91 ∷ 91 ∷ 0 ∷ []);
  }

  cat-opened :
      (st : Statics)
      → IsValid st
      → cat (next_n st.n) (91 ∷ 0 ∷ []) (start F false st) ≡ done (opened st)
  unfolding cat strlen strcpy terminated
  cat-opened st valid =
      rw (get_elem?-set_self st.strs (next_n st.n) (91 ∷ 0 ∷ []) (next_n-valid st valid))

  opened-IsValid : (st : Statics) → IsValid st → IsValid (opened st)
  opened-IsValid st (ten, e) = (
    omega (
      arith,
      ten,
      length-set st.strs (next_n st.n) (91 ∷ 0 ∷ []),
      length-set (set st.strs (next_n st.n) (91 ∷ 0 ∷ [])) (next_n st.n) (91 ∷ 91 ∷ 0 ∷ []),
    ),
    omega (arith, ten, next_n-valid st (ten, e)),
  )

  -- Where `str[n]` is evaluated after the call of variant_to_string: of a matrix whose first element is a
  -- matrix that holds no matrices and whose rendering fits, the element's call returns, its result is the
  -- current buffer, to append that buffer to itself faults, and so does matrix_to_string, at every depth
  -- that leaves the element's call the depth that it needs.
  pub matrix_to_string-nested :
      (depth : ℕ) (h : Heap F.D) (m mm : Matrix) (f : ℕ → ℕ → List ℕ) (st : Statics)
      → IsValid st
      → ShowsAll F h mm f
      → length (matrix_text mm.m_width mm.m_height f) < string_length
      → 0 < m.m_width
      → 0 < m.m_height
      → matrix_get m 0 0 h ≡ done (Variant.matrix mm, h)
      → (cat (next_n st.n) (91 ∷ 0 ∷ []) (start F false st) ≡ done (opened st))
        × ((st' : Statics) × (variant_to_string F false
                (suc (suc depth))
                h
                (Variant.matrix mm)
                (opened st)
              ≡ done (Printed.in_matrix st'.n, st'))
            × (get_elem? st'.strs st'.n ≡ some (cstring (matrix_text mm.m_width mm.m_height f)))
            × (cat_printed F false h st'.n (Printed.in_matrix st'.n) st' ≡ fault))
        × (matrix_to_string F false (suc (suc depth)) h m st ≡ fault)
  unfolding matrix_to_string matrix_to_string_by variant_to_string variant_to_string_with
      cat_printed
  matrix_to_string-nested depth h m mm f st valid all room wide high got =
      let (st', run, there, _) =
        (matrix_to_string-text F false depth h mm f (opened st) (opened-IsValid st valid) all).0
          room in
      let current =
        matrix_to_string-current F false depth h mm (opened st) (next_n (opened st).n) st' run in
      (
        cat-opened st valid,
        (
          st',
          run ∙ ap (λ k. done (Printed.in_matrix k, st')) current,
          ap (λ k. get_elem? st'.strs k) (sym current) ∙ there,
          rw (==_self st'.n),
        ),
        rw (
            for_text-fault m.m_height
              (row F false (variant_to_string F false (suc (suc depth))) h m) (start F false st)
              high (row-fault (suc (suc depth)) h m mm (start F false st) wide got)),
      )

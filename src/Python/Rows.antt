-- ===== src/Python/Rows.antt =====
-- core_python_py_to_matrix (src/lib/core_python/core_python.c) of a list: its rows in the matrix.
use arnovich_core.Base.{
  ℕ, zero, suc, ◌+◌, ◌-◌, ◌^◌, ◌≤◌, ◌<◌, ◌≡◌, refl, inl, inr, true, false, ◌&&◌, Option, none, some,
  List, [], ◌∷◌, arith, ltb, ◌==◌, ==_iff, if◌then◌else◌, Bool-cases, pos, length, get_elem?,
  get_elem?-of_lt, done, access,
}
use arnovich_core.Types.Value.{Matrix, Variant}
use arnovich_core.Types.Double.{Double}
use arnovich_core.Types.Heap.{Heap, M, ◌>>=◌, lift, for_range}
use arnovich_core.Types.Matrix.{matrix_set}
use arnovich_core.Types.Matrix.Rows.{Table, Elements, Elements-cong, put, matrix_set-put}
use arnovich_core.Types.Variant.{int_of_size, variant_nil, variant_empty}
use arnovich_core.Python.{Interpreter, fill_row}

-- `f` in the first `e` columns of row i.
abbrev pub filled : {D : Type 0} → Table D → ℕ → (ℕ → Variant D) → ℕ → Table D
filled T i f e k l = if l == i && ltb k e then f k else T k l

one_more_filled :
    {D : Type 0} (T : Table D) (i : ℕ) (f : ℕ → Variant D) (j k l : ℕ)
    → put (filled T i f j) j i (f j) k l ≡ filled T i f (suc j) k l
one_more_filled T i f j k l = elim (Bool-cases (k == j)) [
  | inl e ↦ let p : k ≡ j = (==_iff k j).0 e in rw p (ground arith)
  | inr e ↦ ground arith
]

module _ {D : Type 0} (m : Matrix) (T : Table D) (i : ℕ) (f : ℕ → Variant D) (a : i < m.m_height)
    (body : ℕ → M D (Unit {0})) where
  -- A loop whose rounds set the elements of a row.
  fill_loop :
      (r j : ℕ) (h : Heap D)
      → ((k : ℕ) (g : Heap D) → j ≤ k → k < j + r → body k g ≡ matrix_set m k i (f k) g)
      → j + r ≤ m.m_width
      → Elements h m (filled T i f j)
      → (g : Heap D) × (for_range r j body h ≡ done (tt, g)) × Elements g m (filled T i f (j + r))
  unfolding for_range
  fill_loop zero j h same room e = (
    h,
    refl,
    Elements-cong m h (filled T i f j) (filled T i f (j + 0)) (λ k l x y. ground arith) e,
  )
  fill_loop (suc r) j h same room e =
      let (g, run, next) = matrix_set-put m h (filled T i f j) e j i (omega arith) a (f j) in
      let there =
        Elements-cong m g (put (filled T i f j) j i (f j)) (filled T i f (suc j))
          (λ k l x y. one_more_filled T i f j k l) next in
      let (g', run', last) =
        fill_loop r (suc j) g (λ k g2 x y. same k g2 (omega arith) (omega arith)) (omega arith)
          there in
      (
        g',
        rw (same j h (omega arith) (omega arith), run, run'),
        Elements-cong m g' (filled T i f (suc j + r)) (filled T i f (j + suc r))
            (λ k l x y. ground arith) last,
      )

pub size-small :
    {A : Type 0} (xs : List A) → length xs < 2 ^ 31 → int_of_size (length xs) ≡ pos (length xs)
unfolding int_of_size
size-small xs small = ground arith

get_elem?-past : {A : Type 0} (xs : List A) (k : ℕ) → length xs ≤ k → get_elem? xs k ≡ none
get_elem?-past [] k past = refl
get_elem?-past (x ∷ xs) zero past = absurd (omega arith)
get_elem?-past (x ∷ xs) (suc k) past = get_elem?-past xs k (omega arith)

module _ (F : Double) (py : Interpreter F) (s : py.Store) where
  -- The items of a row; what is no list is a row of one item.
  abbrev pub row_of : py.Object → List py.Object
  row_of o = if py.list_check o then py.list_items o s else o ∷ []

module _ (F : Double) (py : Interpreter F) (s : py.Store)
    (convert : py.Object → M F.D (Variant F.D)) (val : py.Object → Variant F.D) where
  abbrev pub value_of : Option py.Object → Variant F.D
  value_of none = Variant.empty
  value_of (some e) = val e

  -- Items that are converted to `val` of them and leave the heap as it is.
  abbrev pub Converts : List py.Object → Type 0
  Converts xs =
      (k : ℕ) (e : py.Object)
      → get_elem? xs k ≡ some e
      → (h : Heap F.D) → convert e h ≡ done (val e, h)

  module _ (m : Matrix) (T : Table F.D) (i : ℕ) (a : i < m.m_height) (items : List py.Object)
      (r : py.Object) (there : get_elem? items i ≡ some r) where
    fill_list :
        (xs : List py.Object) (h : Heap F.D)
        → py.list_check r ≡ true
        → py.list_items r s ≡ xs
        → Converts xs
        → length xs ≤ m.m_width
        → length xs < 2 ^ 31
        → Elements h m T
        → (g : Heap F.D) × (fill_row F py convert m (pos m.m_width) items s i h ≡ done (tt, g))
          × Elements g m (filled T i (λ k. value_of (get_elem? xs k)) m.m_width)
    unfolding fill_row variant_nil variant_empty
    fill_list xs h is_list same converts fits small e =
        let f : ℕ → Variant F.D = λ k. value_of (get_elem? xs k) in
        let n = length xs in
        let (g, run, e1) =
          fill_loop m T i f a
            (λ j. lift (access (get_elem? xs j)) >>= λ o. convert o >>= matrix_set m j i) n 0 h
            (λ k g x y. let (o, p) = get_elem?-of_lt xs k (omega arith) in rw (p, converts k o p g))
            (omega arith) (Elements-cong m h T (filled T i f 0) (λ k l x y. ground arith) e) in
        let (g', run', e2) =
          fill_loop m T i f a (λ k. matrix_set m k i Variant.empty) (m.m_width - n) n g
            (λ k g x y. rw (get_elem?-past xs k x)) (omega arith)
            (Elements-cong m g (filled T i f (0 + n)) (filled T i f n) (λ k l x y. ground arith)
              e1) in
        (
          g',
          rw (there, is_list, same, size-small xs small, run, run'),
          Elements-cong m g' (filled T i f (n + (m.m_width - n))) (filled T i f m.m_width)
              (λ k l x y. ground arith) e2,
        )

    fill_single :
        (h : Heap F.D)
        → py.list_check r ≡ false
        → Converts (r ∷ [])
        → 1 ≤ m.m_width
        → Elements h m T
        → (g : Heap F.D) × (fill_row F py convert m (pos m.m_width) items s i h ≡ done (tt, g))
          × Elements g m (filled T i (λ k. value_of (get_elem? (r ∷ []) k)) m.m_width)
    unfolding fill_row variant_nil variant_empty
    fill_single h no_list converts fits e =
        let f : ℕ → Variant F.D = λ k. value_of (get_elem? (r ∷ []) k) in
        let (g, run, e1) =
          matrix_set-put m h (filled T i f 0)
            (Elements-cong m h T (filled T i f 0) (λ k l x y. ground arith) e) 0 i (omega arith) a
            (f 0) in
        let (g', run', e2) =
          fill_loop m T i f a (λ k. matrix_set m k i Variant.empty) (m.m_width - 1) 1 g
            (λ k g x y. rw (get_elem?-past (r ∷ []) k x)) (omega arith)
            (Elements-cong m g (put (filled T i f 0) 0 i (f 0)) (filled T i f 1)
              (λ k l x y. one_more_filled T i f 0 k l) e1) in
        (
          g',
          rw (there, no_list, converts 0 r refl h, run, run'),
          Elements-cong m g' (filled T i f (1 + (m.m_width - 1))) (filled T i f m.m_width)
              (λ k l x y. ground arith) e2,
        )

    pub fill_row-filled :
        (h : Heap F.D)
        → Converts (row_of F py s r)
        → 1 ≤ m.m_width
        → length (row_of F py s r) ≤ m.m_width
        → length (row_of F py s r) < 2 ^ 31
        → Elements h m T
        → (g : Heap F.D) × (fill_row F py convert m (pos m.m_width) items s i h ≡ done (tt, g))
          × Elements g m (filled T i (λ k. value_of (get_elem? (row_of F py s r) k)) m.m_width)
    fill_row-filled h converts some_column fits small e = elim (Bool-cases (py.list_check r)) [
      | inl b ↦
          let xs = py.list_items r s in
          rw b (fill_list xs h b refl (rw b at converts) (rw b at fits) (rw b at small) e)
      | inr b ↦ rw b (fill_single h b (rw b at converts) some_column e)
    ]

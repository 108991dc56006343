-- ===== src/Python/Table.antt =====
-- core_python_py_to_matrix (src/lib/core_python/core_python.c) of a list: the size and the elements of
-- the matrix.
use arnovich_core.Base.{
  ℕ, zero, suc, ◌+◌, ◌*◌, ◌%◌, ◌^◌, ◌≤◌, ◌<◌, ◌≡◌, refl, ap, ◌∙◌, inl, inr, Bool, true, false,
  Option, none, some, List, [], ◌∷◌, arith, ltb, ◌==◌, ==_iff, if◌then◌else◌, Bool-cases, pos,
  ltb_ℤ, length, get_elem?, get_elem?-of_lt, done,
}
use arnovich_core.Types.Value.{Matrix, Variant}
use arnovich_core.Types.Double.{Double}
use arnovich_core.Types.Heap.{Heap, M, for_range}
use arnovich_core.Types.Matrix.{to_u32, u32}
use arnovich_core.Types.Matrix.Rows.{Table, Elements, Elements-cong}
use arnovich_core.Types.Matrix.Identity.{fresh, matrix_init-empty}
use arnovich_core.Python.{
  Interpreter, wider, width_loop, fill_row, py_to_matrix_with, py_to_variant, py_to_matrix,
}
use arnovich_core.Python.Rows.{filled, size-small, row_of, value_of, Converts, fill_row-filled}

module _ (F : Double) (py : Interpreter F) (s : py.Store) where
  -- The length of the longest row, or w if that is more.
  abbrev pub widest : List py.Object → ℕ → ℕ
  widest [] w = w
  widest (r ∷ rs) w =
      widest rs (if ltb w (length (row_of F py s r)) then length (row_of F py s r) else w)

  abbrev pub RowsFit : List py.Object → Type 0
  RowsFit rs = (l : ℕ) (r : py.Object) → get_elem? rs l ≡ some r → length (row_of F py s r) < 2 ^ 31

  wider-row :
      (w : ℕ) (r : py.Object)
      → 1 ≤ w
      → length (row_of F py s r) < 2 ^ 31
      → wider F py (pos w) r s
        ≡ pos (if ltb w (length (row_of F py s r)) then length (row_of F py s r) else w)
  wider-row w r some_column small = elim (Bool-cases (py.list_check r)) [
    | inl b ↦
        let n : length (py.list_items r s) < 2 ^ 31 = rw b at small in
        let c : ltb_ℤ (pos w) (pos (length (py.list_items r s)))
            ≡ ltb w (length (py.list_items r s)) =
          ground arith in
        rw (b, size-small (py.list_items r s) n, c)
          (choose (ltb w (length (py.list_items r s))) _ _)
    | inr b ↦ let c : ltb w 1 ≡ false = ground arith in rw (b, c)
  ]
    where
      choose : (c : Bool) (x y : ℕ) → (if c then pos x else pos y) ≡ pos (if c then x else y)
      choose true x y = refl
      choose false x y = refl

  width_loop-widest :
      (rs : List py.Object) (i w : ℕ) (items : List py.Object)
      → ((k : ℕ) → get_elem? items (i + k) ≡ get_elem? rs k)
      → 1 ≤ w
      → RowsFit rs
      → width_loop F py (length rs) i items (pos w) s ≡ done (pos (widest rs w))
  unfolding width_loop
  width_loop-widest [] i w items agree some_column fit = refl
  width_loop-widest (r ∷ rs) i w items agree some_column fit =
      let here : get_elem? items i ≡ some r =
        ap (get_elem? items) (let e : i ≡ i + 0 = omega arith in e) ∙ agree 0 in
      rw (here, wider-row w r some_column (fit 0 r refl))
        (width_loop-widest rs (suc i) _ items
          (λ k.
            ap (get_elem? items) (let e : suc i + k ≡ i + suc k = omega arith in e) ∙ agree (suc k))
          (ground arith) (λ l x e. fit (suc l) x e))

  widest-more : (rs : List py.Object) (w : ℕ) → w ≤ widest rs w
  widest-more [] w = omega arith
  widest-more (r ∷ rs) w =
      let more =
        widest-more rs (if ltb w (length (row_of F py s r)) then length (row_of F py s r) else w) in
      ground (arith, more)

  widest-row :
      (rs : List py.Object) (w l : ℕ) (r : py.Object)
      → get_elem? rs l ≡ some r
      → length (row_of F py s r) ≤ widest rs w
  widest-row [] w l r e = absurd (cc)
  widest-row (x ∷ rs) w zero r e =
      let more =
        widest-more rs (if ltb w (length (row_of F py s x)) then length (row_of F py s x) else w) in
      let p : some x ≡ some r = e in
      let q : length (row_of F py s x) ≡ length (row_of F py s r) =
        ap (λ z. length (row_of F py s z)) (cc) in
      ground (arith, more, q)
  widest-row (x ∷ rs) w (suc l) r e = widest-row rs _ l r e

  widest-small : (rs : List py.Object) (w : ℕ) → w < 2 ^ 31 → RowsFit rs → widest rs w < 2 ^ 31
  widest-small [] w small fit = small
  widest-small (r ∷ rs) w small fit =
      let n = fit 0 r refl in widest-small rs _ (ground (arith, n)) (λ l x e. fit (suc l) x e)

module _ (F : Double) (py : Interpreter F) (s : py.Store)
    (convert : py.Object → M F.D (Variant F.D)) (val : py.Object → Variant F.D)
    (items : List py.Object) where
  abbrev in_row : Option py.Object → ℕ → Variant F.D
  in_row none k = Variant.empty
  in_row (some r) k = value_of F py s convert val (get_elem? (row_of F py s r) k)

  -- Item k of row l, and EMPTY where the row is shorter.
  abbrev pub rows_table : Table F.D
  rows_table k l = in_row (get_elem? items l) k

  abbrev rows_before : ℕ → Table F.D
  rows_before i k l = if ltb l i then rows_table k l else Variant.empty

  -- The items of every row are converted to `val` of them.
  abbrev pub ConvertsAll : Type 0
  ConvertsAll =
      (l : ℕ) (r : py.Object)
      → get_elem? items l ≡ some r
      → Converts F py s convert val (row_of F py s r)

  one_more_row :
      (i w k l : ℕ) (r : py.Object)
      → get_elem? items i ≡ some r
      → k < w
      → filled
          (rows_before i)
          i
          (λ j. value_of F py s convert val (get_elem? (row_of F py s r) j))
          w
          k
          l
        ≡ rows_before (suc i) k l
  one_more_row i w k l r there inside = elim (Bool-cases (l == i)) [
    | inl e ↦
        let p : l ≡ i = (==_iff l i).0 e in
        let q : ltb k w ≡ true = ground arith in
        let c : ltb i (suc i) ≡ true = ground arith in
        let d : (i == i) ≡ true = ground arith in rw (p, q, c, d, there)
    | inr e ↦ let c : ltb l (suc i) ≡ ltb l i = ground arith in rw (e, c)
  ]

  module _ (m : Matrix) (wide : 1 ≤ m.m_width) (high : m.m_height ≡ length items)
      (rows : (l : ℕ) (r : py.Object)
        → get_elem? items l ≡ some r
        → length (row_of F py s r) ≤ m.m_width)
      (fit : RowsFit F py s items) (all : ConvertsAll) where
    rows_loop :
        (n i : ℕ) (h : Heap F.D)
        → i + n ≡ length items
        → Elements h m (rows_before i)
        → (g : Heap F.D) × (for_range n i (fill_row F py convert m (pos m.m_width) items s) h
            ≡ done (tt, g))
          × Elements g m rows_table
    unfolding for_range
    rows_loop zero i h e start = (
      h,
      refl,
      Elements-cong m h (rows_before i) rows_table
          (λ k l x y. let c : ltb l i ≡ true = ground arith in rw c) start,
    )
    rows_loop (suc n) i h e start =
        let (r, there) = get_elem?-of_lt items i (omega arith) in
        let (g, run, next) =
          fill_row-filled F py s convert val m (rows_before i) i (omega arith) items r there h
            (all i r there) wide (rows i r there) (fit i r there) start in
        let (g', run', last) = rows_loop n (suc i) g (omega arith) (
          Elements-cong m g _ (rows_before (suc i))
            (λ k l x y. one_more_row i m.m_width k l r there x) next) in
        (g', rw (run, run'), last)

  -- The matrix of a list whose items, and whose rows' items, are converted without a change of the heap.
  py_to_matrix_with-rows :
      (o : py.Object) (h : Heap F.D)
      → py.list_check o ≡ true
      → py.list_items o s ≡ items
      → ConvertsAll
      → RowsFit F py s items
      → length items < 2 ^ 31
      → widest F py s items 1 * length items ≤ u32
      → (g : Heap F.D) × (py_to_matrix_with F py convert s o h
          ≡ done (fresh h (widest F py s items 1) (length items), g))
        × Elements g (fresh h (widest F py s items 1) (length items)) rows_table
  unfolding py_to_matrix_with to_u32
  py_to_matrix_with-rows o h is_list same all fit small room =
      let w = widest F py s items 1 in
      let n = length items in
      let w_small : w < 2 ^ 31 = widest-small F py s items 1 (omega arith) fit in
      let (g, made, e) = matrix_init-empty h w n room in
      let m = fresh h w n in
      let (g', run, last) =
        rows_loop m (widest-more F py s items 1) refl (widest-row F py s items 1) fit all n 0 g
          (omega arith)
          (Elements-cong m g (λ i j. Variant.empty) (rows_before 0) (λ k l x y. ground arith) e) in
      let loop : width_loop F py n 0 items (pos 1) s ≡ done (pos w) =
        width_loop-widest F py s items 0 1 items
          (λ k. ap (get_elem? items) (let z : 0 + k ≡ k = omega arith in z)) (omega arith) fit in
      let p : w % u32 ≡ w = omega arith in
      let q : n % u32 ≡ n = omega arith in
      (g', rw (is_list, same, size-small items small, loop, p, q, made, run), last)

-- py_to_matrix of a list whose items, and whose rows' items, are converted by `val` without a change of
-- the heap returns a new well-formed matrix: a row for each item, as many columns as the longest row has
-- and one at least, item k of row l in column k of row l, and EMPTY behind the end of a shorter row. The
-- lengths are ints, and their product at most 2 ^ 32.
pub py_to_matrix-rows :
    (F : Double) (py : Interpreter F) (s : py.Store) (depth : ℕ) (val : py.Object → Variant F.D)
    (o : py.Object) (h : Heap F.D)
    → py.list_check o ≡ true
    → ConvertsAll F py s (λ e. py_to_variant F py depth s (some e)) val (py.list_items o s)
    → RowsFit F py s (py.list_items o s)
    → length (py.list_items o s) < 2 ^ 31
    → widest F py s (py.list_items o s) 1 * length (py.list_items o s) ≤ u32
    → (g : Heap F.D) × (py_to_matrix F py depth s o h
        ≡ done (fresh h (widest F py s (py.list_items o s) 1) (length (py.list_items o s)), g))
      × Elements g
          (fresh h (widest F py s (py.list_items o s) 1) (length (py.list_items o s)))
          (rows_table F py s (λ e. py_to_variant F py depth s (some e)) val (py.list_items o s))
unfolding py_to_matrix
py_to_matrix-rows F py s depth val o h is_list all fit small room =
    py_to_matrix_with-rows F py s (λ e. py_to_variant F py depth s (some e)) val (py.list_items o s)
      o h is_list refl all fit small room

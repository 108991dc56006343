-- ===== src/Types/Matrix/Identity.antt =====
-- matrix_init and matrix_identity (src/lib/core_types/core_types_matrix.c).
use arnovich_core.Base.{
  ℕ, zero, suc, ◌+◌, ◌*◌, ◌%◌, ◌^◌, ◌≤◌, ◌<◌, ◌≡◌, refl, ◌∙◌, ◌&&◌, some, List, [], ◌∷◌, ◌++◌,
  arith, ltb, lt→ltb, ◌==◌, if◌then◌else◌, pos, length, length-replicate, replicate, get_elem?,
  done,
}
use mathlib.Core.Path.{subst}
use arnovich_core.Types.Value.{Matrix, Variant}
use arnovich_core.Types.Heap.{values, Heap, malloc, for_range}
use arnovich_core.Types.Heap.Blocks.{block_at-append_last}
use arnovich_core.Types.Matrix.{
  matrix_get, matrix_set, matrix_init, matrix_identity, element_count, index, to_u32, u32,
}
use arnovich_core.Types.Matrix.Access.{MatrixAt, index-cell, load_values-MatrixAt}
use arnovich_core.Types.Matrix.Rows.{Table, Elements, Elements-cong, put, matrix_set-put}

element_count-product : (w h : ℕ) → w * h ≤ u32 → element_count w h ≡ w * h
unfolding element_count
element_count-product w h fits =
    let e : 32 * w * h ≡ 32 * (w * h) = omega arith in rw e (omega (arith, fits))

get_elem?-replicate : {A : Type 0} (n i : ℕ) (v : A) → i < n → get_elem? (replicate n v) i ≡ some v
get_elem?-replicate zero i v e = absurd (omega arith)
get_elem?-replicate (suc n) zero v e = refl
get_elem?-replicate (suc n) (suc i) v e = get_elem?-replicate n i v (omega arith)

-- A matrix that matrix_init makes.
abbrev pub fresh : {D : Type 0} → Heap D → ℕ → ℕ → Matrix
fresh h width height = record { m_values = length h; m_width = width; m_height = height }

-- matrix_init of a matrix that 2 ^ 32 elements hold gives a well-formed matrix of EMPTY elements.
pub matrix_init-empty :
    {D : Type 0} (h : Heap D) (width height : ℕ)
    → width * height ≤ u32
    → (g : Heap D) × (matrix_init width height h ≡ done (fresh h width height, g))
      × Elements g (fresh h width height) (λ i j. Variant.empty)
unfolding matrix_init malloc matrix_get
matrix_init-empty {D} h width height fits =
    let nothing : Variant D = Variant.empty in
    let vs : List (Variant D) = replicate (width * height) nothing in
    let g = h ++ some (values vs) ∷ [] in
    let m = fresh h width height in
    let at : MatrixAt g m vs = record {
      live = block_at-append_last h (values vs);
      size = length-replicate (width * height) nothing ∙ omega arith;
      fits = omega (arith, fits);
    } in
    (
      g,
      rw (element_count-product width height fits),
      record {
        vs = vs;
        at = at;
        get = λ i j x y.
            let (_, c) = index-cell g m vs at i j x y in
            let c' : index m i j < width * height =
              omega (arith, c, length-replicate (width * height) nothing) in
            rw (
              load_values-MatrixAt g m vs at,
              get_elem?-replicate (width * height) (index m i j) nothing c',
            );
      },
    )

-- The diagonal before column i.
abbrev diagonal_before : {D : Type 0} → ℕ → Table D
diagonal_before i k l = if k == l && ltb k i then Variant.int (pos 1) else Variant.empty

-- The identity: 1 on the diagonal, EMPTY elsewhere.
abbrev pub diagonal : {D : Type 0} → Table D
diagonal k l = if k == l then Variant.int (pos 1) else Variant.empty

one_more_diagonal :
    {D : Type 0} (i k l : ℕ)
    → put (diagonal_before {D = D} i) i i (Variant.int (pos 1)) k l ≡ diagonal_before (suc i) k l
one_more_diagonal i k l = ground arith

module _ {D : Type 0} (m : Matrix) (n : ℕ) (w : m.m_width ≡ n) (t : m.m_height ≡ n) where
  diagonal_loop :
      (r i : ℕ) (h : Heap D)
      → i + r ≡ n
      → Elements h m (diagonal_before i)
      → (g : Heap D) × (for_range r i (λ i. matrix_set m i i (Variant.int (pos 1))) h
          ≡ done (tt, g))
        × Elements g m (diagonal_before n)
  unfolding for_range
  diagonal_loop zero i h e s =
      (h, refl, subst (λ k. Elements h m (diagonal_before k)) (omega arith) s)
  diagonal_loop (suc r) i h e s =
      let (g, run, next) =
        matrix_set-put m h (diagonal_before i) s i i (omega (arith, w)) (omega (arith, t))
          (Variant.int (pos 1)) in
      let put_there =
        Elements-cong m g (put (diagonal_before i) i i (Variant.int (pos 1)))
          (diagonal_before (suc i)) (λ k l x y. one_more_diagonal i k l) next in
      let (g', run', last) = diagonal_loop r (suc i) g (omega arith) put_there in
      (g', rw (run, run'), last)

identity_run :
    {D : Type 0} (h g g' : Heap D) (m : Matrix) (n : ℕ)
    → n < 2 ^ 31
    → matrix_init n n h ≡ done (m, g)
    → for_range n 0 (λ i. matrix_set m i i (Variant.int (pos 1))) g ≡ done (tt, g')
    → matrix_identity (pos n) h ≡ done (m, g')
unfolding matrix_identity to_u32
identity_run h g g' m n int run run' = let p : n % u32 ≡ n = omega arith in rw (p, run, run')

-- matrix_identity of a dimension whose square is at most 2 ^ 32 returns a new well-formed matrix of that
-- dimension: the int 1 on its diagonal and EMPTY elsewhere.
pub matrix_identity-diagonal :
    {D : Type 0} (h : Heap D) (n : ℕ)
    → n * n ≤ u32
    → n < 2 ^ 31
    → (g : Heap D) × (matrix_identity (pos n) h ≡ done (fresh h n n, g))
      × Elements g (fresh h n n) diagonal
matrix_identity-diagonal h n fits int =
    let (g, run, e) = matrix_init-empty h n n fits in
    let m = fresh h n n in
    let start =
      Elements-cong m g (λ i j. Variant.empty) (diagonal_before 0) (λ k l x y. ground arith) e in
    let (g', run', last) = diagonal_loop m n refl refl n 0 g (omega arith) start in
    (
      g',
      identity_run h g g' m n int run run',
      Elements-cong m g' (diagonal_before n) diagonal (λ k l x y. rw (lt→ltb k n x) (ground arith))
          last,
    )

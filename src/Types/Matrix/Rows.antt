-- ===== src/Types/Matrix/Rows.antt =====
-- matrix_move_rows (src/lib/core_types/core_types_matrix.c).
use arnovich_core.Base.{
  ℕ, zero, suc, ◌+◌, ◌%◌, ◌^◌, ◌<◌, ◌≡◌, refl, ap, ◌∙◌, ◌≢◌, ◌⊎◌, inl, inr, true, false, Bool-cases,
  ◌&&◌, List, arith, ltb, lt→ltb, ◌==◌, if◌then◌else◌, pos, done,
}
use mathlib.Core.Path.{subst}
use arnovich_core.Types.Value.{Matrix, Variant}
use arnovich_core.Types.Heap.{Heap, for_range}
use arnovich_core.Types.Matrix.{
  matrix_get, matrix_set, swap_elements, matrix_move_rows, to_u32, u32,
}
use arnovich_core.Types.Matrix.Access.{MatrixAt, matrix_set-get}

-- The elements of a matrix by column and row.
abbrev pub Table : Type 0 → Type 0
Table D = ℕ → ℕ → Variant D

-- The matrix m is well formed, and its elements are those of f.
pub record Elements {D : Type 0} (h : Heap D) (m : Matrix) (f : Table D) : Type 0 where
  pub vs : List (Variant D)
  pub at : MatrixAt h m vs
  pub get : (i j : ℕ) → i < m.m_width → j < m.m_height → matrix_get m i j h ≡ done (f i j, h)

-- f with another element in column i and row j.
abbrev pub put : {D : Type 0} → Table D → ℕ → ℕ → Variant D → Table D
put f i j v k l = if k == i && l == j then v else f k l

apart : (k l i j : ℕ) → (k == i && l == j) ≡ false → (k ≢ i) ⊎ (l ≢ j)
apart k l i j t = elim (Bool-cases (k == i)) [
  | inl e ↦ inr (λ q. ground arith)
  | inr e ↦ inl (λ p. ground arith)
]

module _ {D : Type 0} (m : Matrix) where
  pub Elements-cong :
      (h : Heap D) (f g : Table D)
      → ((i j : ℕ) → i < m.m_width → j < m.m_height → f i j ≡ g i j)
      → Elements h m f
      → Elements h m g
  Elements-cong h f g same e = record {
    vs = e.vs;
    at = e.at;
    get = λ i j x y. e.get i j x y ∙ ap (λ v. done (v, h)) (same i j x y);
  }

  -- matrix_set on elements.
  pub matrix_set-put :
      (h : Heap D) (f : Table D)
      → Elements h m f
      → (i j : ℕ) → i < m.m_width
      → j < m.m_height
      → (v : Variant D)
      → (g : Heap D) × (matrix_set m i j v h ≡ done (tt, g)) × Elements g m (put f i j v)
  matrix_set-put h f e i j a b v =
      let (g, ws, run, at, new, old) = matrix_set-get h m e.vs e.at i j a b v in
      (
        g,
        run,
        record {
          vs = ws;
          at = at;
          get = λ k l x y. elim (Bool-cases (k == i && l == j)) [
            | inl t ↦
                let p : k ≡ i = ground arith in let q : l ≡ j = ground arith in rw (t, p, q) new
            | inr t ↦
                let other : (k ≢ i) ⊎ (l ≢ j) = apart k l i j t in
                let (u, before, after) = old k l x y other in
                let same : u ≡ f k l = cc (before, e.get k l x y) in
                rw t (after ∙ ap (λ v. done (v, g)) same)
          ];
        },
      )

-- The row that comes to be row l.
abbrev pub swapped : (r₁ r₂ l : ℕ) → ℕ
swapped r₁ r₂ l = if l == r₁ then r₂ else if l == r₂ then r₁ else l

-- f with the rows r₁ and r₂ exchanged in the columns before i.
abbrev swapped_before : {D : Type 0} → Table D → (r₁ r₂ i : ℕ) → Table D
swapped_before f r₁ r₂ i k l = if ltb k i then f k (swapped r₁ r₂ l) else f k l

-- The two assignments of a round, as they change the table.
one_more :
    {D : Type 0} (f : Table D) (r₁ r₂ i k l : ℕ)
    → put
        (put (swapped_before f r₁ r₂ i) i r₁ (swapped_before f r₁ r₂ i i r₂))
        i
        r₂
        (swapped_before f r₁ r₂ i i r₁)
        k
        l
      ≡ swapped_before f r₁ r₂ (suc i) k l
one_more f r₁ r₂ i k l = elim (Bool-cases (k == i)) [
  | inl e ↦
      let p : k ≡ i = ground arith in
      let q : ltb i (suc i) ≡ true = ground arith in
      let r : ltb i i ≡ false = ground arith in
      let z : (i == i) ≡ true = ground arith in rw (p, q, r, z) (rows l)
  | inr e ↦ let q : ltb k (suc i) ≡ ltb k i = ground arith in rw (e, q)
]
  where
    rows :
        (l : ℕ)
        → (if l == r₂ then f i r₁ else (if l == r₁ then f i r₂ else f i l)) ≡ f i (swapped r₁ r₂ l)
    rows l = elim (Bool-cases (l == r₂)) [
      | inl e ↦ elim (Bool-cases (l == r₁)) [
        | inl d ↦ let same : r₁ ≡ r₂ = ground arith in rw (e, d, same)
        | inr d ↦ rw (e, d)
      ]
      | inr e ↦ elim (Bool-cases (l == r₁)) [ inl d ↦ rw (e, d) | inr d ↦ rw (e, d) ]
    ]

module _ {D : Type 0} (m : Matrix) (f : Table D) (r₁ r₂ : ℕ) (a : r₁ < m.m_height)
    (b : r₂ < m.m_height) where
  -- One round exchanges the rows in one more column.
  swap_elements-swapped :
      (h : Heap D) (i : ℕ)
      → i < m.m_width
      → Elements h m (swapped_before f r₁ r₂ i)
      → (g : Heap D) × (swap_elements m r₁ r₂ i h ≡ done (tt, g))
        × Elements g m (swapped_before f r₁ r₂ (suc i))
  unfolding swap_elements
  swap_elements-swapped h i x e =
      let v = swapped_before f r₁ r₂ i i r₂ in
      let w = swapped_before f r₁ r₂ i i r₁ in
      let (g₁, run₁, e₁) = matrix_set-put m h (swapped_before f r₁ r₂ i) e i r₁ x a v in
      let (g₂, run₂, e₂) =
        matrix_set-put m g₁ (put (swapped_before f r₁ r₂ i) i r₁ v) e₁ i r₂ x b w in
      (
        g₂,
        rw (e.get i r₁ x a, e.get i r₂ x b, run₁, run₂),
        Elements-cong m g₂ (put (put (swapped_before f r₁ r₂ i) i r₁ v) i r₂ w)
            (swapped_before f r₁ r₂ (suc i)) (λ k l y z. one_more f r₁ r₂ i k l) e₂,
      )

  swap_loop :
      (n i : ℕ) (h : Heap D)
      → i + n ≡ m.m_width
      → Elements h m (swapped_before f r₁ r₂ i)
      → (g : Heap D) × (for_range n i (swap_elements m r₁ r₂) h ≡ done (tt, g))
        × Elements g m (swapped_before f r₁ r₂ m.m_width)
  unfolding for_range
  swap_loop zero i h e t =
      (h, refl, subst (λ n. Elements h m (swapped_before f r₁ r₂ n)) (omega arith) t)
  swap_loop (suc n) i h e t =
      let (g, run, t') = swap_elements-swapped h i (omega arith) t in
      let (g', run', t'') = swap_loop n (suc i) g (omega arith) t' in (g', rw (run, run'), t'')

  -- In a well-formed matrix, matrix_move_rows of two rows that are there returns, with the matrix well
  -- formed and the two rows exchanged; every other element is as before.
  pub matrix_move_rows-swapped :
      (h : Heap D)
      → Elements h m f
      → r₁ < 2 ^ 31
      → r₂ < 2 ^ 31
      → (g : Heap D) × (matrix_move_rows m (pos r₁) (pos r₂) h ≡ done (tt, g))
        × Elements g m (λ k l. f k (swapped r₁ r₂ l))
  unfolding matrix_move_rows to_u32
  matrix_move_rows-swapped h e int₁ int₂ =
      let p : r₁ % u32 ≡ r₁ = omega arith in
      let q : r₂ % u32 ≡ r₂ = omega arith in
      let (g, run, after) =
        swap_loop m.m_width 0 h (omega arith)
          (Elements-cong m h f (swapped_before f r₁ r₂ 0) (λ i j x y. ground arith) e) in
      (
        g,
        rw (p, q) run,
        Elements-cong m g (swapped_before f r₁ r₂ m.m_width) (λ k l. f k (swapped r₁ r₂ l))
            (λ i j x y. rw (lt→ltb i m.m_width x)) after,
      )

-- ===== src/Types/Matrix/Access.antt =====
-- The elements of a matrix: matrix_get and matrix_set (include/core_types/core_types_matrix.h).
use arnovich_core.Base.{
  ℕ, zero, suc, ◌+◌, ◌*◌, ◌%◌, ◌≤◌, ◌<◌, ◌≡◌, refl, sym, ap, ◌∙◌, ◌≢◌, ◌⊎◌, inl, inr, some, List,
  arith, lt→ltb, length, get_elem?, set, length-set, get_elem?-set_self, get_elem?-set_ne,
  get_elem?-of_lt, done,
}
use arnovich_core.Types.Value.{Matrix, Variant}
use arnovich_core.Types.Heap.{values, Heap, lift, load_values, store_values, as_values, block_at}
use arnovich_core.Types.Heap.Blocks.{set-live}
use arnovich_core.Types.Matrix.{matrix_get, matrix_set, index, u32}

-- The elements of m are vs, and their number is an unsigned int or one more than the largest.
pub record MatrixAt {D : Type 0} (h : Heap D) (m : Matrix) (vs : List (Variant D)) : Type 0 where
  pub live : block_at h m.m_values ≡ some (values vs)
  pub size : length vs ≡ m.m_height * m.m_width
  pub fits : m.m_height * m.m_width ≤ u32

pub cell-lt : (w h i j : ℕ) → i < w → j < h → j * w + i < h * w
cell-lt w zero i j a b = absurd (omega arith)
cell-lt w (suc h) i zero a b = omega arith
cell-lt w (suc h) i (suc j) a b = omega (arith, cell-lt w h i j a (omega arith))

pub cell-injective : (w i j k l : ℕ) → i < w → k < w → j * w + i ≡ l * w + k → (i ≡ k) × (j ≡ l)
cell-injective w i zero k zero a b e = (omega arith, refl)
cell-injective w i zero k (suc l) a b e = absurd (omega arith)
cell-injective w i (suc j) k zero a b e = absurd (omega arith)
cell-injective w i (suc j) k (suc l) a b e =
    let (p, q) = cell-injective w i j k l a b (omega arith) in (p, ap suc q)

module _ {D : Type 0} (h : Heap D) (m : Matrix) (vs : List (Variant D)) (at : MatrixAt h m vs) where
  -- No index of an element wraps around.
  pub index-cell :
      (i j : ℕ)
      → i < m.m_width
      → j < m.m_height
      → (index m i j ≡ j * m.m_width + i) × (index m i j < length vs)
  unfolding index
  index-cell i j a b =
      let c : j * m.m_width + i < m.m_height * m.m_width = cell-lt m.m_width m.m_height i j a b in
      let e : (j * m.m_width + i) % u32 ≡ j * m.m_width + i = ground (arith, at.fits) in
      (e, ground (arith, at.size))

  pub load_values-MatrixAt : load_values m.m_values h ≡ done (vs, h)
  unfolding load_values
  load_values-MatrixAt = ap (λ b. lift (as_values b) h) at.live

  matrix_get-element :
      (i j : ℕ)
      → i < m.m_width
      → j < m.m_height
      → (v : Variant D) × (get_elem? vs (index m i j) ≡ some v) × (matrix_get m i j h ≡ done (v, h))
  unfolding matrix_get
  matrix_get-element i j a b =
      let (v, e) = get_elem?-of_lt vs (index m i j) (index-cell i j a b).1 in
      (v, e, rw (load_values-MatrixAt, e))

-- matrix_set of an element that is in bounds returns, with the matrix well formed, the new value at
-- that element and at every other element in bounds the value that was there.
pub matrix_set-get :
    {D : Type 0} (h : Heap D) (m : Matrix) (vs : List (Variant D))
    → MatrixAt h m vs
    → (i j : ℕ) → i < m.m_width
    → j < m.m_height
    → (v : Variant D)
    → (g : Heap D) × (ws : List (Variant D)) × (matrix_set m i j v h ≡ done (tt, g))
      × MatrixAt g m ws
      × (matrix_get m i j g ≡ done (v, g))
      × ((k l : ℕ)
          → k < m.m_width
          → l < m.m_height
          → (k ≢ i) ⊎ (l ≢ j)
          → (u : Variant D) × (matrix_get m k l h ≡ done (u, h))
            × (matrix_get m k l g ≡ done (u, g)))
unfolding matrix_set store_values matrix_get
matrix_set-get h m vs at i j a b v =
    let (e, c) = index-cell h m vs at i j a b in
    let ws = set vs (index m i j) v in
    let g = set h m.m_values (some (values ws)) in
    let at_g : MatrixAt g m ws = record {
      live = set-live h m.m_values (values vs) (values ws) at.live;
      size = length-set vs (index m i j) v ∙ at.size;
      fits = at.fits;
    } in
    let loaded = load_values-MatrixAt g m ws at_g in
    (
      g,
      ws,
      rw (load_values-MatrixAt h m vs at, lt→ltb (index m i j) (length vs) c),
      at_g,
      rw (loaded, get_elem?-set_self vs (index m i j) v c),
      (λ k l x y other.
          let (u, elem, got) = matrix_get-element h m vs at k l x y in
          let apart : index m i j ≢ index m k l = λ same.
            let (p, q) =
              cell-injective m.m_width i j k l a x
                (sym e ∙ same ∙ (index-cell h m vs at k l x y).0) in
            elim other [ inl n ↦ n (sym p) | inr n ↦ n (sym q) ] in
          (u, got, rw (loaded, get_elem?-set_ne vs (index m i j) (index m k l) v apart, elem))),
    )

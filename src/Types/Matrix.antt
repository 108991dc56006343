-- ===== src/Types/Matrix.antt =====
-- src/lib/core_types/core_types_matrix.c and the accessors of include/core_types/core_types_matrix.h, as
-- they are compiled on LINUX64: there matrix_get and matrix_set are the macros with no bounds check.
-- Unsigned ints are numbers below 2 ^ 32, and the index is computed modulo 2 ^ 32.
pub mod Access
pub mod Rows
pub mod Identity
use arnovich_core.Base.{
  ℕ, zero, suc, ◌+◌, ◌-◌, ◌*◌, ◌/◌, ◌%◌, ◌^◌, ◌≤◌, ◌<◌, compare, Ordering, ◌≡◌, refl, sym, ap, ◌∙◌,
  ◌≢◌, ◌↔◌, ◌⊎◌, inl, inr, Bool, true, false, not, ◌&&◌, ◌||◌, Option, none, some, List, [], ◌∷◌,
  ◌++◌, map, append_assoc, append-nil, arith, ltb, leb, ◌==◌, if◌then◌else◌, ltb→lt, lt→ltb, le→ltb,
  ==_iff, ne→==, Bool-cases, ℤ, pos, negsuc, pos_part, neg_part, ◌+ℤ◌, ◌*ℤ◌, ltb_ℤ, leb_ℤ, eqb_ℤ,
  eq_of_eqb_ℤ, eqb_ℤ_refl, length, get_elem?, set, take, drop, replicate, length-append, length-set,
  length-take, length-drop, length-replicate, take-append-drop, take-all, get_elem?-set_self,
  get_elem?-set_ne, get_elem?-lt_length, get_elem?-of_lt, set-set, set-get_elem?,
  get_elem?-append_left, get_elem?-append_last, All, All-append, All-set, All-get_elem?, Outcome,
  done, fault, access,
}
use arnovich_core.Types.Value.{Matrix, Variant}
use arnovich_core.Types.Value
use arnovich_core.Types.Heap.{
  Block, chars, values, Heap, M, pure, undefined, and_then, ◌>>=◌, ◌>>◌, lift, malloc, free,
  load_values, store_values, for_range, all_range,
}

-- sizeof(variant)
abbrev pub variant_size : ℕ
variant_size = 32

abbrev pub u32 : ℕ
u32 = 2 ^ 32

-- The elements that sizeof(variant) * width * height bytes hold, the product being a size_t.
unfoldable pub element_count : ℕ → ℕ → ℕ
element_count width height = (variant_size * width * height) % 2 ^ 64 / variant_size

-- (j)*(m).m_width+(i)
unfoldable pub index : Matrix → ℕ → ℕ → ℕ
index m i j = (j * m.m_width + i) % u32

unfoldable pub in_bounds : Matrix → ℕ → ℕ → Bool
in_bounds m i j = ltb i m.m_width && ltb j m.m_height

-- The conversions of an int to unsigned int.
unfoldable pub to_u32 : ℤ → ℕ
to_u32 (pos n) = n % u32
to_u32 (negsuc n) = u32 - 1 - n % u32

-- The number of rounds of for(i = 0; i < n; ++i) with an int n.
abbrev pub rounds : ℤ → ℕ
rounds (pos n) = n
rounds (negsuc n) = 0

-- The smaller width is an int from here on; one past its range is negative and gives no round.
abbrev pub int_rounds : ℕ → ℕ
int_rounds n = if ltb n (2 ^ 31) then n else 0

module _ {D : Type 0} where
  -- All bytes 0: the tag is that of EMPTY.
  unfoldable pub matrix_init : ℕ → ℕ → M D Matrix
  matrix_init width height = do
    p ← malloc (values (replicate (element_count width height) Variant.empty))
    pure (record { m_values = p; m_width = width; m_height = height })

  -- The macro matrix_get.
  unfoldable pub matrix_get : Matrix → ℕ → ℕ → M D (Variant D)
  matrix_get m i j = do vs ← load_values m.m_values; lift (access (get_elem? vs (index m i j)))

  -- The macro matrix_set.
  unfoldable pub matrix_set : Matrix → ℕ → ℕ → Variant D → M D (Unit {0})
  matrix_set m i j v = do
    vs ← load_values m.m_values
    if ltb (index m i j) (length vs)
        then store_values m.m_values (set vs (index m i j) v)
        else undefined

  -- The functions _matrix_get and _matrix_set, which check bounds.
  unfoldable pub matrix_get_checked : Matrix → ℕ → ℕ → M D (Variant D)
  unfolding in_bounds
  matrix_get_checked m i j = if in_bounds m i j then matrix_get m i j else pure Variant.empty

  unfoldable pub matrix_set_checked : Matrix → ℕ → ℕ → Variant D → M D (Unit {0})
  unfolding in_bounds
  matrix_set_checked m i j v = if in_bounds m i j then matrix_set m i j v else pure tt

  -- memcpy of sizeof(variant) * width * height bytes
  copy_values : ℕ → List (Variant D) → List (Variant D) → Outcome (List (Variant D))
  copy_values n to from =
      if leb n (length from) && leb n (length to) then done (take n from ++ drop n to) else fault

  unfoldable pub matrix_copy : Matrix → M D Matrix
  unfolding copy_values
  matrix_copy m = do
    mm ← matrix_init m.m_width m.m_height
    from ← load_values m.m_values
    to ← load_values mm.m_values
    vs ← lift (copy_values (element_count m.m_width m.m_height) to from)
    store_values mm.m_values vs
    pure mm

  -- One element of matrix_swap, matrix_get_column and the others: to[i, j] = from[k, l].
  unfoldable pub copy_element : (to : Matrix) (i j : ℕ) (from : Matrix) (k l : ℕ) → M D (Unit {0})
  copy_element to i j from k l = do v ← matrix_get from k l; matrix_set to i j v

  unfoldable pub matrix_swap : Matrix → Matrix → M D (Unit {0})
  matrix_swap to from =
      if to.m_width == from.m_width && to.m_height == from.m_height
      then for_range to.m_width 0 (λ i. for_range to.m_height 0 (λ j. copy_element to i j from i j))
      else pure tt

  -- The assignments to the fields of the parameter are lost.
  unfoldable pub matrix_free : Matrix → M D (Unit {0})
  matrix_free m = free m.m_values

  -- `equal` is variant_equal.
  unfoldable pub matrix_compare_by : (Variant D → Variant D → M D Bool) → Matrix → Matrix → M D Bool
  matrix_compare_by equal a b =
      if a.m_width == b.m_width && a.m_height == b.m_height
      then all_range a.m_width 0 (λ i.
        all_range a.m_height 0 (λ j. do v ← matrix_get a i j; w ← matrix_get b i j; equal v w))
      else pure false

  unfoldable pub matrix_identity : ℤ → M D Matrix
  matrix_identity n = do
    m ← matrix_init (to_u32 n) (to_u32 n)
    for_range (rounds n) 0 (λ i. matrix_set m i i (Variant.int (pos 1)))
    pure m

  -- One round of matrix_move_rows.
  unfoldable pub swap_elements : Matrix → ℕ → ℕ → ℕ → M D (Unit {0})
  swap_elements m row1 row2 i = do
    tmp ← matrix_get m i row1
    v ← matrix_get m i row2
    matrix_set m i row1 v
    matrix_set m i row2 tmp

  unfoldable pub matrix_move_rows : Matrix → ℤ → ℤ → M D (Unit {0})
  matrix_move_rows m row1 row2 = for_range m.m_width 0 (swap_elements m (to_u32 row1) (to_u32 row2))

  unfoldable pub matrix_get_column : Matrix → ℕ → M D Matrix
  matrix_get_column m col = do
    c ← matrix_init 1 m.m_height
    if ltb col m.m_width then for_range m.m_height 0 (λ i. copy_element c 0 i m col i) else pure tt
    pure c

  unfoldable pub matrix_get_row : Matrix → ℕ → M D Matrix
  matrix_get_row m row = do
    c ← matrix_init m.m_width 1
    if ltb row m.m_height then for_range m.m_width 0 (λ i. copy_element c i 0 m i row) else pure tt
    pure c

  unfoldable pub matrix_replace_row : Matrix → ℤ → Matrix → ℤ → M D (Unit {0})
  matrix_replace_row a row1 b row2 =
      let n = if ltb b.m_width a.m_width then b.m_width else a.m_width in
      for_range (int_rounds n) 0 (λ i. copy_element a i (to_u32 row1) b i (to_u32 row2))

-- ===== src/Types/Value.antt =====
-- `struct core_types_variant` and `struct core_types_matrix`. Pointers are addresses of the heap of
-- Types/Heap.antt; 0 is NULL.
use arnovich_core.Base.{ℕ, ℤ}

-- `m_values` is a pointer; the sizes are unsigned ints.
pub record Matrix : Type 0 where
  pub m_values : ℕ
  pub m_width : ℕ
  pub m_height : ℕ

-- The tag and the member of the union that it selects. `text` and `error` hold `m_s` and `m_l`,
-- `function` the number of parameters, the function and its state.
pub data Variant (D : Type 0) : Type 0 where
  empty : Variant D
  bool : ℤ → Variant D
  int : ℤ → Variant D
  double : D → Variant D
  text : (m_s : ℕ) (m_l : ℤ) → Variant D
  matrix : Matrix → Variant D
  error : (m_s : ℕ) (m_l : ℤ) → Variant D
  function : (m_n : ℤ) (m_f m_a : ℕ) → Variant D

-- The values of the enumeration CORE_TYPES_VARIANT_TYPE.
unfoldable pub type_code : {D : Type 0} → Variant D → ℕ
type_code empty = 0
type_code (bool _) = 1
type_code (int _) = 2
type_code (double _) = 3
type_code (text _ _) = 4
type_code (matrix _) = 5
type_code (error _ _) = 6
type_code (function _ _ _) = 7

-- ===== src/Types/Wrapper.antt =====
-- The class `variant` of include/core_types/core_types_variant.hpp, which shares a C variant between its
-- objects and counts them. The counters that `new int` gives are a heap of their own; 0 is NULL.
pub mod ToString
pub mod Methods
pub mod Ownership
pub mod Counting
pub mod Releasing
pub mod Making
pub mod Assigning
pub mod Places
pub mod Runs
mod Examples
use arnovich_core.Base.{
  ℕ, ◌+◌, Bool, true, false, not, Option, none, some, List, [], ◌∷◌, ◌++◌, leb, ◌==◌, if◌then◌else◌,
  ℤ, pos, negsuc, ◌+ℤ◌, eqb_ℤ, length, get_elem?, set, Outcome, done, fault, access,
}
use arnovich_core.Base.CString.{cstring, terminated}
use arnovich_core.Types.Value.{Matrix, Variant}
use arnovich_core.Types.Double.{Double}
use arnovich_core.Types.Heap.{Heap, M}
use arnovich_core.Types.Heap as H
use arnovich_core.Types.Matrix.{matrix_init, matrix_get_checked, matrix_set_checked}
use arnovich_core.Types.Variant.{
  variant_free, variant_copy, variant_from_bool, variant_from_int, variant_from_double,
  variant_from_function, variant_from_string, variant_from_error, variant_matrix, variant_empty,
  variant_as_string, variant_as_error, variant_as_matrix, variant_as_bool, variant_as_int,
  variant_as_double, variant_params, variant_is_empty, variant_is_bool, variant_is_int,
  variant_is_double, variant_is_string, variant_is_matrix, variant_is_error, variant_is_function,
}
use arnovich_core.Types.Operators.{
  check_int, is_true, Functions, variant_call, variant_equal, variant_less, variant_and, variant_or,
  variant_add, variant_multiply,
}

-- An object of the class.
pub record Shared (D : Type 0) : Type 0 where
  pub m_count : ℕ
  pub m_v : Variant D

-- The constructors, but those from C values: what they are called with. A std::string is its bytes.
pub data Constructor (D : Type 0) : Type 0 where
  make_empty : Constructor D
  make_bool : Bool → Constructor D
  make_int : ℤ → Constructor D
  make_double : D → Constructor D
  make_string : List ℕ → Constructor D
  make_matrix : (rows cols : ℕ) → Constructor D
  make_function : (f a : ℕ) → ℤ → Constructor D

abbrev int_of_bool : Bool → ℤ
int_of_bool true = pos 1
int_of_bool false = pos 0

-- The counters and the heap of C.
pub record Memory (D : Type 0) : Type 0 where
  pub counters : List (Option ℤ)
  pub heap : Heap D

abbrev pub W : Type 0 → Type 0 → Type 0
W D A = Memory D → Outcome (A × Memory D)

module _ {D : Type 0} where
  abbrev pub pure : {A : Type 0} → A → W D A
  pure a m = done (a, m)

  abbrev and_then : {A B : Type 0} → Outcome (A × Memory D) → (A → W D B) → Outcome (B × Memory D)
  and_then (done (a, m)) f = f a m
  and_then fault f = fault

  infixl 5 ◌>>=◌ ◌>>◌
  abbrev pub ◌>>=◌ : {A B : Type 0} → W D A → (A → W D B) → W D B
  ◌>>=◌ m f s = and_then (m s) f

  abbrev pub ◌>>◌ : {A B : Type 0} → W D A → W D B → W D B
  ◌>>◌ m n s = and_then (m s) (λ _. n)

  abbrev pub run_c : {A : Type 0} → List (Option ℤ) → Outcome (A × Heap D) → Outcome (A × Memory D)
  run_c counters (done (a, h)) = done (a, record { counters = counters; heap = h })
  run_c counters fault = fault

  -- A function of the C interface.
  abbrev pub c : {A : Type 0} → M D A → W D A
  c f m = run_c m.counters (f m.heap)

  abbrev pub value : {A : Type 0} → Outcome A → W D A
  value (done a) m = done (a, m)
  value fault m = fault

  abbrev pub counter_at : Memory D → ℕ → Option ℤ
  counter_at m p = elim (get_elem? m.counters p) [ none ↦ none | some n ↦ n ]

  abbrev pub load_counter : ℕ → W D ℤ
  load_counter p m = value (access (counter_at m p)) m

  -- The counter at `p` is live.
  abbrev pub store_counter : ℕ → Option ℤ → W D (Unit {0})
  store_counter p n m = done (tt, record m { counters = set m.counters p n })

  -- m_count = new int; *m_count = 1;
  unfoldable pub counted : Variant D → W D (Shared D)
  counted v m = done (
    record { m_count = length m.counters; m_v = v },
    record m { counters = m.counters ++ some (pos 1) ∷ [] },
  )

  -- ++(*m_count), --(*m_count)
  unfoldable pub increment : ℕ → W D ℤ
  increment p = do
    n ← load_counter p
    n' ← value (check_int (n +ℤ pos 1))
    store_counter p (some n')
    pure n'

  unfoldable pub decrement : ℕ → W D ℤ
  decrement p = do
    n ← load_counter p
    n' ← value (check_int (n +ℤ negsuc 0))
    store_counter p (some n')
    pure n'

  unfoldable pub release : Shared D → W D (Unit {0})
  unfolding decrement
  release this = if this.m_count == 0 then pure tt else (do
    n ← decrement this.m_count
    if eqb_ℤ n (pos 0)
        then (do store_counter this.m_count none; c (variant_free this.m_v))
        else pure tt)

  unfoldable pub copy_constructor : Shared D → W D (Shared D)
  unfolding increment
  copy_constructor v = do increment v.m_count; pure (record { m_count = v.m_count; m_v = v.m_v })

  -- The object becomes the result.
  unfoldable pub assign : Shared D → Shared D → W D (Shared D)
  unfolding release increment
  assign this v = do
    release this
    increment v.m_count
    pure (record { m_count = v.m_count; m_v = v.m_v })

  unfoldable pub destructor : Shared D → W D (Unit {0})
  unfolding release
  destructor this = release this

  -- The initialiser of m_v.
  unfoldable pub initial : Constructor D → M D (Variant D)
  initial make_empty = H.pure variant_empty
  initial (make_bool b) = H.pure (variant_from_bool (int_of_bool b))
  initial (make_int i) = H.pure (variant_from_int i)
  initial (make_double d) = H.pure (variant_from_double d)
  initial (make_string s) = variant_from_string (cstring s)
  initial (make_matrix rows cols) =
      λ h. H.and_then (matrix_init cols rows h) (λ m. H.pure (variant_matrix m))
  initial (make_function f a n) = H.pure (variant_from_function f a n)

  -- The constructor from a C variant, which copies it.
  unfoldable pub from_c : Variant D → W D (Shared D)
  unfolding counted
  from_c v = c (variant_copy v) >>= counted

  -- The C variant that variant_from_error makes is copied, and nothing frees it.
  unfoldable pub from_error : List ℕ → W D (Shared D)
  unfolding from_c
  from_error s = c (variant_from_error (cstring s)) >>= from_c

  unfoldable pub construct : Constructor D → W D (Shared D)
  unfolding initial counted
  construct k = c (initial k) >>= counted

  abbrev as_matrix : Variant D → W D Matrix
  as_matrix v = c (variant_as_matrix v)

  -- In C++ matrix_get and matrix_set are the functions that check bounds.
  unfoldable pub get : Shared D → (row col : ℕ) → W D (Shared D)
  unfolding from_c copy_constructor
  get this row col =
      if variant_is_matrix this.m_v
      then (do m ← as_matrix this.m_v; v ← c (matrix_get_checked m col row); from_c v)
      else copy_constructor this

  unfoldable pub set_element : Shared D → (row col : ℕ) → Shared D → W D (Unit {0})
  set_element this row col v =
      if variant_is_matrix this.m_v
      then (do
        m ← as_matrix this.m_v
        old ← c (matrix_get_checked m col row)
        c (variant_free old)
        m' ← as_matrix this.m_v
        new ← c (variant_copy v.m_v)
        c (matrix_set_checked m' col row new))
      else pure tt

  abbrev height_of : Variant D → ℕ
  height_of (Variant.matrix m) = m.m_height
  height_of _ = 1

  abbrev width_of : Variant D → ℕ
  width_of (Variant.matrix m) = m.m_width
  width_of _ = 1

  unfoldable pub nrows : Shared D → ℕ
  nrows this = height_of this.m_v

  unfoldable pub ncols : Shared D → ℕ
  ncols this = width_of this.m_v

  unfoldable pub to_c : Shared D → W D (Variant D)
  to_c this = c (variant_copy this.m_v)

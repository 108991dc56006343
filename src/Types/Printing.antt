-- ===== src/Types/Printing.antt =====
-- variant_to_string and variant_to_string_ of src/lib/core_types/core_types_variant.c, matrix_to_string
-- of src/lib/core_types/core_types_matrix.c: strings in static buffers.
pub mod Cells
pub mod Writes
pub mod Bounds
pub mod Rendering
pub mod Nested
mod Examples
use arnovich_core.Base.{
  ℕ, zero, suc, ◌+◌, ◌-◌, ◌/◌, ◌%◌, Bool, List, [], ◌∷◌, ◌++◌, ltb, ◌==◌, if◌then◌else◌, ℤ, pos,
  negsuc, ltb_ℤ, eqb_ℤ, get_elem?, set, take, Outcome, done, fault, access, ◌>>=◌, ◌>>◌,
}
use arnovich_core.Base.CString.{strlen, strcpy, cstring}
use arnovich_core.Types.Value.{Matrix, Variant}
use arnovich_core.Types.Double.{Double}
use arnovich_core.Types.Heap.{Heap, load_chars}
use arnovich_core.Types.Matrix.{matrix_get}

-- STRING_LENGTH
abbrev pub string_length : ℕ
string_length = 1000

-- "ERROR: allocated more...", "#ERROR: ", "Function: ", " params", "TRUE" and "FALSE"
abbrev pub allocated_more : List ℕ
allocated_more =
    69 ∷ 82 ∷ 82 ∷ 79 ∷ 82 ∷ 58 ∷ 32 ∷ 97 ∷ 108 ∷ 108 ∷ 111 ∷ 99 ∷ 97 ∷ 116 ∷ 101 ∷ 100 ∷ 32 ∷ 109
    ∷ 111 ∷ 114 ∷ 101 ∷ 46 ∷ 46 ∷ 46 ∷ []

abbrev pub error_prefix : List ℕ
error_prefix = 35 ∷ 69 ∷ 82 ∷ 82 ∷ 79 ∷ 82 ∷ 58 ∷ 32 ∷ []

abbrev pub function_prefix : List ℕ
function_prefix = 70 ∷ 117 ∷ 110 ∷ 99 ∷ 116 ∷ 105 ∷ 111 ∷ 110 ∷ 58 ∷ 32 ∷ []

abbrev pub function_suffix : List ℕ
function_suffix = 32 ∷ 112 ∷ 97 ∷ 114 ∷ 97 ∷ 109 ∷ 115 ∷ []

abbrev pub true_text : List ℕ
true_text = 84 ∷ 82 ∷ 85 ∷ 69 ∷ []

abbrev pub false_text : List ℕ
false_text = 70 ∷ 65 ∷ 76 ∷ 83 ∷ 69 ∷ []

-- The last `count` digits, without zeros in front.
unfoldable pub decimal : (count : ℕ) → ℕ → List ℕ
decimal zero n = []
decimal (suc count) n =
    let rest = decimal count (n / 10) in
    if ltb n 10 then (48 + n) ∷ [] else rest ++ (48 + n % 10) ∷ []

-- What "%i" prints of an int, which has at most ten digits.
unfoldable pub print_int : ℤ → List ℕ
print_int (pos n) = decimal 10 n
print_int (negsuc n) = 45 ∷ decimal 10 (suc n)

-- The static variables: `str` of variant_to_string, `strs` and `n` for `str` and `n` of
-- matrix_to_string. A buffer is the string that it begins with; what follows is never read.
pub record Statics : Type 0 where
  pub str : List ℕ
  pub strs : List (List ℕ)
  pub n : ℕ

-- The pointer that is returned: to `str`, to str[k], to a literal, or to a string on the heap.
pub data Printed : Type 0 where
  in_variant : Printed
  in_matrix : ℕ → Printed
  literal : List ℕ → Printed
  on_heap : ℕ → Printed

-- sprintf(str, ...) of text that ends with a terminator.
abbrev pub print : List ℕ → Statics → Outcome (Printed × Statics)
print s st = do t ← strcpy string_length s; done (Printed.in_variant, record st { str = t })

-- strcat(str[k], s)
unfoldable pub cat : ℕ → List ℕ → Statics → Outcome Statics
cat k s st = do
  d ← access (get_elem? st.strs k)
  l ← strlen d
  t ← strcpy (string_length - l) s
  done (record st { strs = set st.strs k (take l d ++ t) })

abbrev pub next_n : ℕ → ℕ
next_n n = if n + 1 == 10 then 0 else n + 1

-- for(i = i₀; i < i₀ + n; ++i)
unfoldable pub for_text : ℕ → ℕ → (ℕ → Statics → Outcome Statics) → Statics → Outcome Statics
for_text zero i body st = done st
for_text (suc n) i body st = body i st >>= for_text n (suc i) body

-- C does not say whether `str[n]` or the call of variant_to_string, which can change n, is evaluated
-- first in strcat(str[n], variant_to_string(...)).
module _ (F : Double) (destination_first : Bool) where
  abbrev pub Printer : Type 0
  Printer = Heap F.D → Variant F.D → Statics → Outcome (Printed × Statics)

  -- strcat(str[k], p). To append a buffer to itself is undefined.
  unfoldable pub cat_printed : Heap F.D → ℕ → Printed → Statics → Outcome Statics
  unfolding cat
  cat_printed h k Printed.in_variant st = cat k st.str st
  cat_printed h k (Printed.in_matrix i) st =
      if i == k then fault else (access (get_elem? st.strs i) >>= λ s. cat k s st)
  cat_printed h k (Printed.literal s) st = cat k (cstring s) st
  cat_printed h k (Printed.on_heap p) st = do (s, _) ← load_chars p h; cat k s st

  unfoldable pub element : Printer → Heap F.D → Matrix → ℕ → ℕ → Statics → Outcome Statics
  unfolding cat_printed
  element variant_to_string h m i j st = do
    (v, _) ← matrix_get m j i h
    (p, st1) ← variant_to_string h v st
    st2 ← cat_printed h (if destination_first then st.n else st1.n) p st1
    cat st2.n (44 ∷ 0 ∷ []) st2

  unfoldable pub row : Printer → Heap F.D → Matrix → ℕ → Statics → Outcome Statics
  unfolding element
  row variant_to_string h m i st = do
    st1 ← cat st.n (91 ∷ 0 ∷ []) st
    st2 ← for_text m.m_width 0 (element variant_to_string h m i) st1
    cat st2.n (93 ∷ 0 ∷ []) st2

  -- ++n; if(n == 10) n = 0; strcpy(str[n], "[");
  abbrev pub start : Statics → Statics
  start st = record st { n = next_n st.n; strs = set st.strs (next_n st.n) (91 ∷ 0 ∷ []) }

  unfoldable pub matrix_to_string_by :
      Printer → Heap F.D → Matrix → Statics → Outcome (Printed × Statics)
  unfolding row
  matrix_to_string_by variant_to_string h m st = do
    st1 ← for_text m.m_height 0 (row variant_to_string h m) (start st)
    st2 ← cat st1.n (93 ∷ 0 ∷ []) st1
    done (Printed.in_matrix st2.n, st2)

  -- One call, with matrix_to_string for the case of a matrix.
  unfoldable pub variant_to_string_with :
      (Heap F.D → Matrix → Statics → Outcome (Printed × Statics)) → Printer
  variant_to_string_with matrix_to_string h Variant.empty st = print (0 ∷ []) st
  variant_to_string_with matrix_to_string h (Variant.bool b) st =
      print (cstring (if eqb_ℤ b (pos 0) then false_text else true_text)) st
  variant_to_string_with matrix_to_string h (Variant.int i) st = print (cstring (print_int i)) st
  variant_to_string_with matrix_to_string h (Variant.double d) st = print (cstring (F.print d)) st
  variant_to_string_with matrix_to_string h (Variant.text m_s m_l) st =
      if ltb_ℤ (pos string_length) m_l
      then done (Printed.literal allocated_more, st)
      else (do (s, _) ← load_chars m_s h; print s st)
  variant_to_string_with matrix_to_string h (Variant.error m_s m_l) st =
      if ltb_ℤ (pos string_length) m_l
      then done (Printed.literal allocated_more, st)
      else (do (s, _) ← load_chars m_s h; print (error_prefix ++ s) st)
  variant_to_string_with matrix_to_string h (Variant.matrix m) st = matrix_to_string h m st
  variant_to_string_with matrix_to_string h (Variant.function m_n _ _) st =
      print (cstring (function_prefix ++ print_int m_n ++ function_suffix)) st

  -- The two functions call each other through matrices of matrices; `depth` bounds the calls on the
  -- stack.
  unfoldable pub variant_to_string : (depth : ℕ) → Printer
  variant_to_string zero h v st = fault
  variant_to_string (suc depth) h v st =
      variant_to_string_with (matrix_to_string_by (variant_to_string depth)) h v st

  unfoldable pub matrix_to_string :
      (depth : ℕ) → Heap F.D → Matrix → Statics → Outcome (Printed × Statics)
  unfolding variant_to_string matrix_to_string_by
  matrix_to_string depth = matrix_to_string_by (variant_to_string depth)

  -- variant_to_string_
  unfoldable pub variant_to_string_own : (depth : ℕ) → Printer
  unfolding variant_to_string
  variant_to_string_own depth h (Variant.text m_s _) st = done (Printed.on_heap m_s, st)
  variant_to_string_own depth h Variant.empty st = variant_to_string depth h Variant.empty st
  variant_to_string_own depth h (Variant.bool b) st = variant_to_string depth h (Variant.bool b) st
  variant_to_string_own depth h (Variant.int i) st = variant_to_string depth h (Variant.int i) st
  variant_to_string_own depth h (Variant.double d) st =
      variant_to_string depth h (Variant.double d) st
  variant_to_string_own depth h (Variant.error m_s m_l) st =
      variant_to_string depth h (Variant.error m_s m_l) st
  variant_to_string_own depth h (Variant.matrix m) st =
      variant_to_string depth h (Variant.matrix m) st
  variant_to_string_own depth h (Variant.function m_n f a) st =
      variant_to_string depth h (Variant.function m_n f a) st

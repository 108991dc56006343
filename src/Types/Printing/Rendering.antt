-- ===== src/Types/Printing/Rendering.antt =====
-- The string that matrix_to_string (src/lib/core_types/core_types_matrix.c) makes of a matrix with no
-- matrices in it.
use arnovich_core.Base.{
  ℕ, suc, ◌+◌, ◌≤◌, ◌<◌, ◌≡◌, refl, sym, ap, ◌∙◌, ◌≢◌, inl, inr, Bool, true, false, some, List, [],
  ◌∷◌, ◌++◌, arith, ◌==◌, ==_iff, if◌then◌else◌, Bool-cases, length, get_elem?, get_elem?-set_self,
  get_elem?-set_ne, Outcome, done, fault, ◌>>=◌,
}
use arnovich_core.Base.CString.{cstring, IsText}
use arnovich_core.Types.Value.{Matrix, Variant}
use arnovich_core.Types.Double.{Double}
use arnovich_core.Types.Heap.{Heap}
use arnovich_core.Types.Matrix.{matrix_get}
use arnovich_core.Types.Printing.{
  string_length, Statics, Printed, cat, next_n, for_text, cat_printed, element, row, start,
  matrix_to_string_by, variant_to_string, matrix_to_string,
}
use arnovich_core.Types.Printing.Cells.{Shows, Shows-fits, variant_to_string-Shows}
use arnovich_core.Types.Printing.Writes.{
  Holds, Writes, cat-Writes, seq-Writes, texts, for_text-Writes,
}

-- "[" and then "[", the elements each with a comma, "]" for each row, and "]".
abbrev pub row_text : ℕ → (ℕ → List ℕ) → List ℕ
row_text width f = (91 ∷ []) ++ (texts width 0 (λ j. f j ++ 44 ∷ []) ++ 93 ∷ [])

abbrev pub matrix_text : (width height : ℕ) → (ℕ → ℕ → List ℕ) → List ℕ
matrix_text width height f = (91 ∷ []) ++ (texts height 0 (λ i. row_text width (f i)) ++ 93 ∷ [])

-- The element in row i and column j is shown as f i j.
abbrev pub ShowsAll : (F : Double) → Heap F.D → Matrix → (ℕ → ℕ → List ℕ) → Type 0
ShowsAll F h m f =
    (i j : ℕ)
    → i < m.m_height
    → j < m.m_width
    → (v : Variant F.D) × (matrix_get m j i h ≡ done (v, h)) × Shows F h v (f i j)

-- What Writes says depends on the values of the function only.
Writes-cong :
    (c d : Statics → Outcome Statics) (t : List ℕ)
    → ((st : Statics) → d st ≡ c st)
    → Writes c t
    → Writes d t
Writes-cong c d t same (text, w) = (
  text,
  (λ st s holds. (
    (λ room.
        let (st', e, holds', keeps) = (w st s holds).0 room in (st', same st ∙ e, holds', keeps)),
    (λ full. same st ∙ (w st s holds).1 full),
  )),
)

sign : (c : ℕ) → c ≢ 0 → Writes (λ st. cat st.n (c ∷ 0 ∷ []) st) (c ∷ [])
sign c e = cat-Writes (c ∷ []) (e, tt)

comma : Writes (λ st. cat st.n (44 ∷ 0 ∷ []) st) (44 ∷ [])
comma = sign 44 (λ e. omega arith)

opening : Writes (λ st. cat st.n (91 ∷ 0 ∷ []) st) (91 ∷ [])
opening = sign 91 (λ e. omega arith)

closing : Writes (λ st. cat st.n (93 ∷ 0 ∷ []) st) (93 ∷ [])
closing = sign 93 (λ e. omega arith)

-- The text goes through the buffer of variant_to_string.
through : List ℕ → Statics → Outcome Statics
through t st = cat st.n (cstring t) (record st { str = cstring t })

through-Writes : (t : List ℕ) → IsText t → Writes (through t) t
unfolding through
through-Writes t text =
    let (_, w) = cat-Writes t text in
    (text, (λ st s holds. w (record st { str = cstring t }) s holds))

if_same : (b : Bool) (n : ℕ) → (if b then n else n) ≡ n
if_same true n = refl
if_same false n = refl

element-Writes :
    (F : Double) (first : Bool) (depth : ℕ) (h : Heap F.D) (m : Matrix) (i j : ℕ) (v : Variant F.D)
    (t : List ℕ)
    → matrix_get m j i h ≡ done (v, h)
    → Shows F h v t
    → Writes (element F first (variant_to_string F first (suc depth)) h m i j) (t ++ 44 ∷ [])
unfolding element cat_printed through
element-Writes F first depth h m i j v t got shows =
    Writes-cong (λ st. through t st >>= λ st2. cat st2.n (44 ∷ 0 ∷ []) st2) _ (t ++ 44 ∷ [])
      (λ st. rw (got, variant_to_string-Shows F first depth h v t st shows, if_same first st.n))
      (seq-Writes (through t) (λ st2. cat st2.n (44 ∷ 0 ∷ []) st2) t (44 ∷ [])
        (through-Writes t (Shows-fits F h v t shows).0) comma)

row-Writes :
    (F : Double) (first : Bool) (depth : ℕ) (h : Heap F.D) (m : Matrix) (f : ℕ → ℕ → List ℕ)
    → ShowsAll F h m f
    → (i : ℕ) → i < m.m_height
    → Writes (row F first (variant_to_string F first (suc depth)) h m i) (row_text m.m_width (f i))
unfolding row
row-Writes F first depth h m f all i a =
    let body = element F first (variant_to_string F first (suc depth)) h m i in
    let close : Statics → Outcome Statics = λ st. cat st.n (93 ∷ 0 ∷ []) st in
    let inside : Writes (for_text m.m_width 0 body) (texts m.m_width 0 (λ j. f i j ++ 44 ∷ [])) =
      for_text-Writes m.m_width 0 body (λ j. f i j ++ 44 ∷ [])
        (λ j _ b.
          let (v, got, shows) = all i j a (omega arith) in
          element-Writes F first depth h m i j v (f i j) got shows) in
    seq-Writes (λ st. cat st.n (91 ∷ 0 ∷ []) st) (λ st. for_text m.m_width 0 body st >>= close)
      (91 ∷ []) (texts m.m_width 0 (λ j. f i j ++ 44 ∷ []) ++ 93 ∷ []) opening
      (seq-Writes (for_text m.m_width 0 body) close (texts m.m_width 0 (λ j. f i j ++ 44 ∷ []))
        (93 ∷ []) inside closing)

-- What follows the first bracket.
rest-Writes :
    (F : Double) (first : Bool) (depth : ℕ) (h : Heap F.D) (m : Matrix) (f : ℕ → ℕ → List ℕ)
    → ShowsAll F h m f
    → Writes
        (λ st.
          for_text m.m_height 0 (row F first (variant_to_string F first (suc depth)) h m) st
          >>= λ st1. cat st1.n (93 ∷ 0 ∷ []) st1)
        (texts m.m_height 0 (λ i. row_text m.m_width (f i)) ++ 93 ∷ [])
rest-Writes F first depth h m f all =
    let body = row F first (variant_to_string F first (suc depth)) h m in
    seq-Writes (for_text m.m_height 0 body) (λ st1. cat st1.n (93 ∷ 0 ∷ []) st1)
      (texts m.m_height 0 (λ i. row_text m.m_width (f i))) (93 ∷ [])
      (for_text-Writes m.m_height 0 body (λ i. row_text m.m_width (f i))
        (λ i _ b. row-Writes F first depth h m f all i (omega arith)))
      closing

-- The buffers before a call: ten, of which `n` is one.
abbrev pub IsValid : Statics → Type 0
IsValid st = (length st.strs ≡ 10) × (st.n < 10)

pub next_n-valid : (st : Statics) → IsValid st → next_n st.n < length st.strs
next_n-valid st (ten, e) = elim (Bool-cases (st.n + 1 == 10)) [
  | inl b ↦ rw b (omega arith)
  | inr b ↦ rw b (let other : st.n + 1 ≢ 10 = λ z. cc ((==_iff (st.n + 1) 10).1 z) in omega arith)
]

start-Holds :
    (F : Double) (first : Bool) (st : Statics) → IsValid st → Holds (start F first st) (91 ∷ [])
start-Holds F first st valid = (
  get_elem?-set_self st.strs (next_n st.n) (91 ∷ 0 ∷ []) (next_n-valid st valid),
  ((λ e. omega arith), tt),
  omega arith,
)

bind_assoc :
    {A B C : Type 0} (m : Outcome A) (f : A → Outcome B) (g : B → Outcome C)
    → (m >>= λ a. f a >>= g) ≡ ((m >>= f) >>= g)
bind_assoc (done a) f g = refl
bind_assoc fault f g = refl

returned : Statics → Outcome (Printed × Statics)
returned st = done (Printed.in_matrix st.n, st)

-- The whole function as what follows the first bracket.
matrix_to_string-rest :
    (F : Double) (first : Bool) (depth : ℕ) (h : Heap F.D) (m : Matrix) (st : Statics)
    → matrix_to_string F first (suc depth) h m st ≡ (
        (for_text m.m_height 0
            (row F first (variant_to_string F first (suc depth)) h m)
            (start F first st)
          >>= λ st1. cat st1.n (93 ∷ 0 ∷ []) st1)
        >>= returned)
unfolding matrix_to_string matrix_to_string_by returned
matrix_to_string-rest F first depth h m st =
    bind_assoc
      (for_text m.m_height 0 (row F first (variant_to_string F first (suc depth)) h m)
        (start F first st))
      (λ st1. cat st1.n (93 ∷ 0 ∷ []) st1) returned

-- What is returned is the current buffer.
returned-current :
    (o : Outcome Statics) (k : ℕ) (st' : Statics)
    → (o >>= returned) ≡ done (Printed.in_matrix k, st')
    → k ≡ st'.n
unfolding returned
returned-current (done st) k st' e =
    let q : st ≡ st' = cc e in let r : st.n ≡ k = cc e in sym r ∙ ap (λ t. t.n) q
returned-current fault k st' e = absurd (cc)

pub matrix_to_string-current :
    (F : Double) (first : Bool) (depth : ℕ) (h : Heap F.D) (m : Matrix) (st : Statics) (k : ℕ)
    (st' : Statics)
    → matrix_to_string F first (suc depth) h m st ≡ done (Printed.in_matrix k, st')
    → k ≡ st'.n
matrix_to_string-current F first depth h m st k st' e =
    returned-current _ k st' (sym (matrix_to_string-rest F first depth h m st) ∙ e)

-- A matrix whose elements are no matrices and are shown as f i j is rendered into the next of the ten
-- buffers, and the other nine stay as they are, if the rendering and its terminator fit into 1000
-- bytes; if they do not, the call writes past the buffer.
pub matrix_to_string-text :
    (F : Double) (first : Bool) (depth : ℕ) (h : Heap F.D) (m : Matrix) (f : ℕ → ℕ → List ℕ)
    (st : Statics)
    → IsValid st
    → ShowsAll F h m f
    → (length (matrix_text m.m_width m.m_height f) < string_length
        → (st' : Statics) × (matrix_to_string F first (suc depth) h m st
            ≡ done (Printed.in_matrix (next_n st.n), st'))
          × (get_elem? st'.strs (next_n st.n) ≡ some (cstring (matrix_text m.m_width m.m_height f)))
          × ((k : ℕ) → k ≢ next_n st.n → get_elem? st'.strs k ≡ get_elem? st.strs k))
      × (string_length ≤ length (matrix_text m.m_width m.m_height f)
          → matrix_to_string F first (suc depth) h m st ≡ fault)
unfolding returned
matrix_to_string-text F first depth h m f st valid all =
    let (text, w) = rest-Writes F first depth h m f all in
    let (fits, full) = w (start F first st) (91 ∷ []) (start-Holds F first st valid) in
    let whole = matrix_to_string-rest F first depth h m st in
    (
      (λ room.
          let (st', e, (at, _, _), (same, keeps)) = fits (omega arith) in
          (
            st',
            whole ∙ rw e (ap (λ n. done (Printed.in_matrix n, st')) same),
            rw same at at,
            (λ k other.
                keeps k other
                ∙ get_elem?-set_ne st.strs (next_n st.n) k (91 ∷ 0 ∷ []) (λ e. other (sym e))),
          )),
      (λ long. whole ∙ rw (full (omega arith))),
    )

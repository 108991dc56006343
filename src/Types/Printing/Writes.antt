-- ===== src/Types/Printing/Writes.antt =====
-- matrix_to_string (src/lib/core_types/core_types_matrix.c): the text that its loops append to a buffer.
use arnovich_core.Base.{
  ℕ, zero, suc, ◌+◌, ◌-◌, ◌≤◌, ◌<◌, ◌≡◌, refl, sym, ap, ◌∙◌, ◌≢◌, inl, inr, some, List, [], ◌∷◌,
  ◌++◌, append_assoc, append-nil, arith, ltb, Bool-cases, length, get_elem?, set, length-append,
  get_elem?-set_self, get_elem?-set_ne, get_elem?-lt_length, All-append, Outcome, done, fault,
  ◌>>=◌,
}
use arnovich_core.Base.CString.{strcpy, cstring, IsText}
use arnovich_core.Base.CString.Order.{strlen-text, strcpy-text, strcpy-long}
use arnovich_core.Types.Operators.Strings.{take-cstring}
use arnovich_core.Types.Printing.{string_length, Statics, cat, for_text}

-- The current buffer holds `s`.
abbrev pub Holds : Statics → List ℕ → Type 0
Holds st s = (get_elem? st.strs st.n ≡ some (cstring s)) × IsText s × (length s < string_length)

-- The other buffers are as they were.
abbrev pub Keeps : Statics → Statics → Type 0
Keeps st st' = (st'.n ≡ st.n) × ((k : ℕ) → k ≢ st.n → get_elem? st'.strs k ≡ get_elem? st.strs k)

-- Where the buffer holds `s`, it holds `s` and `t` afterwards, or there is a fault for want of room.
abbrev pub Appends : (Statics → Outcome Statics) → List ℕ → Statics → List ℕ → Type 0
Appends c t st s =
    (length s + length t < string_length
      → (st' : Statics) × (c st ≡ done st') × Holds st' (s ++ t) × Keeps st st')
    × (string_length ≤ length s + length t → c st ≡ fault)

abbrev pub Writes : (Statics → Outcome Statics) → List ℕ → Type 0
Writes c t = IsText t × ((st : Statics) (s : List ℕ) → Holds st s → Appends c t st s)

cat-Appends :
    (t : List ℕ) (st : Statics) (s : List ℕ)
    → IsText t
    → Holds st s
    → Appends (λ st. cat st.n (cstring t) st) t st s
unfolding cat
cat-Appends t st s text (at, s_text, short) = (
  (λ room.
      let copied : strcpy (string_length - length s) (cstring t) ≡ done (cstring t) =
        strcpy-text (string_length - length s) t [] text (omega arith) in
      (
        record st { strs = set st.strs st.n (s ++ cstring t) },
        rw (at, strlen-text s [] s_text, copied, take-cstring s),
        (
          get_elem?-set_self st.strs st.n (s ++ cstring t)
                (get_elem?-lt_length st.strs st.n (cstring s) at)
              ∙ ap some (sym (append_assoc s t (0 ∷ []))),
          All-append _ s t s_text text,
          omega (arith, length-append s t),
        ),
        (refl, (λ k other. get_elem?-set_ne st.strs st.n k (s ++ cstring t) (λ e. other (sym e)))),
      )),
  (λ full.
      let over : strcpy (string_length - length s) (cstring t) ≡ fault =
        strcpy-long (string_length - length s) t text (omega arith) in
      rw (at, strlen-text s [] s_text, over)),
)

pub cat-Writes : (t : List ℕ) → IsText t → Writes (λ st. cat st.n (cstring t) st) t
cat-Writes t text = (text, (λ st s holds. cat-Appends t st s text holds))

seq-room :
    (c d : Statics → Outcome Statics) (t u : List ℕ)
    → Writes c t
    → Writes d u
    → (st : Statics) (s : List ℕ) → Holds st s
    → length s + length (t ++ u) < string_length
    → (st' : Statics) × (c st >>= d ≡ done st') × Holds st' (s ++ (t ++ u)) × Keeps st st'
seq-room c d t u (_, w) (_, x) st s holds room =
    let n = length-append t u in
    let m = length-append s t in
    let (st1, e, holds1, (same1, keeps1)) = (w st s holds).0 (omega (arith, n)) in
    let (st2, f, holds2, (same2, keeps2)) = (x st1 (s ++ t) holds1).0 (omega (arith, n, m)) in
    (
      st2,
      rw (e, f),
      (rw (append_assoc s t u) at holds2),
      (same2 ∙ same1, (λ k other. keeps2 k (λ z. other (z ∙ same1)) ∙ keeps1 k other)),
    )

seq-full :
    (c d : Statics → Outcome Statics) (t u : List ℕ)
    → Writes c t
    → Writes d u
    → (st : Statics) (s : List ℕ) → Holds st s
    → string_length ≤ length s + length (t ++ u)
    → c st >>= d ≡ fault
seq-full c d t u (_, w) (_, x) st s holds full =
    elim (Bool-cases (ltb (length s + length t) string_length)) [
      | inl b ↦
          let (st1, e, holds1, keeps) = (w st s holds).0 (ground arith) in
          let m = length-append s t in
          let n = length-append t u in rw (e, (x st1 (s ++ t) holds1).1 (omega (arith, n, m)))
      | inr b ↦ rw ((w st s holds).1 (ground arith))
    ]

pub seq-Writes :
    (c d : Statics → Outcome Statics) (t u : List ℕ)
    → Writes c t
    → Writes d u
    → Writes (λ st. c st >>= d) (t ++ u)
seq-Writes c d t u w x = (
  All-append _ t u w.0 x.0,
  (λ st s holds. (seq-room c d t u w x st s holds, seq-full c d t u w x st s holds)),
)

pub done-Writes : Writes (λ st. done st) []
done-Writes = (
  tt,
  (λ st s holds. (
    (λ room. (st, refl, rw (append-nil s) holds, (refl, (λ k other. refl)))),
    (λ full. absurd (omega (arith, holds.2))),
  )),
)

-- The texts of the rounds of a loop, one behind the other.
abbrev pub texts : ℕ → ℕ → (ℕ → List ℕ) → List ℕ
texts zero i f = []
texts (suc n) i f = f i ++ texts n (suc i) f

pub for_text-Writes :
    (n i : ℕ) (body : ℕ → Statics → Outcome Statics) (f : ℕ → List ℕ)
    → ((k : ℕ) → i ≤ k → k < i + n → Writes (body k) (f k))
    → Writes (for_text n i body) (texts n i f)
unfolding for_text
for_text-Writes zero i body f w = done-Writes
for_text-Writes (suc n) i body f w =
    seq-Writes (body i) (for_text n (suc i) body) (f i) (texts n (suc i) f)
      (w i (omega arith) (omega arith))
      (for_text-Writes n (suc i) body f (λ k a b. w k (omega arith) (omega arith)))

-- ===== src/Types/Printing/Cells.antt =====
-- What variant_to_string (src/lib/core_types/core_types_variant.c) prints of a variant that is no matrix.
use arnovich_core.Base.{
  ℕ, zero, suc, ◌+◌, ◌/◌, ◌%◌, ◌≤◌, ◌<◌, ◌≡◌, refl, sym, ap, ◌∙◌, ◌≢◌, inl, inr, Bool, true, false,
  List, [], ◌∷◌, ◌++◌, arith, ltb, ◌==◌, ==_iff, if◌then◌else◌, Bool-cases, ℤ, pos, negsuc, ltb_ℤ,
  eqb_ℤ, length, length-append, All-append, done,
}
use arnovich_core.Base.CString.{cstring, IsText}
use arnovich_core.Base.CString.Order.{strcpy-text}
use arnovich_core.Types.Value.{Variant}
use arnovich_core.Types.Double.{Double}
use arnovich_core.Types.Heap.{Heap}
use arnovich_core.Types.Operators.Strings.{TextAt, load_chars-TextAt}
use arnovich_core.Types.Printing.{
  string_length, error_prefix, function_prefix, function_suffix, true_text, false_text, decimal,
  print_int, Statics, Printed, print, variant_to_string, variant_to_string_with,
}

-- The text of a variant that fits into the buffer: an independent description, with no matrices.
abbrev pub Shows : (F : Double) → Heap F.D → Variant F.D → List ℕ → Type 0
Shows F h Variant.empty t = t ≡ []
Shows F h (Variant.bool b) t = t ≡ (if eqb_ℤ b (pos 0) then false_text else true_text)
Shows F h (Variant.int i) t = t ≡ print_int i
Shows F h (Variant.double d) t = (t ≡ F.print d) × IsText t × (length t < string_length)
Shows F h (Variant.text p l) t = TextAt h p t × (l ≡ pos (length t)) × (length t < string_length)
Shows F h (Variant.error p l) t =
    (s : List ℕ) × TextAt h p s
    × (l ≡ pos (length s))
    × (length s + 8 < string_length)
    × (t ≡ error_prefix ++ s)
Shows F h (Variant.matrix m) t = ⊥
Shows F h (Variant.function n f a) t = t ≡ function_prefix ++ print_int n ++ function_suffix

digit : (n : ℕ) → 48 + n ≢ 0
digit n e = omega arith

minus_sign : ◌≢◌ {A = ℕ} 45 0
minus_sign e = omega arith

decimal-IsText : (k n : ℕ) → IsText (decimal k n)
unfolding decimal
decimal-IsText zero n = tt
decimal-IsText (suc k) n = elim (Bool-cases (ltb n 10)) [
  | inl e ↦ rw e (digit n, tt)
  | inr e ↦ rw e (
      All-append _ (decimal k (n / 10)) ((48 + n % 10) ∷ []) (decimal-IsText k (n / 10))
        (digit (n % 10), tt))
]

length-decimal : (k n : ℕ) → length (decimal k n) ≤ k
unfolding decimal
length-decimal zero n = omega arith
length-decimal (suc k) n = elim (Bool-cases (ltb n 10)) [
  | inl e ↦ rw e (omega arith)
  | inr e ↦
      rw (e, length-append (decimal k (n / 10)) ((48 + n % 10) ∷ []))
        (omega (arith, length-decimal k (n / 10)))
]

print_int-fits : (i : ℤ) → IsText (print_int i) × (length (print_int i) ≤ 11)
unfolding print_int
print_int-fits (pos n) = (decimal-IsText 10 n, omega (arith, length-decimal 10 n))
print_int-fits (negsuc n) =
    ((minus_sign, decimal-IsText 10 (suc n)), omega (arith, length-decimal 10 (suc n)))

no_zero : List ℕ → Bool
no_zero [] = true
no_zero (c ∷ s) = let rest = no_zero s in if c == 0 then false else rest

no_zero-IsText : (s : List ℕ) → no_zero s ≡ true → IsText s
unfolding no_zero
no_zero-IsText [] h = tt
no_zero-IsText (c ∷ s) h = elim (Bool-cases (c == 0)) [
  | inl e ↦ absurd (cc (rw e at h))
  | inr e ↦ ((λ z. cc ((==_iff c 0).1 z)), no_zero-IsText s (rw e at h))
]

literals :
    (no_zero error_prefix ≡ true)
    × (no_zero function_prefix ≡ true)
    × (no_zero function_suffix ≡ true)
    × (no_zero true_text ≡ true)
    × (no_zero false_text ≡ true)
unfolding no_zero
literals = (refl, refl, refl, refl, refl)

pub error_prefix-IsText : IsText error_prefix
error_prefix-IsText = no_zero-IsText error_prefix literals.0

function_prefix-IsText : IsText function_prefix
function_prefix-IsText = no_zero-IsText function_prefix literals.1

function_suffix-IsText : IsText function_suffix
function_suffix-IsText = no_zero-IsText function_suffix literals.2

bool-IsText :
    (b : Bool)
    → IsText (if b then false_text else true_text)
      × (length (if b then false_text else true_text) < string_length)
bool-IsText true = (no_zero-IsText false_text literals.4, omega arith)
bool-IsText false = (no_zero-IsText true_text literals.3, omega arith)

-- What is shown is a text that fits.
pub Shows-fits :
    (F : Double) (h : Heap F.D) (v : Variant F.D) (t : List ℕ)
    → Shows F h v t
    → IsText t × (length t < string_length)
Shows-fits F h Variant.empty t e = rw e (tt, omega arith)
Shows-fits F h (Variant.bool b) t e = rw e (bool-IsText (eqb_ℤ b (pos 0)))
Shows-fits F h (Variant.int i) t e =
    let (text, short) = print_int-fits i in rw e (text, omega arith)
Shows-fits F h (Variant.double d) t (_, text, short) = (text, short)
Shows-fits F h (Variant.text p l) t ((text, _), _, short) = (text, short)
Shows-fits F h (Variant.error p l) t (s, (text, _), _, short, e) = rw e (
  All-append _ error_prefix s error_prefix-IsText text,
  omega (arith, length-append error_prefix s),
)
Shows-fits F h (Variant.matrix m) t e = absurd e
Shows-fits F h (Variant.function n f a) t e =
    let (text, short) = print_int-fits n in
    rw e (
      All-append _ function_prefix (print_int n ++ function_suffix) function_prefix-IsText
          (All-append _ (print_int n) function_suffix text function_suffix-IsText),
      omega (arith, length-append (print_int n) function_suffix),
    )

pub print-fits :
    (t : List ℕ) (st : Statics)
    → IsText t
    → length t < string_length
    → print (cstring t) st ≡ done (Printed.in_variant, record st { str = cstring t })
print-fits t st text short = rw (strcpy-text string_length t [] text short)

-- What sprintf is given of such a variant.
given :
    (st : Statics) (u t : List ℕ)
    → t ≡ u
    → IsText t × (length t < string_length)
    → print (cstring u) st ≡ done (Printed.in_variant, record st { str = cstring t })
given st u t e (text, short) = ap (λ w. print (cstring w) st) (sym e) ∙ print-fits t st text short

-- The string of such a variant is left in the static buffer, and nothing else changes.
pub variant_to_string-Shows :
    (F : Double) (first : Bool) (depth : ℕ) (h : Heap F.D) (v : Variant F.D) (t : List ℕ)
    (st : Statics)
    → Shows F h v t
    → variant_to_string F first (suc depth) h v st
      ≡ done (Printed.in_variant, record st { str = cstring t })
unfolding variant_to_string variant_to_string_with
variant_to_string-Shows F first depth h Variant.empty t st e =
    given st [] t e (Shows-fits F h Variant.empty t e)
variant_to_string-Shows F first depth h (Variant.bool b) t st e =
    given st (if eqb_ℤ b (pos 0) then false_text else true_text) t e
      (Shows-fits F h (Variant.bool b) t e)
variant_to_string-Shows F first depth h (Variant.int i) t st e =
    given st (print_int i) t e (Shows-fits F h (Variant.int i) t e)
variant_to_string-Shows F first depth h (Variant.double d) t st (e, text, short) =
    given st (F.print d) t e (text, short)
variant_to_string-Shows F first depth h (Variant.text p l) t st (at, e, short) =
    let small : ltb_ℤ (pos string_length) (pos (length t)) ≡ false = ground arith in
    rw (e, small, load_chars-TextAt h p t at) (print-fits t st at.0 short)
variant_to_string-Shows F first depth h (Variant.error p l) t st (s, at, e, room, same) =
    let small : ltb_ℤ (pos string_length) (pos (length s)) ≡ false = ground arith in
    rw (e, small, load_chars-TextAt h p s at)
      (given st (error_prefix ++ s) t same
        (Shows-fits F h (Variant.error p l) t (s, at, e, room, same)))
variant_to_string-Shows F first depth h (Variant.matrix m) t st e = absurd e
variant_to_string-Shows F first depth h (Variant.function n f a) t st e =
    given st (function_prefix ++ print_int n ++ function_suffix) t e
      (Shows-fits F h (Variant.function n f a) t e)

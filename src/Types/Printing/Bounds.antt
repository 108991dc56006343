-- ===== src/Types/Printing/Bounds.antt =====
-- The guards of variant_to_string (src/lib/core_types/core_types_variant.c) on the lengths of strings.
use arnovich_core.Base.{
  ℕ, suc, ◌≡◌, inl, inr, Bool, true, false, List, ◌++◌, arith, ltb, if◌then◌else◌, Bool-cases,
  ltb→lt, pos, ltb_ℤ, length, All-append, Outcome, done, fault,
}
use arnovich_core.Base.CString.{cstring, IsText}
use arnovich_core.Base.CString.Order.{strcpy-long}
use arnovich_core.Types.Value.{Variant}
use arnovich_core.Types.Double.{Double}
use arnovich_core.Types.Heap.{Heap}
use arnovich_core.Types.Operators.Strings.{TextAt, load_chars-TextAt}
use arnovich_core.Types.Printing.{
  string_length, allocated_more, error_prefix, Statics, Printed, print, variant_to_string,
  variant_to_string_with,
}
use arnovich_core.Types.Printing.Cells.{print-fits, error_prefix-IsText}

-- The result that fits into the buffer, the literal past the guard, a fault in between.
abbrev pub guarded :
    (length_of_string : ℕ) (printed : List ℕ) → Statics → Outcome (Printed × Statics)
guarded l printed st =
    if ltb string_length l
    then done (Printed.literal allocated_more, st)
    else if ltb (length printed) string_length
    then done (Printed.in_variant, record st { str = cstring printed })
    else fault

print-room :
    (t : List ℕ) (st : Statics)
    → IsText t
    → print (cstring t) st ≡ (
        if ltb (length t) string_length
        then done (Printed.in_variant, record st { str = cstring t })
        else fault)
print-room t st text = elim (Bool-cases (ltb (length t) string_length)) [
  | inl e ↦ rw e (print-fits t st text (ltb→lt (length t) string_length e))
  | inr e ↦ rw (e, strcpy-long string_length t text (ground arith))
]

-- A string of 1000 bytes passes the guard and is written with its terminator past the buffer, and so
-- is an error of 992 to 1000 bytes; shorter ones are printed, and longer ones give the literal.
pub variant_to_string-guarded :
    (F : Double) (first : Bool) (depth : ℕ) (h : Heap F.D) (p : ℕ) (s : List ℕ) (st : Statics)
    → TextAt h p s
    → (variant_to_string F first (suc depth) h (Variant.text p (pos (length s))) st
        ≡ guarded (length s) s st)
      × (variant_to_string F first (suc depth) h (Variant.error p (pos (length s))) st
          ≡ guarded (length s) (error_prefix ++ s) st)
unfolding variant_to_string variant_to_string_with
variant_to_string-guarded F first depth h p s st at =
    elim (Bool-cases (ltb string_length (length s))) [
      | inl e ↦
          let long : ltb_ℤ (pos string_length) (pos (length s)) ≡ true = ground arith in
          (rw (e, long), rw (e, long))
      | inr e ↦
          let short : ltb_ℤ (pos string_length) (pos (length s)) ≡ false = ground arith in
          (
            rw (e, short, load_chars-TextAt h p s at) (print-room s st at.0),
            rw (e, short, load_chars-TextAt h p s at)
                (print-room (error_prefix ++ s) st
                  (All-append _ error_prefix s error_prefix-IsText at.0)),
          )
    ]

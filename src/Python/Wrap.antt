-- ===== src/Python/Wrap.antt =====
-- src/lib/core_python/core_python_wrap.c: functions on variants that Python calls.
use arnovich_core.Base.{
  ℕ, ◌-◌, Bool, true, false, ◌||◌, not, Option, none, some, List, [], ◌∷◌, ◌++◌, ltb, ◌==◌,
  if◌then◌else◌, ℤ, pos, eqb_ℤ, length, set, take, Outcome, done, fault, ◌>>=◌,
}
use arnovich_core.Base.CString.{strcpy, cstring, terminated}
use arnovich_core.Types.Value.{Variant}
use arnovich_core.Types.Double.{Double}
use arnovich_core.Types.Heap.{chars, Heap, M, load_chars}
use arnovich_core.Types.Variant.{int_of_size, variant_free}
use arnovich_core.Python.{Interpreter, py_to_variant}
use arnovich_core.Python.Objects.{variant_to_py}

-- strtok passes over delimiters
unfoldable pub skip_delimiters : (ℕ → Bool) → List ℕ → Outcome (List ℕ)
skip_delimiters delimiter [] = fault
skip_delimiters delimiter (c ∷ s) =
    if delimiter c then skip_delimiters delimiter s else done (c ∷ s)

-- and then over the token: the token, and what is behind the delimiter or from the terminator on.
unfoldable pub take_token : (ℕ → Bool) → List ℕ → Outcome (List ℕ × List ℕ)
take_token delimiter [] = fault
take_token delimiter (c ∷ s) =
    let rest = take_token delimiter s in
    if c == 0
    then done ([], 0 ∷ s)
    else if delimiter c
    then done ([], s)
    else (rest >>= λ (t, r). done (c ∷ t, r))

-- The token, what is behind it, and what the string reads as afterwards.
abbrev pub found : (s skipped : List ℕ) → List ℕ × List ℕ → Option (List ℕ × List ℕ × List ℕ)
found s skipped ([], r) = none
found s skipped (c ∷ t, r) = some (c ∷ t, r, take (length s - length skipped) s ++ cstring (c ∷ t))

unfoldable pub strtok_of : (ℕ → Bool) → List ℕ → Outcome (Option (List ℕ × List ℕ × List ℕ))
unfolding skip_delimiters take_token
strtok_of delimiter s = do
  r ← skip_delimiters delimiter s
  p ← take_token delimiter r
  done (found s r p)

-- ": " and ":"
abbrev pub colon_or_space : ℕ → Bool
colon_or_space c = c == b':' || c == b' '

abbrev pub colon : ℕ → Bool
colon c = c == b':'

-- The size of the static buffer `rtn` of each function.
abbrev pub rtn_size : ℕ
rtn_size = 50

abbrev type_of_token : List ℕ → Option (List ℕ × List ℕ × List ℕ) → Outcome (List ℕ × List ℕ)
type_of_token str none = done (0 ∷ [], str)
type_of_token str (some (p, _, str')) = do rtn ← strcpy rtn_size (cstring p); done (rtn, str')

-- The result, and what the string of the caller reads as afterwards.
unfoldable pub variant_error_type : List ℕ → Outcome (List ℕ × List ℕ)
unfolding strtok_of
variant_error_type str = strtok_of colon_or_space str >>= type_of_token str

-- p + strspn(p, " ")
abbrev pub after_spaces : List ℕ → List ℕ
after_spaces [] = []
after_spaces (c ∷ s) = if c == b' ' then after_spaces s else c ∷ s

abbrev msg_of_token : List ℕ → Option (List ℕ × List ℕ × List ℕ) → Outcome (List ℕ × List ℕ)
msg_of_token str none = done (0 ∷ [], str)
msg_of_token str (some (p, _, _)) = do
  rtn ← strcpy rtn_size (after_spaces (cstring p))
  done (rtn, str)

abbrev behind_type : List ℕ → Option (List ℕ × List ℕ × List ℕ) → Outcome (List ℕ × List ℕ)
behind_type str none = done (0 ∷ [], str)
behind_type str (some (_, rest, str')) = strtok_of colon rest >>= msg_of_token str'

unfoldable pub variant_error_msg : List ℕ → Outcome (List ℕ × List ℕ)
unfolding strtok_of
variant_error_msg str = strtok_of colon str >>= behind_type str

-- A py_error_function, where it is not NULL.
abbrev pub ErrorFunction : Type 0
ErrorFunction = Option (List ℕ → List ℕ → Bool)

-- err && err(variant_error_type(str), variant_error_msg(str)): C does not say which of the arguments
-- is evaluated first. Also what the string reads as afterwards.
unfoldable pub handles : (type_first : Bool) → ErrorFunction → List ℕ → Outcome (Bool × List ℕ)
unfolding variant_error_type variant_error_msg
handles type_first none str = done (false, str)
handles true (some err) str = do
  (name, str1) ← variant_error_type str
  (msg, str2) ← variant_error_msg str1
  done (err name msg, str2)
handles false (some err) str = do
  (msg, str1) ← variant_error_msg str
  (name, str2) ← variant_error_type str1
  done (err name msg, str2)

-- What python_wrap_function leaves to the interpreter: the error on the number of arguments, the error
-- with the text, the one that the error function has set, or an object.
pub data Wrapped (A : Type 0) : Type 0 where
  wrong_number : Wrapped A
  raised : List ℕ → Wrapped A
  handled : Wrapped A
  returned : Option A → Wrapped A

module _ (F : Double) (py : Interpreter F) (type_first : Bool) (depth : ℕ) where
  -- v1 to v5
  unfoldable pub convert_arguments :
      py.Store → List py.Object → Heap F.D → Outcome (List (Variant F.D) × Heap F.D)
  convert_arguments s [] h = done ([], h)
  convert_arguments s (o ∷ os) h = do
    (v, h1) ← py_to_variant F py depth s (some o) h
    (vs, h2) ← convert_arguments s os h1
    done (v ∷ vs, h2)

  unfoldable pub free_arguments : List (Variant F.D) → Heap F.D → Outcome (Heap F.D)
  free_arguments [] h = done h
  free_arguments (v ∷ vs) h = do (_, h1) ← variant_free v h; free_arguments vs h1

  -- The result of the function, as an error or as an object.
  unfoldable pub finish :
      ErrorFunction
      → Variant F.D
      → Heap F.D
      → py.Store
      → Outcome (Wrapped py.Object × Heap F.D × py.Store)
  unfolding handles
  finish err (Variant.error m_s m_l) h s = do
    (str, _) ← load_chars m_s h
    (ok, str1) ← handles type_first err str
    (_, h1) ← variant_free (Variant.error m_s m_l) (set h m_s (some (chars str1)))
    text ← terminated str1
    done (if ok then Wrapped.handled else Wrapped.raised text, h1, s)
  finish err rtn h s = do
    (o, s1) ← variant_to_py F py depth rtn h s
    (_, h1) ← variant_free rtn h
    done (Wrapped.returned o, h1, s1)

  abbrev pub WrappedFunction : Type 0
  WrappedFunction = List (Variant F.D) → M F.D (Variant F.D)

  -- The switch on the number of arguments, whose cases differ in that number only.
  unfoldable pub call_with :
      WrappedFunction
      → ErrorFunction
      → List py.Object
      → Heap F.D
      → py.Store
      → Outcome (Wrapped py.Object × Heap F.D × py.Store)
  unfolding convert_arguments free_arguments finish
  call_with function err os h s = do
    (vs, h1) ← convert_arguments s os h
    (rtn, h2) ← function vs h1
    h3 ← free_arguments vs h2
    finish err rtn h3 s

  -- `args` is NULL or a tuple. To format the error, PyTuple_Size is also called of NULL, which is no
  -- tuple. PyArg_ParseTuple takes five objects at most.
  unfoldable pub python_wrap_function :
      Option (List py.Object)
      → (nargs : ℤ) → WrappedFunction
      → ErrorFunction
      → Heap F.D
      → py.Store
      → Outcome (Wrapped py.Object × Heap F.D × py.Store)
  unfolding call_with
  python_wrap_function none nargs function err h s =
      if eqb_ℤ nargs (pos 0) then call_with function err [] h s else fault
  python_wrap_function (some os) nargs function err h s =
      if not (eqb_ℤ (int_of_size (length os)) nargs) || ltb 5 (length os)
      then done (Wrapped.wrong_number, h, s)
      else call_with function err os h s

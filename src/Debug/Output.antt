-- ===== src/Debug/Output.antt =====
-- Where the messages of src/lib/core_debug/core_debug.c go: the file and the function `debug`.
use arnovich_core.Base.{
  Bool, Option, none, some, List, ℕ, if◌then◌else◌, ℤ, Outcome, done, fault, ◌>>=◌,
}
use arnovich_core.Debug.{Debug, is_printed}

-- The static variables, `file` being core_debug_file; an open file is named by a number.
pub record Output : Type 0 where
  pub settings : Debug
  pub file : Option ℕ

-- fopen(file, "a"), whose answer is a parameter; a NULL for the name is undefined.
unfoldable pub set_core_debug_file :
    (fopen : List ℕ → Option ℕ) → Option (List ℕ) → Output → Outcome Output
set_core_debug_file fopen none o = fault
set_core_debug_file fopen (some name) o = done (record o { file = fopen name })

-- A file that is open is closed, and then a file with the name NULL is opened.
unfoldable pub unset_core_debug_file : (fopen : List ℕ → Option ℕ) → Output → Outcome Output
unfolding set_core_debug_file
unset_core_debug_file fopen o = elim (o.file) [
  | none ↦ done o
  | some f ↦ set_core_debug_file fopen none o
]

-- Where a message is written.
pub data Sink : Type 0 where
  nowhere : Sink
  standard_output : Sink
  in_file : ℕ → Sink

abbrev sink : Option ℕ → Sink
sink none = Sink.standard_output
sink (some f) = Sink.in_file f

-- A va_list is passed for the arguments behind `file` and `line`. That is undefined where the format
-- has a conversion for one, which is `more_arguments`.
unfoldable pub debug : ℤ → List ℕ → (more_arguments : Bool) → Output → Outcome (Sink × Output)
debug level core_debug_group more_arguments o = do
  (printed, d) ← is_printed level core_debug_group o.settings
  if printed
      then (if more_arguments then fault else done (sink o.file, record o { settings = d }))
      else done (Sink.nowhere, record o { settings = d })

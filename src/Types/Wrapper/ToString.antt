-- ===== src/Types/Wrapper/ToString.antt =====
-- to_string of the class `variant` (include/core_types/core_types_variant.hpp).
use arnovich_core.Base.{ℕ, Bool, List, get_elem?, Outcome, done, access, ◌>>=◌}
use arnovich_core.Base.CString.{terminated, cstring}
use arnovich_core.Types.Double.{Double}
use arnovich_core.Types.Heap.{Heap, load_chars}
use arnovich_core.Types.Printing.{Statics, Printed, variant_to_string_own}
use arnovich_core.Types.Wrapper.{Shared}

-- The bytes behind a pointer that variant_to_string_ returns.
unfoldable pub bytes_behind : {D : Type 0} → Heap D → Statics → Printed → Outcome (List ℕ)
bytes_behind h st Printed.in_variant = done st.str
bytes_behind h st (Printed.in_matrix k) = access (get_elem? st.strs k)
bytes_behind h st (Printed.literal s) = done (cstring s)
bytes_behind h st (Printed.on_heap p) = do (s, _) ← load_chars p h; done s

-- The std::string is a copy of the bytes up to the first 0.
unfoldable pub to_string :
    (F : Double) (destination_first : Bool) (depth : ℕ)
    → Shared F.D
    → Heap F.D
    → Statics
    → Outcome (List ℕ × Statics)
unfolding bytes_behind
to_string F destination_first depth this h st = do
  (p, st1) ← variant_to_string_own F destination_first depth h this.m_v st
  s ← bytes_behind h st1 p
  t ← terminated s
  done (t, st1)

-- ===== src/Base/CString.antt =====
-- The string functions of the C library, on buffers of bytes. Bytes are below 256, and a string
-- ends at the first 0. A function that reads past its buffer faults.
pub mod Order
pub mod Tokens
use arnovich_core.Base.Tests.{leb, ◌==◌, if◌then◌else◌}
use arnovich_core.Base.Fault.{Outcome, done, fault, ◌>>=◌}
use arnovich_core.Base.Lists.{length, All}
use Prim.Native.Nat.{ℕ, ◌+◌, compare, Ordering}
use mathlib.Core.Bool.{Bool, true, false}
use mathlib.Core.Logic.{◌≢◌}
use mathlib.Core.List.{List, [], ◌∷◌, ◌++◌}

-- strlen(s)
unfoldable pub strlen : List ℕ → Outcome ℕ
strlen [] = fault
strlen (c ∷ s) = if c == 0 then done 0 else (strlen s >>= λ n. done (n + 1))

-- The bytes that strcpy reads: up to the first 0, and with it.
unfoldable pub terminated : List ℕ → Outcome (List ℕ)
terminated [] = fault
terminated (c ∷ s) = if c == 0 then done (0 ∷ []) else (terminated s >>= λ t. done (c ∷ t))

-- strcpy into a buffer of `size` bytes: what the buffer begins with afterwards.
unfoldable pub strcpy : ℕ → List ℕ → Outcome (List ℕ)
unfolding terminated
strcpy size s = terminated s >>= λ t. if leb (length t) size then done t else fault

-- The sign of strcmp(a, b), which compares bytes as unsigned numbers.
unfoldable pub strcmp : List ℕ → List ℕ → Outcome Ordering
strcmp [] b = fault
strcmp (c ∷ a) [] = fault
strcmp (c ∷ a) (d ∷ b) =
    let rest = strcmp a b in
    elim (compare c d) [
      | Ordering.lt ↦ done Ordering.lt
      | Ordering.gt ↦ done Ordering.gt
      | Ordering.eq ↦ if c == 0 then done Ordering.eq else rest
    ]

-- strcmp(a, b) == 0
abbrev pub is_eq : Ordering → Bool
is_eq Ordering.lt = false
is_eq Ordering.eq = true
is_eq Ordering.gt = false

-- strcmp(a, b) < 0
abbrev pub is_lt : Ordering → Bool
is_lt Ordering.lt = true
is_lt Ordering.eq = false
is_lt Ordering.gt = false

-- The buffer of a string that holds the bytes `s`.
abbrev pub cstring : List ℕ → List ℕ
cstring s = s ++ 0 ∷ []

-- The bytes of a string are not 0.
abbrev pub IsText : List ℕ → Type 0
IsText s = All (λ c. c ≢ 0) s

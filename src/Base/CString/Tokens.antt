-- ===== src/Base/CString/Tokens.antt =====
-- strncpy, strncmp, strtok with the one delimiter `|`, and atoi of the C library.
use arnovich_core.Base.Tests.{ltb, leb, ◌==◌, if◌then◌else◌}
use arnovich_core.Base.Fault.{Outcome, done, fault, ◌>>=◌}
use arnovich_core.Base.Lists.{replicate}
use arnovich_core.Base.Int.{ℤ, pos, negsuc}
use Prim.Native.Nat.{ℕ, zero, suc, ◌+◌, ◌-◌, ◌*◌, ◌^◌}
use mathlib.Core.Bool.{Bool, true, false, ◌&&◌, ◌||◌}
use mathlib.Core.Option.{Option, none, some}
use mathlib.Core.List.{List, [], ◌∷◌}

-- The bytes that strncpy(_, s, n) writes: n of them, filled up with 0.
unfoldable pub strncpy : ℕ → List ℕ → Outcome (List ℕ)
strncpy zero s = done []
strncpy (suc n) [] = fault
strncpy (suc n) (c ∷ s) =
    let rest = strncpy n s in
    if c == 0 then done (0 ∷ replicate n 0) else (rest >>= λ t. done (c ∷ t))

-- !strncmp(a, b, n)
unfoldable pub strncmp_eq : ℕ → List ℕ → List ℕ → Outcome Bool
strncmp_eq zero a b = done true
strncmp_eq (suc n) [] b = fault
strncmp_eq (suc n) (c ∷ a) [] = fault
strncmp_eq (suc n) (c ∷ a) (d ∷ b) =
    let rest = strncmp_eq n a b in
    if c == d then (if c == 0 then done true else rest) else done false

abbrev pub bar : ℕ
bar = b'|'

-- strtok first passes over delimiters
unfoldable pub skip_bars : List ℕ → Outcome (List ℕ)
skip_bars [] = fault
skip_bars (c ∷ s) = if c == bar then skip_bars s else done (c ∷ s)

-- and then over the token, whose delimiter becomes its terminator: the token and what is behind it.
unfoldable pub read_token : List ℕ → Outcome (List ℕ × List ℕ)
read_token [] = fault
read_token (c ∷ s) =
    let rest = read_token s in
    if c == 0
    then done ([], 0 ∷ s)
    else if c == bar
    then done ([], s)
    else (rest >>= λ (t, r). done (c ∷ t, r))

abbrev pub token_of : List ℕ × List ℕ → Option (List ℕ × List ℕ)
token_of ([], r) = none
token_of (c ∷ t, r) = some (c ∷ t, r)

-- strtok(s, "|"), and strtok(NULL, "|") where `s` is what the last call left: `none` is NULL.
unfoldable pub strtok : List ℕ → Outcome (Option (List ℕ × List ℕ))
unfolding skip_bars read_token
strtok s = do r ← skip_bars s; p ← read_token r; done (token_of p)

abbrev is_space : ℕ → Bool
is_space c = c == b' ' || (leb 9 c && leb c 13)

digits : ℕ → List ℕ → Outcome ℕ
digits n [] = fault
digits n (c ∷ s) =
    let rest = digits (n * 10 + (c - b'0')) s in if leb b'0' c && leb c b'9' then rest else done n

-- The int of a magnitude; to pass its range is undefined.
abbrev signed : Bool → ℕ → Outcome ℤ
signed true zero = done (pos 0)
signed true (suc n) = if ltb n (2 ^ 31) then done (negsuc n) else fault
signed false n = if ltb n (2 ^ 31) then done (pos n) else fault

abbrev after_spaces : List ℕ → Outcome ℤ
after_spaces [] = fault
after_spaces (c ∷ s) =
    if c == b'-'
    then digits 0 s >>= signed true
    else if c == b'+'
    then digits 0 s >>= signed false
    else (digits 0 (c ∷ s) >>= signed false)

unfoldable pub atoi : List ℕ → Outcome ℤ
unfolding digits
atoi [] = fault
atoi (c ∷ s) = let rest = atoi s in if is_space c then rest else after_spaces (c ∷ s)

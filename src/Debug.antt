-- ===== src/Debug.antt =====
-- src/lib/core_debug/core_debug.c and the macro _DEBUG of include/core_debug/core_debug.h: which messages
-- are printed. The static variables and the environment are the record Debug.
pub mod Groups
pub mod Output
pub mod Python
mod Examples
use arnovich_core.Base.{
  ℕ, zero, suc, ◌-◌, Bool, true, false, Option, none, some, List, [], ◌∷◌, ◌++◌, ◌==◌,
  if◌then◌else◌, ℤ, negsuc, leb_ℤ, eqb_ℤ, length, take, drop, Outcome, done, ◌>>=◌,
}
use arnovich_core.Base.CString.{cstring}
use arnovich_core.Base.CString.Tokens.{strncpy, strncmp_eq, strtok, skip_bars, read_token, atoi}

-- DEBUG_UNDEFINED, DEBUG_GROUP_SIZE, DEBUG_GROUP_SET_SIZE, DEBUG_GROUP_ALL
abbrev pub debug_undefined : ℤ
debug_undefined = negsuc 0

abbrev pub debug_group_size : ℕ
debug_group_size = 30

abbrev pub debug_group_set_size : ℕ
debug_group_set_size = 5

-- "__ALL__"
abbrev pub debug_group_all : List ℕ
debug_group_all = cstring (95 ∷ 95 ∷ 65 ∷ 76 ∷ 76 ∷ 95 ∷ 95 ∷ [])

-- `level_env`, `group_env` and `group_set` are the static variables core_debug_level_env,
-- core_debug_group_env and core_debug_group_set; `level_text` and `group_text` are the environment
-- variables DEBUG_LEVEL and DEBUG_GROUP, `none` where they are not set.
pub record Debug : Type 0 where
  pub level_env : ℤ
  pub group_env : List (List ℕ)
  pub group_set : ℕ
  pub level_text : Option (List ℕ)
  pub group_text : Option (List ℕ)

abbrev read_level : Option (List ℕ) → ℤ → Outcome ℤ
read_level none level = done level
read_level (some s) level = atoi s

abbrev level_after : Debug → Outcome ℤ
level_after d =
    if eqb_ℤ d.level_env debug_undefined
    then read_level d.level_text d.level_env
    else done d.level_env

unfoldable pub get_core_debug_level_env : Debug → Outcome (ℤ × Debug)
get_core_debug_level_env d = do level ← level_after d; done (level, record d { level_env = level })

unfoldable pub set_core_debug_level_env : ℤ → Debug → Debug
set_core_debug_level_env level d = record d { level_env = level }

-- The loop over the tokens, `n` arrays being left: what it writes to them.
unfoldable pub group_loop : ℕ → List ℕ → Outcome (List (List ℕ))
unfolding strtok
group_loop zero rest = done []
group_loop (suc n) rest = strtok rest >>= λ p. elim p [
  | none ↦ done []
  | some (tok, rest') ↦ do
    g ← strncpy debug_group_size (cstring tok)
    gs ← group_loop n rest'
    done (g ∷ gs)
]

unfoldable pub set_core_debug_group_env : List ℕ → Debug → Outcome Debug
set_core_debug_group_env group d = do
  gs ← group_loop debug_group_set_size group
  done (record d { group_env = gs ++ drop (length gs) d.group_env; group_set = length gs })

-- What the string reads as once strtok has put a terminator behind its first token.
abbrev pub until_token : List ℕ → Outcome (List ℕ)
until_token s = do
  r ← skip_bars s
  (t, _) ← read_token r
  done (take (length s - length r) s ++ cstring t)

-- The groups of the environment variable, which strtok cuts.
abbrev pub read_groups : Option (List ℕ) → Debug → Outcome Debug
read_groups none d = done d
read_groups (some s) d = do
  d' ← set_core_debug_group_env s d
  s' ← until_token s
  done (record d' { group_text = some s' })

-- for(;i<core_debug_group_set;++i)
unfoldable pub any_group : List ℕ → ℕ → List (List ℕ) → Outcome Bool
any_group group zero gs = done false
any_group group (suc n) [] = Outcome.fault
any_group group (suc n) (g ∷ gs) =
    let rest = any_group group n gs in
    do same ← strncmp_eq debug_group_size g group; if same then done true else rest

abbrev group_answer : List ℕ → Debug → Outcome (Bool × Debug)
group_answer group d =
    if d.group_set == 0
    then done (true, d)
    else (any_group group d.group_set d.group_env >>= λ b. done (b, d))

unfoldable pub is_core_debug_group : List ℕ → Debug → Outcome (Bool × Debug)
is_core_debug_group group d =
    (if d.group_set == 0 then read_groups d.group_text d else done d) >>= group_answer group

-- The condition of the macro _DEBUG and of `debug`.
unfoldable pub is_printed : ℤ → List ℕ → Debug → Outcome (Bool × Debug)
unfolding get_core_debug_level_env is_core_debug_group
is_printed level core_debug_group d = do
  (env, d1) ← get_core_debug_level_env d
  if leb_ℤ level env
      then (do
        (all, d2) ← is_core_debug_group debug_group_all d1
        if all then done (true, d2) else is_core_debug_group core_debug_group d2)
      else done (false, d1)

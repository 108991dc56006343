-- ===== src/Debug/Python.antt =====
-- The functions of src/pylib/core_main.c that Python calls with variants: set_level, set_group and
-- do_debug. What do_debug prints is left out: its result here also says whether it prints.
use arnovich_core.Base.{ℕ, ◌≡◌, refl, Bool, false, List, if◌then◌else◌, Outcome, done, ◌>>=◌}
use arnovich_core.Types.Value.{Variant, type_code}
use arnovich_core.Types.Double.{Double}
use arnovich_core.Types.Heap.{Heap}
use arnovich_core.Types.Variant.{
  variant_is_int, variant_is_string, variant_as_int, variant_as_string, variant_from_error,
  variant_empty,
}
use arnovich_core.Debug.{
  Debug, set_core_debug_level_env, set_core_debug_group_env, group_loop, is_printed,
}

-- "Invalid debug level" and "Invalid debug group" are arguments.
module _ (F : Double) (invalid_level invalid_group core_debug_group : List ℕ) where
  -- The result, the heap and the variables of core_debug.c.
  abbrev pub Call : Type 0 → Type 0
  Call A = Heap F.D → Debug → Outcome (A × Heap F.D × Debug)

  unfoldable pub set_level : Variant F.D → Call (Variant F.D)
  set_level i h d =
      if variant_is_int i
      then (do
        level ← variant_as_int F i
        done (variant_empty, h, set_core_debug_level_env level d))
      else (do (v, h') ← variant_from_error invalid_level h; done (v, h', d))

  -- The test is not negated.
  unfoldable pub set_group : Variant F.D → Call (Variant F.D)
  set_group s h d =
      if variant_is_string s
      then (do (v, h') ← variant_from_error invalid_group h; done (v, h', d))
      else (do
        (group, h') ← variant_as_string s h
        d' ← set_core_debug_group_env group d
        done (variant_empty, h', d'))

  unfoldable pub do_debug : Variant F.D → Variant F.D → Call (Bool × Variant F.D)
  do_debug i s h d = do
    level ← variant_as_int F i
    (printed, d') ← is_printed level core_debug_group d
    done ((printed, variant_empty), h, d')

  -- What is not a string clears the groups, and a string is refused: no call sets a group.
  pub set_group-clears :
      (s : Variant F.D) (h : Heap F.D) (d : Debug)
      → variant_is_string s ≡ false
      → set_group s h d ≡ done (variant_empty, h, record d { group_set = 0 })
  unfolding set_group variant_is_string variant_as_string set_core_debug_group_env group_loop
      type_code
  set_group-clears (Variant.text p l) h d e = absurd (cc)
  set_group-clears Variant.empty h d e = refl
  set_group-clears (Variant.bool b) h d e = refl
  set_group-clears (Variant.int i) h d e = refl
  set_group-clears (Variant.double x) h d e = refl
  set_group-clears (Variant.matrix m) h d e = refl
  set_group-clears (Variant.error p l) h d e = refl
  set_group-clears (Variant.function n p a) h d e = refl

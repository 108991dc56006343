-- ===== src/Debug/Examples.antt =====
-- Runs of the debugging aids.
use arnovich_core.Base.{
  ℕ, ◌≡◌, refl, true, none, some, List, [], ◌∷◌, ◌&&◌, ◌||◌, arith, pos, negsuc, leb_ℤ, replicate,
  done,
}
use arnovich_core.Base.CString.{cstring}
use arnovich_core.Debug.{Debug, set_core_debug_level_env, set_core_debug_group_env, is_printed}
use arnovich_core.Debug.Groups.{groups, any_same, all_groups, is_printed-fields}

abbrev fresh : Debug
fresh = record {
  level_env = negsuc 0;
  group_env = replicate 5 (replicate 30 0);
  group_set = 0;
  level_text = none;
  group_text = some (cstring (65 ∷ 124 ∷ 66 ∷ []));
}

-- A||B
abbrev two_groups : List ℕ
two_groups = 65 ∷ 124 ∷ 124 ∷ 66 ∷ []

is_printed-fields_example :
    (d' : Debug) × (set_core_debug_group_env
        (cstring two_groups)
        (set_core_debug_level_env (pos 20) fresh)
      ≡ done d')
    × (is_printed (pos 5) (cstring (66 ∷ [])) d'
        ≡ done (
          leb_ℤ (pos 5) (pos 20)
              && (any_same all_groups (groups two_groups)
                  || any_same (66 ∷ []) (groups two_groups)),
          d',
        ))
is_printed-fields_example =
    is_printed-fields fresh (pos 20) two_groups refl (omega arith) (λ e. cc) (pos 5) (66 ∷ [])
      (omega arith)

printed_group : any_same (66 ∷ []) (groups two_groups) ≡ true
printed_group = refl

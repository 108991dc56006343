-- ===== src/Debug/Groups.antt =====
-- The groups of src/lib/core_debug/core_debug.c: a string of them is its fields between bars, of which
-- the first five count, by their first 30 bytes.
use arnovich_core.Base.{
  ℕ, zero, suc, ◌≡◌, refl, ap, ◌∙◌, ◌≢◌, ◌⊎◌, inl, inr, Bool, true, false, ◌&&◌, ◌||◌, some, none,
  List, [], ◌∷◌, ◌++◌, map, arith, ◌==◌, if◌then◌else◌, Bool-cases, ℤ, leb_ℤ, eqb_ℤ, length, take,
  drop, replicate, All, done,
}
use arnovich_core.Base.CString.{cstring, IsText}
use arnovich_core.Base.CString.Tokens.{strncpy, strncmp_eq, bar, skip_bars, read_token, strtok}
use arnovich_core.Debug.{
  Debug, debug_undefined, debug_group_size, debug_group_set_size, set_core_debug_level_env,
  group_loop, set_core_debug_group_env, any_group, is_core_debug_group, is_printed,
}

-- Up to the first bar.
abbrev pub piece : List ℕ → List ℕ
piece [] = []
piece (c ∷ s) = if c == bar then [] else c ∷ piece s

abbrev pub add_field : List ℕ → List (List ℕ) → List (List ℕ)
add_field [] fs = fs
add_field (c ∷ f) fs = (c ∷ f) ∷ fs

-- The fields behind the first bar.
abbrev pub other_fields : List ℕ → List (List ℕ)
other_fields [] = []
other_fields (c ∷ s) =
    let later = add_field (piece s) (other_fields s) in
    let same = other_fields s in if c == bar then later else same

-- The pieces between bars that are not empty.
abbrev pub fields : List ℕ → List (List ℕ)
fields s = add_field (piece s) (other_fields s)

abbrev behind : List ℕ → List ℕ
behind [] = []
behind (c ∷ s) = if c == bar then s else behind s

piece-IsText : (s : List ℕ) → IsText s → IsText (piece s)
piece-IsText [] h = tt
piece-IsText (c ∷ s) h = elim (Bool-cases (c == bar)) [
  | inl e ↦ rw e tt
  | inr e ↦ rw e (h.0, piece-IsText s h.1)
]

behind-IsText : (s : List ℕ) → IsText s → IsText (behind s)
behind-IsText [] h = tt
behind-IsText (c ∷ s) h = elim (Bool-cases (c == bar)) [
  | inl e ↦ rw e h.1
  | inr e ↦ rw e (behind-IsText s h.1)
]

other_fields-behind : (s : List ℕ) → other_fields s ≡ fields (behind s)
other_fields-behind [] = refl
other_fields-behind (c ∷ s) = elim (Bool-cases (c == bar)) [
  | inl e ↦ rw e
  | inr e ↦ rw e (other_fields-behind s)
]

read_token-piece :
    (s : List ℕ) → IsText s → read_token (cstring s) ≡ done (piece s, cstring (behind s))
unfolding read_token
read_token-piece [] h = refl
read_token-piece (c ∷ s) h = ground (arith, h.0, read_token-piece s h.1)

-- strtok gives the first field, and leaves a string with the others.
strtok-fields :
    (s : List ℕ)
    → IsText s
    → ((fields s ≡ []) × (strtok (cstring s) ≡ done none))
      ⊎ ((f r : List ℕ) × IsText f
          × IsText r
          × (fields s ≡ f ∷ fields r)
          × (strtok (cstring s) ≡ done (some (f, cstring r))))
unfolding strtok skip_bars
strtok-fields [] h = inl (refl, refl)
strtok-fields (c ∷ s) h = elim (Bool-cases (c == bar)) [
  | inl e ↦ rw e (strtok-fields s h.1)
  | inr e ↦
      let token = read_token-piece (c ∷ s) h in
      let found : piece (c ∷ s) ≡ c ∷ piece s = rw e in
      inr (
        c ∷ piece s,
        behind (c ∷ s),
        (h.0, piece-IsText s h.1),
        behind-IsText (c ∷ s) h,
        (ap (λ p. add_field p (other_fields (c ∷ s))) found
            ∙ ap (λ fs. (c ∷ piece s) ∷ fs) (other_fields-behind (c ∷ s))),
        rw e (rw token (rw found (rw e))),
      )
]

-- The array that strncpy fills.
abbrev pub padded : ℕ → List ℕ → List ℕ
padded zero f = []
padded (suc n) [] = 0 ∷ replicate n 0
padded (suc n) (c ∷ f) = c ∷ padded n f

strncpy-padded : (n : ℕ) (f : List ℕ) → IsText f → strncpy n (cstring f) ≡ done (padded n f)
unfolding strncpy
strncpy-padded zero f h = refl
strncpy-padded (suc n) [] h = refl
strncpy-padded (suc n) (c ∷ f) h = ground (arith, h.0, strncpy-padded n f h.1)

abbrev pub same : List ℕ → List ℕ → Bool
same [] [] = true
same [] (d ∷ b) = false
same (c ∷ a) [] = false
same (c ∷ a) (d ∷ b) = c == d && same a b

strncmp_eq-padded :
    (n : ℕ) (f g : List ℕ)
    → IsText f
    → IsText g
    → strncmp_eq n (padded n f) (cstring g) ≡ done (same (take n f) (take n g))
unfolding strncmp_eq
strncmp_eq-padded zero f g h k = refl
strncmp_eq-padded (suc n) [] [] h k = refl
strncmp_eq-padded (suc n) [] (d ∷ g) h k = ground (arith, k.0)
strncmp_eq-padded (suc n) (c ∷ f) [] h k = ground (arith, h.0)
strncmp_eq-padded (suc n) (c ∷ f) (d ∷ g) h k =
    ground (arith, h.0, k.0, strncmp_eq-padded n f g h.1 k.1)

abbrev store_field : List ℕ → List ℕ
store_field = padded debug_group_size

group_loop-fields :
    (n : ℕ) (s : List ℕ)
    → IsText s
    → (group_loop n (cstring s) ≡ done (map store_field (take n (fields s))))
      × All IsText (take n (fields s))
unfolding group_loop
group_loop-fields zero s h = (refl, tt)
group_loop-fields (suc n) s h = elim (strtok-fields s h) [
  | inl (empty, e) ↦ rw (e, empty) (refl, tt)
  | inr (f, r, hf, hr, more, e) ↦
      let (ih, texts) = group_loop-fields n r hr in
      rw (e, more) (rw (strncpy-padded debug_group_size f hf) (rw ih refl, (hf, texts)))
]

-- One of the fields has the first 30 bytes of the name.
abbrev pub any_same : List ℕ → List (List ℕ) → Bool
any_same name [] = false
any_same name (f ∷ fs) =
    same (take debug_group_size f) (take debug_group_size name) || any_same name fs

any_group-fields :
    (name : List ℕ) (fs rest : List (List ℕ))
    → IsText name
    → All IsText fs
    → any_group (cstring name) (length fs) (map store_field fs ++ rest) ≡ done (any_same name fs)
unfolding any_group
any_group-fields name [] rest h k = refl
any_group-fields name (f ∷ fs) rest h k = rw (strncmp_eq-padded debug_group_size f name k.0 h) (
    rw (any_group-fields name fs rest h k.1)
      (elim (Bool-cases (same (take debug_group_size f) (take debug_group_size name))) [
        | inl e ↦ rw e refl
        | inr e ↦ rw e refl
      ]))

length-map : (fs : List (List ℕ)) → length (map store_field fs) ≡ length fs
length-map [] = refl
length-map (f ∷ fs) = ap suc (length-map fs)

-- The groups that count.
abbrev pub groups : List ℕ → List (List ℕ)
groups s = take debug_group_set_size (fields s)

groups-ne-nil :
    (fs : List (List ℕ)) → fs ≢ [] → (length (take debug_group_set_size fs) == 0) ≡ false
groups-ne-nil [] h = absurd (h refl)
groups-ne-nil (f ∷ fs) h = ground arith

module _ (d : Debug) (s : List ℕ) (text : IsText s) where
  abbrev stored : Debug
  stored =
      let gs = map store_field (groups s) in
      record d { group_env = gs ++ drop (length gs) d.group_env; group_set = length gs }

  set_core_debug_group_env-fields : set_core_debug_group_env (cstring s) d ≡ done stored
  unfolding set_core_debug_group_env
  set_core_debug_group_env-fields = rw (group_loop-fields debug_group_set_size s text).0 refl

  is_core_debug_group-fields :
      (name : List ℕ)
      → IsText name
      → fields s ≢ []
      → is_core_debug_group (cstring name) stored ≡ done (any_same name (groups s), stored)
  unfolding is_core_debug_group
  is_core_debug_group-fields name h some_field =
      let texts = (group_loop-fields debug_group_set_size s text).1 in
      let some_group = groups-ne-nil (fields s) some_field in
      rw (length-map (groups s)) (
        rw some_group (
          rw some_group (
            rw (any_group-fields name (groups s) (drop (length (groups s)) d.group_env) h texts)
              refl)))

-- "__ALL__", less its terminator
abbrev pub all_groups : List ℕ
all_groups = 95 ∷ 95 ∷ 65 ∷ 76 ∷ 76 ∷ 95 ∷ 95 ∷ []

all_groups-IsText : IsText all_groups
all_groups-IsText = omega arith

-- After a level other than -1 and a string of groups with at least one field are set, a message of
-- any level and group is printed exactly where its level is at most the level that is set and one
-- of the first five fields agrees with "__ALL__" or the group in its first 30 bytes.
pub is_printed-fields :
    (d : Debug) (level : ℤ) (s : List ℕ)
    → eqb_ℤ level debug_undefined ≡ false
    → IsText s
    → fields s ≢ []
    → (l : ℤ) (name : List ℕ) → IsText name
    → (d' : Debug) × (set_core_debug_group_env (cstring s) (set_core_debug_level_env level d)
        ≡ done d')
      × (is_printed l (cstring name) d'
          ≡ done
              (leb_ℤ l level && (any_same all_groups (groups s) || any_same name (groups s)), d'))
unfolding is_printed set_core_debug_level_env
is_printed-fields d level s defined text some_field l name h =
    let d0 = record d { level_env = level } in
    let d' = stored d0 s text in
    let answer = is_core_debug_group-fields d0 s text in
    let all = answer all_groups all_groups-IsText some_field in
    let own = answer name h some_field in
    (
      d',
      set_core_debug_group_env-fields d0 s text,
      rw defined (elim (Bool-cases (leb_ℤ l level)) [
        | inr e ↦ rw e refl
        | inl e ↦ rw e (
            rw all (elim (Bool-cases (any_same all_groups (groups s))) [
              | inl a ↦ rw a refl
              | inr a ↦ rw a own
            ]))
      ]),
    )

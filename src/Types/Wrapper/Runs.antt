-- ===== src/Types/Wrapper/Runs.antt =====
-- Runs of programs that make, copy, assign and destroy objects of the class `variant`
-- (include/core_types/core_types_variant.hpp).
use arnovich_core.Base.{
  ℕ, ◌+◌, ◌-◌, ◌^◌, ◌<◌, ◌≡◌, ◌≢◌, none, List, [], ◌∷◌, length, get_elem?, set, Outcome, done,
  access, ◌>>=◌,
}
use arnovich_core.Types.Wrapper.{
  Shared, Memory, Constructor, construct, copy_constructor, assign, destructor,
}
use arnovich_core.Types.Wrapper.Ownership.{IsOwned}
use arnovich_core.Types.Wrapper.Making.{CanMake}
use arnovich_core.Types.Wrapper.Places.{remove}

-- What a program does with the objects in its scope, by their places.
pub data Action (D : Type 0) : Type 0 where
  make : Constructor D → Action D
  copy : ℕ → Action D
  assigned : (this from : ℕ) → Action D
  destroy : ℕ → Action D

-- The objects in scope, the newest first, and the memory.
abbrev pub Program : Type 0 → Type 0
Program D = List (Shared D) × Memory D

module _ {D : Type 0} where
  unfoldable pub step : Action D → Program D → Outcome (Program D)
  step (make k) (objs, m) = construct k m >>= λ (a, m'). done (a ∷ objs, m')
  step (copy i) (objs, m) = do
    v ← access (get_elem? objs i)
    (a, m') ← copy_constructor v m
    done (a ∷ objs, m')
  step (assigned i j) (objs, m) = do
    this ← access (get_elem? objs i)
    v ← access (get_elem? objs j)
    (a, m') ← assign this v m
    done (set objs i a, m')
  step (destroy i) (objs, m) = do
    this ← access (get_elem? objs i)
    (_, m') ← destructor this m
    done (remove objs i, m')

  unfoldable pub run : List (Action D) → Program D → Outcome (Program D)
  run [] p = done p
  run (a ∷ rest) p = step a p >>= run rest

  -- The actions name objects that are in scope, `n` being the number of these; no object is assigned to
  -- itself, and an int counts the objects.
  abbrev pub InScope : ℕ → List (Action D) → Type 0
  InScope n [] = Unit
  InScope n (make k ∷ rest) = CanMake k × (n + 1 < 2 ^ 31 - 1) × InScope (n + 1) rest
  InScope n (copy i ∷ rest) = (i < n) × (n + 1 < 2 ^ 31 - 1) × InScope (n + 1) rest
  InScope n (assigned i j ∷ rest) = (i < n) × (j < n) × (i ≢ j) × InScope n rest
  InScope n (destroy i ∷ rest) = (i < n) × InScope (n - 1) rest

  -- A result that is there, with `n` objects that own what they should.
  abbrev Owners : Outcome (Program D) → ℕ → Type 0
  Owners r n =
      (objs : List (Shared D)) × (m : Memory D) × (r ≡ done (objs, m))
      × IsOwned objs m
      × (length objs ≡ n)

  -- No counter and no block but NULL, which nothing lives at.
  abbrev pub start : Program D
  start = ([], record { counters = none ∷ []; heap = none ∷ [] })

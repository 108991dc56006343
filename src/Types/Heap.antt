-- ===== src/Types/Heap.antt =====
-- The heap that malloc and free work on, and programs over it. A block is an array of chars or of
-- variants; an access outside a live block faults. Allocation succeeds and gives a new address.
pub mod Reads
pub mod Blocks
use arnovich_core.Base.{
  ℕ, zero, suc, ◌+◌, ◌-◌, ◌*◌, ◌/◌, ◌%◌, ◌^◌, ◌≤◌, ◌<◌, compare, Ordering, ◌≡◌, refl, sym, ap, ◌∙◌,
  ◌≢◌, ◌↔◌, ◌⊎◌, inl, inr, Bool, true, false, not, ◌&&◌, ◌||◌, Option, none, some, List, [], ◌∷◌,
  ◌++◌, map, append_assoc, append-nil, arith, ltb, leb, ◌==◌, if◌then◌else◌, ltb→lt, lt→ltb, le→ltb,
  ==_iff, ne→==, Bool-cases, ℤ, pos, negsuc, pos_part, neg_part, ◌+ℤ◌, ◌*ℤ◌, ltb_ℤ, leb_ℤ, eqb_ℤ,
  eq_of_eqb_ℤ, eqb_ℤ_refl, length, get_elem?, set, take, drop, replicate, length-append, length-set,
  length-take, length-drop, length-replicate, take-append-drop, take-all, get_elem?-set_self,
  get_elem?-set_ne, get_elem?-lt_length, get_elem?-of_lt, set-set, set-get_elem?,
  get_elem?-append_left, get_elem?-append_last, All, All-append, All-set, All-get_elem?, Outcome,
  done, fault, access,
}
use arnovich_core.Types.Value.{Variant}

pub data Block (D : Type 0) : Type 0 where
  chars : List ℕ → Block D
  values : List (Variant D) → Block D

-- The block at each address; `none` at NULL, the address 0, and where a block was freed.
abbrev pub Heap : Type 0 → Type 0
Heap D = List (Option (Block D))

abbrev pub M : Type 0 → Type 0 → Type 0
M D A = Heap D → Outcome (A × Heap D)

module _ {D : Type 0} where
  abbrev pub pure : {A : Type 0} → A → M D A
  pure a h = done (a, h)

  abbrev pub undefined : {A : Type 0} → M D A
  undefined h = fault

  abbrev pub and_then : {A B : Type 0} → Outcome (A × Heap D) → (A → M D B) → Outcome (B × Heap D)
  and_then (done (a, h)) f = f a h
  and_then fault f = fault

  infixl 5 ◌>>=◌ ◌>>◌
  abbrev pub ◌>>=◌ : {A B : Type 0} → M D A → (A → M D B) → M D B
  ◌>>=◌ m f h = and_then (m h) f

  abbrev pub ◌>>◌ : {A B : Type 0} → M D A → M D B → M D B
  ◌>>◌ m n h = and_then (m h) (λ _. n)

  -- A computation that reads nothing.
  abbrev pub lift : {A : Type 0} → Outcome A → M D A
  lift (done a) h = done (a, h)
  lift fault h = fault

  abbrev pub block_at : Heap D → ℕ → Option (Block D)
  block_at h p = elim (get_elem? h p) [ none ↦ none | some b ↦ b ]

  unfoldable pub malloc : Block D → M D ℕ
  malloc b h = done (length h, h ++ some b ∷ [])

  abbrev freed : Option (Block D) → Heap D → ℕ → Outcome (Unit {0} × Heap D)
  freed none h p = fault
  freed (some b) h p = done (tt, set h p none)

  -- free(NULL) does nothing; to free what is not live faults.
  unfoldable pub free : ℕ → M D (Unit {0})
  free p h = if p == 0 then done (tt, h) else freed (block_at h p) h p

  abbrev pub as_chars : Option (Block D) → Outcome (List ℕ)
  as_chars none = fault
  as_chars (some (chars s)) = done s
  as_chars (some (values vs)) = fault

  abbrev pub as_values : Option (Block D) → Outcome (List (Variant D))
  as_values none = fault
  as_values (some (chars s)) = fault
  as_values (some (values vs)) = done vs

  unfoldable pub load_chars : ℕ → M D (List ℕ)
  load_chars p h = lift (as_chars (block_at h p)) h

  unfoldable pub load_values : ℕ → M D (List (Variant D))
  load_values p h = lift (as_values (block_at h p)) h

  -- The values of a block that is live are replaced.
  unfoldable pub store_values : ℕ → List (Variant D) → M D (Unit {0})
  store_values p vs h = done (tt, set h p (some (values vs)))

  -- for(i = i₀; i < i₀ + n; ++i)
  unfoldable pub for_range : ℕ → ℕ → (ℕ → M D (Unit {0})) → M D (Unit {0})
  for_range zero i body = pure tt
  for_range (suc n) i body = body i >> for_range n (suc i) body

  -- The same with a test that returns from the function once it fails.
  unfoldable pub all_range : ℕ → ℕ → (ℕ → M D Bool) → M D Bool
  all_range zero i test = pure true
  all_range (suc n) i test = test i >>= λ b. if b then all_range n (suc i) test else pure false

-- ===== src/Types/Wrapper/Ownership.antt =====
-- Who owns what, of the class `variant` (include/core_types/core_types_variant.hpp): the counters are the
-- numbers of the objects, and every block of the heap belongs to the objects of one counter.
use arnovich_core.Base.{
  ℕ, zero, suc, ◌<◌, ◌≡◌, refl, ap, ◌∙◌, ◌≢◌, ◌⊎◌, inl, inr, Option, none, some, List, [], ◌∷◌,
  ◌++◌, arith, ◌==◌, if◌then◌else◌, Bool-cases, ==_iff, ℤ, pos, length, get_elem?, set,
}
use mathlib.Core.Path.{subst}
use arnovich_core.Types.Value.{Variant}
use arnovich_core.Types.Heap.{Block, block_at}
use arnovich_core.Types.Wrapper.{Shared, Memory, counter_at}

-- What stands at a place, if the place is there.
abbrev pub slot : {A : Type 0} → List (Option A) → ℕ → Option A
slot xs p = elim (get_elem? xs p) [ none ↦ none | some b ↦ b ]

pub slot-append_one :
    {A : Type 0} (xs : List (Option A)) (x : Option A) (p : ℕ)
    → slot (xs ++ x ∷ []) p ≡ (if p == length xs then x else slot xs p)
slot-append_one [] x zero = refl
slot-append_one [] x (suc p) = ground arith
slot-append_one (y ∷ xs) x zero = ground arith
slot-append_one (y ∷ xs) x (suc p) = ground (arith, slot-append_one xs x p)

pub slot-set :
    {A : Type 0} (xs : List (Option A)) (p : ℕ) (x : Option A) (a : A) (q : ℕ)
    → slot xs p ≡ some a
    → slot (set xs p x) q ≡ (if q == p then x else slot xs q)
slot-set [] p x a q h = absurd (cc)
slot-set (y ∷ xs) zero x a zero h = refl
slot-set (y ∷ xs) zero x a (suc q) h = ground arith
slot-set (y ∷ xs) (suc p) x a zero h = ground arith
slot-set (y ∷ xs) (suc p) x a (suc q) h = ground (arith, slot-set xs p x a q h)

pub slot-lt :
    {A : Type 0} (xs : List (Option A)) (p : ℕ) (a : A) → slot xs p ≡ some a → p < length xs
slot-lt [] p a h = absurd (cc)
slot-lt (x ∷ xs) zero a h = omega arith
slot-lt (x ∷ xs) (suc p) a h = omega (arith, slot-lt xs p a h)

pub slot-null : {A : Type 0} (xs : List (Option A)) → get_elem? xs 0 ≡ some none → slot xs 0 ≡ none
slot-null xs h = ap (λ o. elim o [ none ↦ none | some b ↦ b ]) h

-- What the counter of so many objects holds.
abbrev pub expected : ℕ → Option ℤ
expected zero = none
expected (suc n) = some (pos (suc n))

module _ {D : Type 0} where
  -- The number of objects with a counter.
  abbrev pub count : ℕ → List (Shared D) → ℕ
  count p [] = 0
  count p (a ∷ objs) = if a.m_count == p then suc (count p objs) else count p objs

  abbrev pub In : Shared D → List (Shared D) → Type 0
  In a [] = ⊥
  In a (b ∷ objs) = (a ≡ b) ⊎ In a objs

  -- The block that variant_free frees, 0 where it frees none.
  abbrev pub block : Variant D → ℕ
  block Variant.empty = 0
  block (Variant.bool _) = 0
  block (Variant.int _) = 0
  block (Variant.double _) = 0
  block (Variant.text m_s _) = m_s
  block (Variant.matrix m) = m.m_values
  block (Variant.error m_s _) = m_s
  block (Variant.function _ _ _) = 0

  -- The counters count the objects; objects with one counter have one C variant; its block is live;
  -- those of other counters have other blocks; and no block is live but these.
  pub record IsOwned (objs : List (Shared D)) (m : Memory D) : Type 0 where
    pub counters_null : get_elem? m.counters 0 ≡ some none
    pub heap_null : get_elem? m.heap 0 ≡ some none
    pub counts : (p : ℕ) → counter_at m p ≡ expected (count p objs)
    pub agree : (a b : Shared D) → In a objs → In b objs → a.m_count ≡ b.m_count → a.m_v ≡ b.m_v
    pub live :
        (a : Shared D)
        → In a objs
        → block a.m_v ≢ 0
        → (b : Block D) × (block_at m.heap (block a.m_v) ≡ some b)
    pub apart :
        (a b : Shared D)
        → In a objs
        → In b objs
        → a.m_count ≢ b.m_count
        → block a.m_v ≢ 0
        → block a.m_v ≢ block b.m_v
    pub kept :
        (q : ℕ) (b : Block D)
        → block_at m.heap q ≡ some b
        → (a : Shared D) × In a objs × (block a.m_v ≡ q)

  pub count-In : (a : Shared D) (objs : List (Shared D)) → In a objs → 0 < count a.m_count objs
  count-In a [] h = absurd h
  count-In a (b ∷ objs) (inl e) = rw e (ground arith)
  count-In a (b ∷ objs) (inr h) = ground (arith, count-In a objs h)

  pub In-count :
      (p : ℕ) (objs : List (Shared D))
      → 0 < count p objs
      → (a : Shared D) × In a objs × (a.m_count ≡ p)
  In-count p [] h = absurd (omega arith)
  In-count p (b ∷ objs) h = elim (Bool-cases (b.m_count == p)) [
    | inl e ↦ (b, inl refl, (==_iff b.m_count p).0 e)
    | inr e ↦
        let rest : 0 < count p objs = ground arith in
        let (a, i, e') = In-count p objs rest in (a, inr i, e')
  ]

  -- Ownership depends on which objects there are, not on their order.
  pub IsOwned-transfer :
      (objs objs' : List (Shared D)) (m : Memory D)
      → ((p : ℕ) → count p objs ≡ count p objs')
      → ((a : Shared D) → In a objs → In a objs')
      → ((a : Shared D) → In a objs' → In a objs)
      → IsOwned objs m
      → IsOwned objs' m
  IsOwned-transfer objs objs' m same to from o = record {
    counters_null = o.counters_null;
    heap_null = o.heap_null;
    counts = λ p. o.counts p ∙ ap expected (same p);
    agree = λ a b i j e. o.agree a b (from a i) (from b j) e;
    live = λ a i n. o.live a (from a i) n;
    apart = λ a b i j d n. o.apart a b (from a i) (from b j) d n;
    kept = λ q b e. let (a, i, e') = o.kept q b e in (a, to a i, e');
  }

  -- A live object's counter is there.
  pub counter-In :
      (objs : List (Shared D)) (m : Memory D) (a : Shared D)
      → IsOwned objs m
      → In a objs
      → (n : ℕ) × (count a.m_count objs ≡ suc n) × (counter_at m a.m_count ≡ some (pos (suc n)))
  counter-In objs m a o i = go (count a.m_count objs) (count-In a objs i) refl
    where
      go :
          (k : ℕ)
          → 0 < k
          → count a.m_count objs ≡ k
          → (n : ℕ) × (count a.m_count objs ≡ suc n) × (counter_at m a.m_count ≡ some (pos (suc n)))
      go zero h e = absurd (omega arith)
      go (suc n) h e = (n, e, o.counts a.m_count ∙ ap expected e)

  -- A counter that some object has is not NULL.
  pub counter-ne-zero :
      (objs : List (Shared D)) (m : Memory D) (a : Shared D)
      → IsOwned objs m
      → In a objs
      → a.m_count ≢ 0
  counter-ne-zero objs m a o i e =
      let (n, _, at) = counter-In objs m a o i in
      let null : counter_at m 0 ≡ none = slot-null m.counters o.counters_null in
      let at0 : counter_at m 0 ≡ some (pos (suc n)) =
        subst (λ p. counter_at m p ≡ some (pos (suc n))) e at in
      cc

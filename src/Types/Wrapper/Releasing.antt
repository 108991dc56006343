-- ===== src/Types/Wrapper/Releasing.antt =====
-- `release` of the class `variant` (include/core_types/core_types_variant.hpp), the destructor.
use arnovich_core.Base.{
  ℕ, zero, suc, ◌+◌, ◌^◌, ◌<◌, ◌≤◌, ◌≡◌, refl, sym, ap, ◌∙◌, ◌≢◌, inl, inr, false, Option, none,
  some, List, ◌∷◌, arith, ◌==◌, if◌then◌else◌, Bool-cases, ==_iff, ne→==, ℤ, pos, length, get_elem?,
  set, done, get_elem?-set_ne, set-set, ◌-◌,
}
use mathlib.Core.Path.{subst}
use arnovich_core.Types.Value.{Variant}
use arnovich_core.Types.Heap.{Block, Heap, block_at, free}
use arnovich_core.Types.Matrix.{matrix_free}
use arnovich_core.Types.Variant.{variant_free}
use arnovich_core.Types.Wrapper.{Shared, Memory, counter_at, decrement, release}
use arnovich_core.Types.Wrapper.Ownership.{
  slot, slot-null, slot-set, count, In, block, expected, IsOwned, count-In, In-count,
  counter-ne-zero,
}
use arnovich_core.Types.Wrapper.Counting.{count-le, one_less, set_counts, count-other, count-own}

free-live :
    {D : Type 0} (p : ℕ) (h : Heap D)
    → (p ≢ 0 → (b : Block D) × (block_at h p ≡ some b))
    → free p h ≡ done (tt, (if p == 0 then h else set h p none))
unfolding free
free-live p h live = elim (Bool-cases (p == 0)) [
  | inl e ↦ rw e refl
  | inr e ↦ let (b, at) = live (λ z. cc (e, (==_iff p 0).1 z)) in rw e (rw at refl)
]

-- To free the block of a variant that is live, or none.
variant_free-block :
    {D : Type 0} (v : Variant D) (h : Heap D)
    → ((block v ≢ 0) → (b : Block D) × (block_at h (block v) ≡ some b))
    → variant_free v h ≡ done (tt, (if block v == 0 then h else set h (block v) none))
unfolding variant_free matrix_free
variant_free-block Variant.empty h live = refl
variant_free-block (Variant.bool _) h live = refl
variant_free-block (Variant.int _) h live = refl
variant_free-block (Variant.double _) h live = refl
variant_free-block (Variant.text p _) h live = free-live p h live
variant_free-block (Variant.matrix m) h live = free-live m.m_values h live
variant_free-block (Variant.error p _) h live = free-live p h live
variant_free-block (Variant.function _ _ _) h live = refl

module _ {D : Type 0} (a : Shared D) (objs : List (Shared D)) (m : Memory D)
    (o : IsOwned (a ∷ objs) m) where
  abbrev counters_with : Option ℤ → List (Option ℤ)
  counters_with x = set m.counters a.m_count x

  kept_null : (x : Option ℤ) → get_elem? (counters_with x) 0 ≡ some none
  kept_null x =
      get_elem?-set_ne m.counters a.m_count 0 x (counter-ne-zero (a ∷ objs) m a o (inl refl))
      ∙ o.counters_null

  kept_by_twin :
      (twin : Shared D)
      → In twin objs
      → twin.m_count ≡ a.m_count
      → (q : ℕ) → ((x : Shared D) × In x (a ∷ objs) × (block x.m_v ≡ q))
      → (x : Shared D) × In x objs × (block x.m_v ≡ q)
  kept_by_twin twin i same q (x, inl e, f) = (
    twin,
    i,
    ap block (o.agree twin a (inr i) (inl refl) same ∙ ap (λ (y : Shared D). y.m_v) (sym e)) ∙ f,
  )
  kept_by_twin twin i same q (x, inr j, f) = (x, j, f)

  -- One of several objects of a counter goes.
  release-shared :
      (n : ℕ)
      → count a.m_count objs ≡ suc n
      → suc n + 1 < 2 ^ 31
      → (m' : Memory D) × (release a m ≡ done (tt, m')) × IsOwned objs m'
  unfolding release decrement
  release-shared n e fits =
      let at : counter_at m a.m_count ≡ some (pos (suc (suc n))) =
        o.counts a.m_count ∙ ap expected (count-own a objs ∙ ap suc e) in
      let nonzero = counter-ne-zero (a ∷ objs) m a o (inl refl) in
      let (twin, i, same) = In-count a.m_count objs (omega (arith, e)) in
      (
        record m { counters = counters_with (some (pos (suc n))) },
        rw (ne→== a.m_count 0 nonzero, at, one_less (suc n) (omega arith)) (ground arith),
        record {
          counters_null = kept_null _;
          heap_null = o.heap_null;
          counts =
              set_counts objs (a ∷ objs) m.counters a.m_count (some (pos (suc n)))
                (pos (suc (suc n))) at o.counts (sym (ap expected e))
                (λ p d. sym (count-other a objs p d));
          agree = λ b c j k. o.agree b c (inr j) (inr k);
          live = λ b j. o.live b (inr j);
          apart = λ b c j k. o.apart b c (inr j) (inr k);
          kept = λ q b l. kept_by_twin twin i same q (o.kept q b l);
        },
      )

  abbrev heap_without : Heap D
  heap_without = if block a.m_v == 0 then m.heap else set m.heap (block a.m_v) none

  slot-heap_without :
      (q : ℕ) → slot heap_without q ≡ (if q == block a.m_v then none else slot m.heap q)
  slot-heap_without q = elim (Bool-cases (block a.m_v == 0)) [
    | inl e ↦
        let zero_block = (==_iff (block a.m_v) 0).0 e in
        rw e (elim (Bool-cases (q == block a.m_v)) [
          | inl f ↦ rw f (
              subst (λ p. slot m.heap p ≡ none) (sym ((==_iff q (block a.m_v)).0 f ∙ zero_block))
                (slot-null m.heap o.heap_null))
          | inr f ↦ rw f refl
        ])
    | inr e ↦
        let (b, at) = o.live a (inl refl) (λ z. cc (e, (==_iff (block a.m_v) 0).1 z)) in
        rw e (slot-set m.heap (block a.m_v) none b q at)
  ]

  heap_without-null : get_elem? heap_without 0 ≡ some none
  heap_without-null = elim (Bool-cases (block a.m_v == 0)) [
    | inl e ↦ rw e o.heap_null
    | inr e ↦ rw e (
        get_elem?-set_ne m.heap (block a.m_v) 0 none (λ z. cc (e, (==_iff (block a.m_v) 0).1 z))
        ∙ o.heap_null)
  ]

  module _ (e : count a.m_count objs ≡ 0) where
    other_counter : (b : Shared D) → In b objs → b.m_count ≢ a.m_count
    other_counter b j same =
        let some_b = count-In b objs j in
        let none_b : count b.m_count objs ≡ 0 = ap (λ p. count p objs) same ∙ e in omega arith

    live_without :
        (b : Shared D)
        → In b objs
        → block b.m_v ≢ 0
        → (c : Block D) × (block_at heap_without (block b.m_v) ≡ some c)
    live_without b j n =
        let apart = o.apart b a (inr j) (inl refl) (other_counter b j) n in
        let (c, at) = o.live b (inr j) n in
        (c, slot-heap_without (block b.m_v) ∙ (rw (ne→== (block b.m_v) (block a.m_v) apart) at))

    kept_without :
        (q : ℕ) (b : Block D)
        → block_at heap_without q ≡ some b
        → (x : Shared D) × In x objs × (block x.m_v ≡ q)
    kept_without q b l = elim (Bool-cases (q == block a.m_v)) [
      | inl f ↦
          let gone : slot heap_without q ≡ none = slot-heap_without q ∙ (rw f refl) in
          absurd (cc (gone, l))
      | inr f ↦
          let there : slot m.heap q ≡ some b = sym (slot-heap_without q ∙ (rw f refl)) ∙ l in
          not_own q f (o.kept q b there)
    ]
      where
        not_own :
            (q : ℕ)
            → (q == block a.m_v) ≡ false
            → ((x : Shared D) × In x (a ∷ objs) × (block x.m_v ≡ q))
            → (x : Shared D) × In x objs × (block x.m_v ≡ q)
        not_own q f (x, inl e, g) =
            absurd
              (cc (f, (==_iff q (block a.m_v)).1 (sym g ∙ ap (λ (y : Shared D). block y.m_v) e)))
        not_own q f (x, inr j, g) = (x, j, g)

    -- The last object of a counter goes.
    release-last : (m' : Memory D) × (release a m ≡ done (tt, m')) × IsOwned objs m'
    unfolding release decrement
    release-last =
        let at : counter_at m a.m_count ≡ some (pos 1) =
          o.counts a.m_count ∙ ap expected (count-own a objs ∙ ap suc e) in
        let nonzero = counter-ne-zero (a ∷ objs) m a o (inl refl) in
        (
          record { counters = counters_with none; heap = heap_without },
          rw (ne→== a.m_count 0 nonzero, at, one_less 0 (omega arith))
              (rw (set-set m.counters a.m_count (some (pos 0)) none)
                (rw (variant_free-block a.m_v m.heap (o.live a (inl refl))) refl)),
          record {
            counters_null = kept_null none;
            heap_null = heap_without-null;
            counts =
                set_counts objs (a ∷ objs) m.counters a.m_count none (pos 1) at o.counts
                  (sym (ap expected e)) (λ p d. sym (count-other a objs p d));
            agree = λ b c j k. o.agree b c (inr j) (inr k);
            live = live_without;
            apart = λ b c j k. o.apart b c (inr j) (inr k);
            kept = kept_without;
          },
        )

  -- An object goes: `release` returns, and what is left is owned as before.
  pub release-IsOwned :
      length objs < 2 ^ 31 - 1 → (m' : Memory D) × (release a m ≡ done (tt, m')) × IsOwned objs m'
  release-IsOwned fits = by_count (count a.m_count objs) refl (count-le a.m_count objs)
    where
      by_count :
          (n : ℕ)
          → count a.m_count objs ≡ n
          → count a.m_count objs ≤ length objs
          → (m' : Memory D) × (release a m ≡ done (tt, m')) × IsOwned objs m'
      by_count zero e le = release-last e
      by_count (suc n) e le = release-shared n e (omega arith)

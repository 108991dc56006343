-- ===== src/Types/Wrapper/Making.antt =====
-- The constructors of the class `variant` (include/core_types/core_types_variant.hpp) make an object with
-- a counter and, at most, a block of its own.
use arnovich_core.Base.{
  ℕ, zero, suc, ◌<◌, ◌≡◌, refl, sym, ap, ◌∙◌, ◌≢◌, ◌⊎◌, inl, inr, true, false, none, some, List, [],
  ◌∷◌, ◌++◌, arith, ◌==◌, Bool-cases, ==_iff, ne→==, pos, length, get_elem?, done,
  get_elem?-append_left, get_elem?-lt_length,
}
use arnovich_core.Base.CString.{IsText}
use mathlib.Core.Path.{subst}
use arnovich_core.Types.Value.{Variant}
use arnovich_core.Types.Heap.{Block, Heap, malloc}
use arnovich_core.Types.Matrix.{matrix_init}
use arnovich_core.Types.Variant.{
  variant_empty, variant_from_bool, variant_from_int, variant_from_double, variant_from_function,
  variant_matrix,
}
use arnovich_core.Types.Operators.Strings.{Fits, variant_from_string-text}
use arnovich_core.Types.Wrapper.{
  Shared, Memory, Constructor, counter_at, counted, construct, initial,
}
use arnovich_core.Types.Wrapper.Ownership.{
  slot, slot-append_one, slot-lt, count, In, In-count, block, expected, IsOwned, counter-In,
}

-- A std::string that holds no 0 and whose length an int holds.
abbrev pub CanMake : {D : Type 0} → Constructor D → Type 0
CanMake (Constructor.make_string s) = IsText s × Fits (length s)
CanMake Constructor.make_empty = Unit
CanMake (Constructor.make_bool _) = Unit
CanMake (Constructor.make_int _) = Unit
CanMake (Constructor.make_double _) = Unit
CanMake (Constructor.make_matrix _ _) = Unit
CanMake (Constructor.make_function _ _ _) = Unit

-- The variant has no block, or the one that was allocated last.
data Fresh {D : Type 0} (h : Heap D) (v : Variant D) (h' : Heap D) : Type 0 where
  no_block : block v ≡ 0 → h' ≡ h → Fresh h v h'
  new_block : (b : Block D) → block v ≡ length h → h' ≡ h ++ some b ∷ [] → Fresh h v h'

initial-Fresh :
    {D : Type 0} (k : Constructor D) (h : Heap D)
    → CanMake k
    → (v : Variant D) × (h' : Heap D) × (initial k h ≡ done (v, h')) × Fresh h v h'
unfolding initial variant_empty variant_from_bool variant_from_int variant_from_double
    variant_from_function variant_matrix matrix_init malloc
initial-Fresh Constructor.make_empty h ok = (Variant.empty, h, refl, no_block refl refl)
initial-Fresh (Constructor.make_bool b) h ok = (_, h, refl, no_block refl refl)
initial-Fresh (Constructor.make_int i) h ok = (_, h, refl, no_block refl refl)
initial-Fresh (Constructor.make_double d) h ok = (_, h, refl, no_block refl refl)
initial-Fresh (Constructor.make_string s) h (text, fits) =
    (_, _, variant_from_string-text h s text fits, new_block _ refl refl)
initial-Fresh (Constructor.make_matrix rows cols) h ok = (_, _, refl, new_block _ refl refl)
initial-Fresh (Constructor.make_function f a n) h ok = (_, h, refl, no_block refl refl)

module _ {D : Type 0} (objs : List (Shared D)) (m : Memory D) (o : IsOwned objs m) where
  abbrev new_counter : ℕ
  new_counter = length m.counters

  -- The new counter is no object's.
  unused_counter : (b : Shared D) → In b objs → b.m_count ≢ new_counter
  unused_counter b j e =
      let (n, _, at) = counter-In objs m b o j in
      let lt = slot-lt m.counters b.m_count (pos (suc n)) at in omega arith

  unused_count : count new_counter objs ≡ 0
  unused_count = go (count new_counter objs) refl
    where
      go : (k : ℕ) → count new_counter objs ≡ k → count new_counter objs ≡ 0
      go zero e = e
      go (suc k) e =
          let (b, j, same) = In-count new_counter objs (omega (arith, e)) in
          absurd (unused_counter b j same)

  some_block : 0 < length m.heap
  some_block = get_elem?-lt_length m.heap 0 none o.heap_null

  live_slot : (q : ℕ) (b : Block D) → slot m.heap q ≡ some b → (q == length m.heap) ≡ false
  live_slot q b l = let lt = slot-lt m.heap q b l in ne→== q (length m.heap) (omega arith)

  used_block : (b : Shared D) → In b objs → block b.m_v ≢ length m.heap
  used_block b j e =
      let (c, l) = o.live b j (omega (arith, some_block)) in
      let lt = slot-lt m.heap (block b.m_v) c l in omega arith

  module _ (v : Variant D) (h' : Heap D) (fresh : Fresh m.heap v h') where
    null_after : Fresh m.heap v h' → get_elem? h' 0 ≡ some none
    null_after (no_block _ e) = rw e o.heap_null
    null_after (new_block b _ e) =
        rw e (get_elem?-append_left m.heap (some b ∷ []) 0 some_block ∙ o.heap_null)

    live_after :
        Fresh m.heap v h' → (q : ℕ) (b : Block D) → slot m.heap q ≡ some b → slot h' q ≡ some b
    live_after (no_block _ e) q b l = rw e l
    live_after (new_block c _ e) q b l =
        rw e (slot-append_one m.heap (some c) q ∙ (rw (live_slot q b l) l))

    live_new : Fresh m.heap v h' → block v ≢ 0 → (b : Block D) × (slot h' (block v) ≡ some b)
    live_new (no_block z _) n = absurd (n z)
    live_new (new_block b at e) n =
        let same : (length m.heap == length m.heap) ≡ true = ground arith in
        (b, rw (e, at) (slot-append_one m.heap (some b) (length m.heap) ∙ (rw same refl)))

    apart_new : Fresh m.heap v h' → (b : Shared D) → In b objs → block v ≢ 0 → block v ≢ block b.m_v
    apart_new (no_block z _) b j n e = n z
    apart_new (new_block c at _) b j n e = used_block b j (sym e ∙ at)

    kept_new :
        Fresh m.heap v h'
        → (q : ℕ) (b : Block D) → slot h' q ≡ some b
        → (block v ≡ q) ⊎ (slot m.heap q ≡ some b)
    kept_new (no_block _ e) q b l = inr (subst (λ h. slot h q ≡ some b) e l)
    kept_new (new_block c at e) q b l =
        let l' : slot (m.heap ++ some c ∷ []) q ≡ some b = subst (λ h. slot h q ≡ some b) e l in
        elim (Bool-cases (q == length m.heap)) [
          | inl f ↦ inl (at ∙ sym ((==_iff q (length m.heap)).0 f))
          | inr f ↦ inr (sym (slot-append_one m.heap (some c) q ∙ (rw f refl)) ∙ l')
        ]

    abbrev new_object : Shared D
    new_object = record { m_count = new_counter; m_v = v }

    abbrev after : Memory D
    after = record { counters = m.counters ++ some (pos 1) ∷ []; heap = h' }

    counts_after : (p : ℕ) → counter_at after p ≡ expected (count p (new_object ∷ objs))
    counts_after p =
        slot-append_one m.counters (some (pos 1)) p ∙ elim (Bool-cases (p == new_counter)) [
          | inl e ↦
              let same : p ≡ new_counter = (==_iff p new_counter).0 e in
              let first : (new_counter == p) ≡ true = (==_iff new_counter p).1 (sym same) in
              let unused : count p objs ≡ 0 = ap (λ q. count q objs) same ∙ unused_count in
              rw e (rw first (rw unused refl))
          | inr e ↦
              let other : new_counter ≢ p = λ g. cc (e, (==_iff p new_counter).1 (sym g)) in
              rw e (rw (ne→== new_counter p other) (o.counts p))
        ]

    agree_after :
        (a b : Shared D)
        → In a (new_object ∷ objs)
        → In b (new_object ∷ objs)
        → a.m_count ≡ b.m_count
        → a.m_v ≡ b.m_v
    agree_after a b (inl e) (inl f) same = ap (λ (x : Shared D). x.m_v) (e ∙ sym f)
    agree_after a b (inl e) (inr j) same =
        absurd (unused_counter b j (sym same ∙ ap (λ (x : Shared D). x.m_count) e))
    agree_after a b (inr i) (inl f) same =
        absurd (unused_counter a i (same ∙ ap (λ (x : Shared D). x.m_count) f))
    agree_after a b (inr i) (inr j) same = o.agree a b i j same

    apart_after :
        (a b : Shared D)
        → In a (new_object ∷ objs)
        → In b (new_object ∷ objs)
        → a.m_count ≢ b.m_count
        → block a.m_v ≢ 0
        → block a.m_v ≢ block b.m_v
    apart_after a b (inl e) (inl f) d n = absurd (d (ap (λ (x : Shared D). x.m_count) (e ∙ sym f)))
    apart_after a b (inl e) (inr j) d n = λ g.
        let own = ap (λ (x : Shared D). block x.m_v) e in
        apart_new fresh b j (λ z. n (own ∙ z)) (sym own ∙ g)
    apart_after a b (inr i) (inl f) d n = λ g.
        let own = ap (λ (x : Shared D). block x.m_v) f in
        apart_new fresh a i (λ z. n (g ∙ own ∙ z)) (sym (g ∙ own))
    apart_after a b (inr i) (inr j) d n = o.apart a b i j d n

    live_object :
        (a : Shared D)
        → In a (new_object ∷ objs)
        → block a.m_v ≢ 0
        → (b : Block D) × (slot h' (block a.m_v) ≡ some b)
    live_object a (inl e) n =
        let own = ap (λ (x : Shared D). block x.m_v) e in
        let (b, l) = live_new fresh (λ z. n (own ∙ z)) in (b, ap (slot h') own ∙ l)
    live_object a (inr i) n = let (b, l) = o.live a i n in (b, live_after fresh (block a.m_v) b l)

    kept_object :
        (q : ℕ) (b : Block D)
        → slot h' q ≡ some b
        → (a : Shared D) × In a (new_object ∷ objs) × (block a.m_v ≡ q)
    kept_object q b l = owner (kept_new fresh q b l)
      where
        owner :
            ((block v ≡ q) ⊎ (slot m.heap q ≡ some b))
            → (a : Shared D) × In a (new_object ∷ objs) × (block a.m_v ≡ q)
        owner (inl e) = (new_object, inl refl, e)
        owner (inr l') = let (a, i, e) = o.kept q b l' in (a, inr i, e)

    counted-IsOwned : IsOwned (new_object ∷ objs) after
    counted-IsOwned = record {
      counters_null =
          get_elem?-append_left m.counters (some (pos 1) ∷ []) 0
            (get_elem?-lt_length m.counters 0 none o.counters_null)
          ∙ o.counters_null;
      heap_null = null_after fresh;
      counts = counts_after;
      agree = agree_after;
      live = live_object;
      apart = apart_after;
      kept = kept_object;
    }

  -- A constructor makes an object that is owned with the others.
  pub construct-IsOwned :
      (k : Constructor D)
      → CanMake k
      → (a : Shared D) × (m' : Memory D) × (construct k m ≡ done (a, m')) × IsOwned (a ∷ objs) m'
  unfolding construct counted
  construct-IsOwned k ok =
      let (v, h', run, fresh) = initial-Fresh k m.heap ok in
      (new_object v h' fresh, after v h' fresh, rw run refl, counted-IsOwned v h' fresh)

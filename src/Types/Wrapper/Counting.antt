-- ===== src/Types/Wrapper/Counting.antt =====
-- The copy constructor of the class `variant`
-- (include/core_types/core_types_variant.hpp) keep the ownership of Types/Wrapper/Ownership.
use arnovich_core.Base.{
  ℕ, suc, ◌+◌, ◌^◌, ◌<◌, ◌≤◌, ◌≡◌, refl, sym, ap, ◌∙◌, ◌≢◌, inl, inr, Option, some, List, [], ◌∷◌,
  arith, ◌==◌, Bool-cases, ==_iff, ℤ, pos, negsuc, ◌+ℤ◌, length, set, done, get_elem?-set_ne,
}
use mathlib.Core.Path.{subst}
use arnovich_core.Types.Operators.{check_int}
use arnovich_core.Types.Wrapper.{Shared, Memory, increment, copy_constructor}
use arnovich_core.Types.Wrapper.Ownership.{
  slot, slot-set, count, In, expected, IsOwned, counter-In, counter-ne-zero,
}

-- An int can count one more object.
abbrev pub Countable : {D : Type 0} → List (Shared D) → Type 0
Countable objs = length objs + 1 < 2 ^ 31

pub count-le : {D : Type 0} (p : ℕ) (objs : List (Shared D)) → count p objs ≤ length objs
count-le p [] = omega arith
count-le p (a ∷ objs) = ground (arith, count-le p objs)

one_more :
    (n : ℕ) → suc n + 1 < 2 ^ 31 → check_int (pos (suc n) +ℤ pos 1) ≡ done (pos (suc (suc n)))
unfolding check_int ◌+ℤ◌
one_more n h = ground arith

pub one_less : (n : ℕ) → suc n < 2 ^ 31 → check_int (pos (suc n) +ℤ negsuc 0) ≡ done (pos n)
unfolding check_int ◌+ℤ◌
one_less n h = ground arith

In-again :
    {D : Type 0} (objs : List (Shared D)) (a b : Shared D) → In a objs → In b (a ∷ objs) → In b objs
In-again objs a b i (inl e) = subst (λ c. In c objs) (sym e) i
In-again objs a b i (inr j) = j

-- The counter of `a` is set to `x`, which is right for `objs`, and all others are right for `old`.
pub set_counts :
    {D : Type 0} (objs old : List (Shared D)) (cs : List (Option ℤ)) (q : ℕ) (x : Option ℤ) (z : ℤ)
    → slot cs q ≡ some z
    → ((p : ℕ) → slot cs p ≡ expected (count p old))
    → x ≡ expected (count q objs)
    → ((p : ℕ) → p ≢ q → count p objs ≡ count p old)
    → (p : ℕ) → slot (set cs q x) p ≡ expected (count p objs)
set_counts objs old cs q x z at right here other p = elim (Bool-cases (p == q)) [
  | inl e ↦ slot-set cs q x z p at ∙ (rw e (rw ((==_iff p q).0 e) here))
  | inr e ↦
      let differ : p ≢ q = λ same. cc (e, (==_iff p q).1 same) in
      slot-set cs q x z p at ∙ (rw e (right p ∙ ap expected (sym (other p differ))))
]

pub count-other :
    {D : Type 0} (a : Shared D) (objs : List (Shared D)) (p : ℕ)
    → p ≢ a.m_count
    → count p (a ∷ objs) ≡ count p objs
count-other a objs p h = ground arith

pub count-own :
    {D : Type 0} (a : Shared D) (objs : List (Shared D))
    → count a.m_count (a ∷ objs) ≡ suc (count a.m_count objs)
count-own a objs = ground arith

module _ {D : Type 0} (objs : List (Shared D)) (m : Memory D) (o : IsOwned objs m) where
  -- The copy constructor makes one more object of the same counter.
  pub copy_constructor-IsOwned :
      (a : Shared D)
      → In a objs
      → Countable objs
      → (m' : Memory D) × (copy_constructor a m ≡ done (a, m')) × IsOwned (a ∷ objs) m'
  unfolding copy_constructor increment
  copy_constructor-IsOwned a i fits =
      let (n, e, at) = counter-In objs m a o i in
      let bound : suc n + 1 < 2 ^ 31 = omega (arith, count-le a.m_count objs, e) in
      let cs = set m.counters a.m_count (some (pos (suc (suc n)))) in
      let nonzero = counter-ne-zero objs m a o i in
      (
        record m { counters = cs },
        rw (at, one_more n bound) refl,
        record {
          counters_null =
              get_elem?-set_ne m.counters a.m_count 0 (some (pos (suc (suc n)))) nonzero
              ∙ o.counters_null;
          heap_null = o.heap_null;
          counts =
              set_counts (a ∷ objs) objs m.counters a.m_count (some (pos (suc (suc n))))
                (pos (suc n)) at o.counts (sym (ap expected (count-own a objs ∙ ap suc e)))
                (count-other a objs);
          agree = λ b c j k. o.agree b c (In-again objs a b i j) (In-again objs a c i k);
          live = λ b j. o.live b (In-again objs a b i j);
          apart = λ b c j k. o.apart b c (In-again objs a b i j) (In-again objs a c i k);
          kept = λ q b at. let (x, j, e) = o.kept q b at in (x, inr j, e);
        },
      )

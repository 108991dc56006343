-- ===== src/Types/Wrapper/Assigning.antt =====
-- The assignment operator of the class `variant` (include/core_types/core_types_variant.hpp).
use arnovich_core.Base.{
  ℕ, zero, suc, ◌-◌, ◌^◌, ◌<◌, ◌≡◌, refl, ap, ◌∙◌, ◌⊎◌, inl, inr, none, List, ◌∷◌, arith, length,
  done, fault,
}
use mathlib.Core.Path.{subst}
use arnovich_core.Types.Wrapper.{Shared, Memory, counter_at, copy_constructor, assign}
use arnovich_core.Types.Wrapper.Ownership.{count, In, IsOwned, In-count, expected}
use arnovich_core.Types.Wrapper.Counting.{copy_constructor-IsOwned}
use arnovich_core.Types.Wrapper.Releasing.{release-IsOwned}

module _ {D : Type 0} where
  -- Assignment between two objects.
  pub assign-IsOwned :
      (this v : Shared D) (objs : List (Shared D)) (m : Memory D)
      → IsOwned (this ∷ objs) m
      → In v objs
      → length objs < 2 ^ 31 - 1
      → (m' : Memory D) × (assign this v m ≡ done (v, m')) × IsOwned (v ∷ objs) m'
  unfolding assign copy_constructor
  assign-IsOwned this v objs m o i fits =
      let (m1, e1, o1) = release-IsOwned this objs m o fits in
      let (m2, e2, o2) = copy_constructor-IsOwned objs m1 o1 v i (omega arith) in (m2, rw e1 e2, o2)

  -- An object is assigned to itself: if it is the only one of its counter, the counter is freed and then
  -- incremented, which faults; else nothing changes.
  pub assign_self :
      (a : Shared D) (objs : List (Shared D)) (m : Memory D)
      → IsOwned (a ∷ objs) m
      → length objs < 2 ^ 31 - 1
      → ((count a.m_count objs ≡ 0) × (assign a a m ≡ fault))
        ⊎ ((0 < count a.m_count objs)
            × (m' : Memory D) × (assign a a m ≡ done (a, m'))
            × IsOwned (a ∷ objs) m')
  unfolding assign
  assign_self a objs m o fits = by_count (count a.m_count objs) refl
    where
      by_count :
          (n : ℕ)
          → count a.m_count objs ≡ n
          → ((count a.m_count objs ≡ 0) × (assign a a m ≡ fault))
            ⊎ ((0 < count a.m_count objs)
                × (m' : Memory D) × (assign a a m ≡ done (a, m'))
                × IsOwned (a ∷ objs) m')
      by_count zero e =
          let (m1, e1, o1) = release-IsOwned a objs m o fits in
          let freed : counter_at m1 a.m_count ≡ none = o1.counts a.m_count ∙ ap expected e in
          inl (e, rw e1 (rw freed refl))
      by_count (suc n) e =
          let (twin, i, same) = In-count a.m_count objs (omega (arith, e)) in
          let values = o.agree twin a (inr i) (inl refl) same in
          let twins : twin ≡ a = λ j. record { m_count = same j; m_v = values j } in
          let own : In a objs = subst (λ b. In b objs) twins i in
          let (m', e', o') = assign-IsOwned a a objs m o own fits in
          inr (omega (arith, e), m', e', o')

-- ===== src/Types/Wrapper/Places.antt =====
-- Objects taken out of a list of objects by their places.
use arnovich_core.Base.{
  ℕ, zero, suc, ◌+◌, ◌≡◌, refl, sym, ap, ◌∙◌, ◌≢◌, inl, inr, some, List, [], ◌∷◌, arith, ◌==◌,
  if◌then◌else◌, length, get_elem?, set,
}
use mathlib.Core.Path.{subst}
use arnovich_core.Types.Wrapper.{Shared, Memory}
use arnovich_core.Types.Wrapper.Ownership.{count, In, IsOwned, IsOwned-transfer}

module _ {ℓ} {A : Type ℓ} where
  abbrev pub remove : List A → ℕ → List A
  remove [] i = []
  remove (x ∷ xs) zero = xs
  remove (x ∷ xs) (suc i) = x ∷ remove xs i

  pub remove-set : (xs : List A) (i : ℕ) (v : A) → remove (set xs i v) i ≡ remove xs i
  remove-set [] i v = refl
  remove-set (x ∷ xs) zero v = refl
  remove-set (x ∷ xs) (suc i) v = ap (λ t. x ∷ t) (remove-set xs i v)

  pub length-remove :
      (xs : List A) (i : ℕ) (v : A) → get_elem? xs i ≡ some v → length (remove xs i) + 1 ≡ length xs
  length-remove [] i v h = absurd (cc)
  length-remove (x ∷ xs) zero v h = omega arith
  length-remove (x ∷ xs) (suc i) v h = omega (arith, length-remove xs i v h)

module _ {D : Type 0} where
  count_cons :
      (p : ℕ) (x : Shared D) (xs ys : List (Shared D))
      → count p xs ≡ count p ys
      → count p (x ∷ xs) ≡ count p (x ∷ ys)
  count_cons p x xs ys h = ap (λ n. if x.m_count == p then suc n else n) h

  count_swap :
      (p : ℕ) (x y : Shared D) (xs : List (Shared D)) → count p (x ∷ y ∷ xs) ≡ count p (y ∷ x ∷ xs)
  count_swap p x y xs = ground arith

  count-remove :
      (p : ℕ) (objs : List (Shared D)) (i : ℕ) (a : Shared D)
      → get_elem? objs i ≡ some a
      → count p objs ≡ count p (a ∷ remove objs i)
  count-remove p [] i a h = absurd (cc)
  count-remove p (x ∷ objs) zero a h = let e : x ≡ a = cc in ap (λ y. count p (y ∷ objs)) e
  count-remove p (x ∷ objs) (suc i) a h =
      count_cons p x objs (a ∷ remove objs i) (count-remove p objs i a h)
      ∙ count_swap p x a (remove objs i)

  pub In-get_elem? :
      (objs : List (Shared D)) (i : ℕ) (a : Shared D) → get_elem? objs i ≡ some a → In a objs
  In-get_elem? [] i a h = absurd (cc)
  In-get_elem? (x ∷ objs) zero a h = inl (cc)
  In-get_elem? (x ∷ objs) (suc i) a h = inr (In-get_elem? objs i a h)

  In-remove_from :
      (objs : List (Shared D)) (i : ℕ) (a b : Shared D)
      → get_elem? objs i ≡ some a
      → In b objs
      → In b (a ∷ remove objs i)
  In-remove_from [] i a b h j = absurd j
  In-remove_from (x ∷ objs) zero a b h (inl e) = inl (cc)
  In-remove_from (x ∷ objs) zero a b h (inr j) = inr j
  In-remove_from (x ∷ objs) (suc i) a b h (inl e) = inr (inl e)
  In-remove_from (x ∷ objs) (suc i) a b h (inr j) = elim (In-remove_from objs i a b h j) [
    | inl e ↦ inl e
    | inr k ↦ inr (inr k)
  ]

  In-of_remove : (objs : List (Shared D)) (i : ℕ) (b : Shared D) → In b (remove objs i) → In b objs
  In-of_remove [] i b j = j
  In-of_remove (x ∷ objs) zero b j = inr j
  In-of_remove (x ∷ objs) (suc i) b (inl e) = inl e
  In-of_remove (x ∷ objs) (suc i) b (inr j) = inr (In-of_remove objs i b j)

  In-remove_to :
      (objs : List (Shared D)) (i : ℕ) (a b : Shared D)
      → get_elem? objs i ≡ some a
      → In b (a ∷ remove objs i)
      → In b objs
  In-remove_to objs i a b h (inl e) = subst (λ c. In c objs) (sym e) (In-get_elem? objs i a h)
  In-remove_to objs i a b h (inr j) = In-of_remove objs i b j

  -- The object at another place is still there.
  pub In-remove_other :
      (objs : List (Shared D)) (i j : ℕ) (b : Shared D)
      → i ≢ j
      → get_elem? objs j ≡ some b
      → In b (remove objs i)
  In-remove_other [] i j b d h = absurd (cc)
  In-remove_other (x ∷ objs) zero zero b d h = absurd (d refl)
  In-remove_other (x ∷ objs) zero (suc j) b d h = In-get_elem? objs j b h
  In-remove_other (x ∷ objs) (suc i) zero b d h = inl (cc)
  In-remove_other (x ∷ objs) (suc i) (suc j) b d h =
      inr (In-remove_other objs i j b (λ e. d (ap suc e)) h)

  module _ (objs : List (Shared D)) (i : ℕ) (a : Shared D) (at : get_elem? objs i ≡ some a)
      (m : Memory D) where
    pub bring_forward : IsOwned objs m → IsOwned (a ∷ remove objs i) m
    bring_forward =
        IsOwned-transfer objs (a ∷ remove objs i) m (λ p. count-remove p objs i a at)
          (λ b. In-remove_from objs i a b at) (λ b. In-remove_to objs i a b at)

    pub put_back : IsOwned (a ∷ remove objs i) m → IsOwned objs m
    put_back =
        IsOwned-transfer (a ∷ remove objs i) objs m (λ p. sym (count-remove p objs i a at))
          (λ b. In-remove_to objs i a b at) (λ b. In-remove_from objs i a b at)

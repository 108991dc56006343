-- ===== src/Srv/Data/Board/Views.antt =====
-- The lists of a store as parts of its board.
use arnovich_core.Base.{
  ℕ, zero, suc, ◌≤◌, ◌≡◌, refl, ap, ◌⊎◌, inl, inr, none, some, List, [], ◌∷◌, map, Bool-cases,
  ne→==, arith, ℤ, eqb_ℤ, eq_of_eqb_ℤ, eqb_ℤ_refl, length, get_elem?, set,
}
use arnovich_core.Base.CString.{cstring, IsText}
use arnovich_core.Srv.Data.{unlink}
use arnovich_core.Srv.Data.Board.{fewer, text_of, times_in}

module _ {A B : Type 0} (f : A → B) where
  pub get_elem?-map :
      (xs : List A) (i : ℕ) {a : A} → get_elem? xs i ≡ some a → get_elem? (map f xs) i ≡ some (f a)
  get_elem?-map [] i h = absurd (cc)
  get_elem?-map (x ∷ xs) zero h = cc
  get_elem?-map (x ∷ xs) (suc i) h = get_elem?-map xs i h

  pub map-set : (xs : List A) (i : ℕ) (v : A) → map f (set xs i v) ≡ set (map f xs) i (f v)
  map-set [] i v = refl
  map-set (x ∷ xs) zero v = refl
  map-set (x ∷ xs) (suc i) v = ap (λ t. f x ∷ t) (map-set xs i v)

  pub length-map : (xs : List A) → length (map f xs) ≡ length xs
  length-map [] = refl
  length-map (x ∷ xs) = ap suc (length-map xs)

pub get_elem?-cases :
    {A : Type 0} (xs : List A) (i : ℕ)
    → ((length xs ≤ i) × (get_elem? xs i ≡ none)) ⊎ ((a : A) × (get_elem? xs i ≡ some a))
get_elem?-cases [] i = inl (omega arith, refl)
get_elem?-cases (x ∷ xs) zero = inr (x, refl)
get_elem?-cases (x ∷ xs) (suc i) = elim (get_elem?-cases xs i) [
  | inl (le, e) ↦ inl (omega arith, e)
  | inr found ↦ inr found
]

pub get_elem?-none :
    {A B : Type 0} (f : A → B) (xs : List A) (i : ℕ)
    → get_elem? xs i ≡ none
    → get_elem? (map f xs) i ≡ none
get_elem?-none f [] i h = refl
get_elem?-none f (x ∷ xs) zero h = absurd (cc)
get_elem?-none f (x ∷ xs) (suc i) h = get_elem?-none f xs i h

pub text_of-cstring : (s : List ℕ) → IsText s → text_of (cstring s) ≡ s
text_of-cstring [] h = refl
text_of-cstring (c ∷ s) h = rw (ne→== c 0 h.0) (ap (λ t. c ∷ t) (text_of-cstring s h.1))

pub times_in-unlink :
    (c : ℤ) (cs : List ℤ) (x : ℤ) → times_in (unlink c cs) x ≡ fewer c (times_in cs) x
unfolding unlink
times_in-unlink c [] x = ground arith
times_in-unlink c (d ∷ cs) x = elim (Bool-cases (eqb_ℤ d c)) [
  | inl e ↦ let same = eq_of_eqb_ℤ d c e in rw e (rw same (ground arith))
  | inr e ↦ rw e (ground (arith, times_in-unlink c cs x, eqb_ℤ_refl c))
]

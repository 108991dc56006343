-- ===== src/Base/CString/Order.antt =====
-- What the string functions compute on terminated strings: the lexicographic order of the bytes.
use arnovich_core.Base.{
  ℕ, ◌+◌, ◌≤◌, ◌<◌, compare, Ordering, ◌≡◌, refl, ap, inl, inr, List, [], ◌∷◌, ◌++◌, arith, ◌==◌,
  ==_iff, ne→==, Bool-cases, length, length-append, done, fault, >>=-eq-done,
}
use arnovich_core.Base.CString.{strlen, terminated, strcpy, strcmp, cstring, IsText}

-- The order of two strings, byte by byte.
unfoldable pub order : List ℕ → List ℕ → Ordering
order [] [] = Ordering.eq
order [] (d ∷ b) = Ordering.lt
order (c ∷ a) [] = Ordering.gt
order (c ∷ a) (d ∷ b) = elim (compare c d) [
  | Ordering.lt ↦ Ordering.lt
  | Ordering.gt ↦ Ordering.gt
  | Ordering.eq ↦ order a b
]

pub strlen-text : (s rest : List ℕ) → IsText s → strlen (s ++ 0 ∷ rest) ≡ done (length s)
unfolding strlen
strlen-text [] rest h = refl
strlen-text (c ∷ s) rest h = rw (ne→== c 0 h.0, strlen-text s rest h.1) (ap done (omega arith))

pub terminated-text : (s rest : List ℕ) → IsText s → terminated (s ++ 0 ∷ rest) ≡ done (cstring s)
unfolding terminated
terminated-text [] rest h = refl
terminated-text (c ∷ s) rest h = rw (ne→== c 0 h.0, terminated-text s rest h.1)

-- What is copied is a text and its terminator.
pub terminated_inv :
    (b t : List ℕ) → terminated b ≡ done t → (s : List ℕ) × IsText s × (t ≡ cstring s)
unfolding terminated
terminated_inv [] t h = absurd (cc)
terminated_inv (c ∷ b) t h = elim (Bool-cases (c == 0)) [
  | inl e ↦ ([], tt, ground arith)
  | inr e ↦
      let (u, got, last) = >>=-eq-done (terminated b) (λ u. done (c ∷ u)) (rw e at h) in
      let (s, text, same) = terminated_inv b u got in
      (c ∷ s, ((λ z. cc ((==_iff c 0).1 z)), text), cc)
]

pub strcpy-text :
    (size : ℕ) (s rest : List ℕ)
    → IsText s
    → length s < size
    → strcpy size (s ++ 0 ∷ rest) ≡ done (cstring s)
unfolding strcpy
strcpy-text size s rest h fits =
    rw (terminated-text s rest h) (ground (arith, length-append s (0 ∷ [])))

-- A text with no room for its terminator is written past the buffer.
pub strcpy-long :
    (size : ℕ) (s : List ℕ) → IsText s → size ≤ length s → strcpy size (cstring s) ≡ fault
unfolding strcpy
strcpy-long size s h long = rw (terminated-text s [] h) (ground (arith, length-append s (0 ∷ [])))

pub strcpy_inv :
    (size : ℕ) (b t : List ℕ)
    → strcpy size b ≡ done t
    → (s : List ℕ) × IsText s × (t ≡ cstring s) × (length s < size)
unfolding strcpy
strcpy_inv size b t h =
    let (u, got, last) = >>=-eq-done (terminated b) _ h in
    let (s, text, same) = terminated_inv b u got in
    let n : length u ≡ length s + 1 = rw same (length-append s (0 ∷ [])) in
    (s, text, ground (arith, same), ground (arith, n))

-- strcmp of two strings is their order, whatever follows them in their buffers.
pub strcmp-order :
    (a b p q : List ℕ) → IsText a → IsText b → strcmp (a ++ 0 ∷ p) (b ++ 0 ∷ q) ≡ done (order a b)
unfolding strcmp order
strcmp-order [] [] p q h k = refl
strcmp-order [] (d ∷ b) p q h k = ground (arith, k.0)
strcmp-order (c ∷ a) [] p q h k = ground (arith, h.0)
strcmp-order (c ∷ a) (d ∷ b) p q h k = ground (arith, h.0, strcmp-order a b p q h.1 k.1)

pub order_refl : (a : List ℕ) → order a a ≡ Ordering.eq
unfolding order
order_refl [] = refl
order_refl (c ∷ a) = ground (arith, order_refl a)

pub eq_of_order : (a b : List ℕ) → order a b ≡ Ordering.eq → a ≡ b
unfolding order
eq_of_order [] [] h = refl
eq_of_order [] (d ∷ b) h = cc
eq_of_order (c ∷ a) [] h = cc
eq_of_order (c ∷ a) (d ∷ b) h = ground (arith, eq_of_order a b)

abbrev pub opposite : Ordering → Ordering
opposite Ordering.lt = Ordering.gt
opposite Ordering.gt = Ordering.lt
opposite Ordering.eq = Ordering.eq

pub order-opposite : (a b : List ℕ) → order b a ≡ opposite (order a b)
unfolding order
order-opposite [] [] = refl
order-opposite [] (d ∷ b) = refl
order-opposite (c ∷ a) [] = refl
order-opposite (c ∷ a) (d ∷ b) = ground (arith, order-opposite a b)

pub order_trans :
    (a b c : List ℕ) → order a b ≡ Ordering.lt → order b c ≡ Ordering.lt → order a c ≡ Ordering.lt
unfolding order
order_trans [] b [] h k = ground (arith, order-opposite [] b)
order_trans [] b (z ∷ c) h k = refl
order_trans (x ∷ a) [] c h k = cc
order_trans (x ∷ a) (y ∷ b) [] h k = cc
order_trans (x ∷ a) (y ∷ b) (z ∷ c) h k = ground (arith, order_trans a b c)

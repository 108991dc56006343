-- ===== src/Srv/Dialogue/Taken.antt =====
-- The bytes that a read takes off the front of a stream.
use arnovich_core.Base.{
  ℕ, zero, suc, ◌≤◌, ◌≡◌, refl, ◌∙◌, ap, ◌≢◌, inl, inr, Option, some, none, List, [], ◌∷◌, ◌++◌,
  arith, ℤ, eqb_ℤ, eq_of_eqb_ℤ, true, false, Bool-cases, leb, if◌then◌else◌, length, length-append,
  take, drop, take-append-drop, length-take,
}
use mathlib.Core.Path.{subst}

-- What a read of `n` bytes leaves: none where they are not all there.
abbrev pub taken : ℕ → List ℕ → Option (List ℕ × List ℕ)
taken n bs = if leb n (length bs) then some (take n bs, drop n bs) else none

take-append_le :
    {A : Type 0} (n : ℕ) (xs ys : List A) → n ≤ length xs → take n (xs ++ ys) ≡ take n xs
take-append_le zero xs ys h = refl
take-append_le (suc n) [] ys h = absurd (omega arith)
take-append_le (suc n) (x ∷ xs) ys h = ap (λ t. x ∷ t) (take-append_le n xs ys (omega arith))

drop-append_le :
    {A : Type 0} (n : ℕ) (xs ys : List A) → n ≤ length xs → drop n (xs ++ ys) ≡ drop n xs ++ ys
drop-append_le zero xs ys h = refl
drop-append_le (suc n) [] ys h = absurd (omega arith)
drop-append_le (suc n) (x ∷ xs) ys h = drop-append_le n xs ys (omega arith)

-- Bytes that come later do not change what a read takes.
pub taken-append :
    (n : ℕ) (bs extra : List ℕ)
    → leb n (length bs) ≡ true
    → taken n (bs ++ extra) ≡ some (take n bs, drop n bs ++ extra)
taken-append n bs extra h =
    let fits : n ≤ length bs = ground arith in
    let all : leb n (length (bs ++ extra)) ≡ true = ground (arith, length-append bs extra) in
    rw (all, take-append_le n bs extra fits, drop-append_le n bs extra fits)

take_self : {A : Type 0} (xs : List A) → take (length xs) xs ≡ xs
take_self [] = refl
take_self (x ∷ xs) = ap (λ t. x ∷ t) (take_self xs)

drop_self : {A : Type 0} (xs : List A) → drop (length xs) xs ≡ []
drop_self [] = refl
drop_self (x ∷ xs) = drop_self xs

pub taken_front : (bs rest : List ℕ) → taken (length bs) (bs ++ rest) ≡ some (bs, rest)
taken_front bs rest =
    taken-append (length bs) bs rest (ground arith) ∙ rw (take_self bs, drop_self bs)

-- What holds of every read of bytes in front holds of a read of the first `n`.
pub reads_taken :
    {C : Type 0} (n : ℕ) (down : List ℕ)
    → n ≤ length down
    → (P : ℕ → List ℕ → C → Type 0) (after : List ℕ → List ℕ → C)
    → ((bs rest : List ℕ) → P (length bs) (bs ++ rest) (after bs rest))
    → P n down (after (take n down) (drop n down))
reads_taken n down fits P after all =
    let l : length (take n down) ≡ n = ground (arith, length-take n down) in
    subst (λ n'. P n' down (after (take n down) (drop n down))) l
      (subst (λ d. P (length (take n down)) d (after (take n down) (drop n down)))
        (take-append-drop n down) (all (take n down) (drop n down)))

pub ne→eqb_ℤ : (a b : ℤ) → a ≢ b → eqb_ℤ a b ≡ false
ne→eqb_ℤ a b h = elim (Bool-cases (eqb_ℤ a b)) [
  | inl e ↦ absurd (h (eq_of_eqb_ℤ a b e))
  | inr e ↦ e
]

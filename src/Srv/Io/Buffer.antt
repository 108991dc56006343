-- ===== src/Srv/Io/Buffer.antt =====
-- Parts of a buffer that are read and written while a tick is transferred.
use arnovich_core.Base.{
  ℕ, zero, suc, ◌+◌, ◌≤◌, ◌≡◌, refl, sym, ap, ◌∙◌, List, [], ◌∷◌, ◌++◌, arith, length, take, drop,
  replicate, length-append, length-take, length-drop, length-replicate, take-append-drop, done,
}
use arnovich_core.Srv.Io.{slice, splice}

drop-append_length {ℓ} :
    {A : Type ℓ} (n : ℕ) (xs ys : List A) → length xs ≡ n → drop n (xs ++ ys) ≡ ys
drop-append_length zero [] ys h = refl
drop-append_length zero (x ∷ xs) ys h = absurd (omega arith)
drop-append_length (suc n) [] ys h = absurd (omega arith)
drop-append_length (suc n) (x ∷ xs) ys h = drop-append_length n xs ys (omega arith)

drop-nil {ℓ} : {A : Type ℓ} (n : ℕ) → drop {A = A} n [] ≡ []
drop-nil zero = refl
drop-nil (suc n) = refl

drop-drop {ℓ} : {A : Type ℓ} (m n : ℕ) (xs : List A) → drop n (drop m xs) ≡ drop (m + n) xs
drop-drop zero n xs = ap (λ k. drop k xs) (omega arith)
drop-drop (suc m) n [] = drop-nil n ∙ sym (drop-nil (suc m + n))
drop-drop (suc m) n (x ∷ xs) =
    let e : suc (m + n) ≡ suc m + n = omega arith in drop-drop m n xs ∙ ap (λ k. drop k (x ∷ xs)) e

-- `n` bytes of the buffer from `off` on.
abbrev pub part : List ℕ → ℕ → ℕ → List ℕ
part xs off n = take n (drop off xs)

pub length-part : (xs : List ℕ) (off n : ℕ) → off + n ≤ length xs → length (part xs off n) ≡ n
length-part xs off n h = omega (arith, length-take n (drop off xs), length-drop off xs)

pub slice-part :
    (xs : List ℕ) (off n : ℕ) → off + n ≤ length xs → slice xs off n ≡ done (part xs off n)
unfolding slice
slice-part xs off n h = ground arith

-- A buffer `b` that agrees with `xs` from `off` on.
pub record Agrees (xs b : List ℕ) (off : ℕ) : Type 0 where
  pub size : length b ≡ length xs
  pub tail : drop off b ≡ drop off xs

-- A part of `xs` that is written where it belongs extends the agreement downwards.
pub splice-Agrees :
    (xs b : List ℕ) (off n : ℕ)
    → off + n ≤ length xs
    → Agrees xs b (off + n)
    → (b' : List ℕ) × (splice b off (part xs off n) ≡ done b') × Agrees xs b' off
unfolding splice
splice-Agrees xs b off n h w =
    let b' = take off b ++ (part xs off n ++ drop (off + n) b) in
    let l = length-part xs off n h in
    let k : length (take off b) ≡ off = omega (arith, length-take off b, w.size) in
    let same : part xs off n ++ drop (off + n) b ≡ drop off xs =
      rw (w.tail, ← drop-drop off n xs) (take-append-drop n (drop off xs)) in
    (
      b',
      rw l (ground (arith, w.size)),
      record {
        size = length-append (take off b) _ ∙ omega (arith, k, ap length same, length-drop off xs);
        tail = drop-append_length off (take off b) _ k ∙ same;
      },
    )

pub Agrees-all : (xs b : List ℕ) → Agrees xs b 0 → b ≡ xs
Agrees-all xs b w = w.tail

drop-all {ℓ} : {A : Type ℓ} (n : ℕ) (xs : List A) → length xs ≤ n → drop n xs ≡ []
drop-all n [] h = drop-nil n
drop-all zero (x ∷ xs) h = absurd (omega arith)
drop-all (suc n) (x ∷ xs) h = drop-all n xs (omega arith)

-- A fresh buffer of the right size agrees past its end.
pub Agrees-end :
    (xs : List ℕ) (fill n : ℕ) → n ≡ length xs → Agrees xs (replicate (length xs) fill) n
Agrees-end xs fill n h =
    let l = length-replicate (length xs) fill in
    record { size = l; tail = drop-all n _ (omega (arith, l)) ∙ sym (drop-all n xs (omega arith)) }

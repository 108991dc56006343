-- ===== src/Srv/Wire/Decode.antt =====
-- The encodings of the numbers that are sent can be decoded.
use arnovich_core.Base.{
  ℕ, zero, suc, ◌+◌, ◌*◌, ◌/◌, ◌%◌, ◌^◌, ◌<◌, ◌≡◌, refl, ap, ◌∙◌, List, [], ◌∷◌, ◌++◌, arith, ℤ,
  pos, negsuc, length, take, drop, length-append,
}
use native.Mathlib.Nat.{mod-lt, mod-eq_of_lt, pow-suc}
use arnovich_core.Srv.Types.{Timeval}
use arnovich_core.Srv.Wire.{
  to_bytes, of_bytes, to_word, of_word, int_bytes, bytes_int, size_bytes, bytes_size, timeval_bytes,
  bytes_timeval,
}

pub length-to_bytes : (w n : ℕ) → length (to_bytes w n) ≡ w
unfolding to_bytes
length-to_bytes zero n = refl
length-to_bytes (suc w) n = ap suc (length-to_bytes w (n / 256))

quotient : (w n : ℕ) → n < 256 ^ suc w → n / 256 < 256 ^ w
quotient w n h = let e : 256 ^ suc w ≡ 256 ^ w * 256 = pow-suc 256 w in omega (arith, e)

pub of_bytes-to_bytes : (w n : ℕ) → n < 256 ^ w → of_bytes (to_bytes w n) ≡ n
unfolding to_bytes of_bytes
of_bytes-to_bytes zero n h = omega arith
of_bytes-to_bytes (suc w) n h = omega (arith, of_bytes-to_bytes w (n / 256) (quotient w n h))

-- `z` fits `int`.
abbrev pub IsWord : ℕ → ℤ → Type 0
IsWord m (pos n) = 2 * n < m
IsWord m (negsuc n) = 2 * n + 1 < m

pub of_word-to_word : (m : ℕ) (z : ℤ) → IsWord m z → of_word m (to_word m z) ≡ z
unfolding to_word of_word
of_word-to_word m (pos n) h = let e : n % m ≡ n = mod-eq_of_lt (omega arith) in ground (arith, e)
of_word-to_word m (negsuc n) h = let e : n % m ≡ n = mod-eq_of_lt (omega arith) in ground (arith, e)

pub to_word-lt : (m : ℕ) (z : ℤ) → 0 < m → to_word m z < m
unfolding to_word
to_word-lt m (pos n) h = mod-lt n h
to_word-lt m (negsuc n) h = omega arith

pub length-int_bytes : (z : ℤ) → length (int_bytes z) ≡ 4
unfolding int_bytes
length-int_bytes z = length-to_bytes 4 (to_word (2 ^ 32) z)

pub length-size_bytes : (n : ℕ) → length (size_bytes n) ≡ 8
unfolding size_bytes
length-size_bytes n = length-to_bytes 8 n

abbrev pub IsInt : ℤ → Type 0
IsInt z = IsWord (2 ^ 32) z

pub bytes_int-int_bytes : (z : ℤ) → IsInt z → bytes_int (int_bytes z) ≡ z
unfolding int_bytes bytes_int
bytes_int-int_bytes z h =
    ap (of_word (2 ^ 32))
      (of_bytes-to_bytes 4 (to_word (2 ^ 32) z) (to_word-lt (2 ^ 32) z (omega arith)))
    ∙ of_word-to_word (2 ^ 32) z h

pub bytes_size-size_bytes : (n : ℕ) → n < 2 ^ 64 → bytes_size (size_bytes n) ≡ n
unfolding size_bytes bytes_size
bytes_size-size_bytes n h = of_bytes-to_bytes 8 n h

-- The fields of a time fit 64 bits.
abbrev pub IsTime : Timeval → Type 0
IsTime t = IsWord (2 ^ 64) t.tv_sec × IsWord (2 ^ 64) t.tv_usec

take-append_length {ℓ} :
    {A : Type ℓ} (n : ℕ) (xs ys : List A) → length xs ≡ n → take n (xs ++ ys) ≡ xs
take-append_length zero [] ys h = refl
take-append_length zero (x ∷ xs) ys h = absurd (omega arith)
take-append_length (suc n) [] ys h = absurd (omega arith)
take-append_length (suc n) (x ∷ xs) ys h =
    ap (λ t. x ∷ t) (take-append_length n xs ys (omega arith))

drop-append_length {ℓ} :
    {A : Type ℓ} (n : ℕ) (xs ys : List A) → length xs ≡ n → drop n (xs ++ ys) ≡ ys
drop-append_length zero [] ys h = refl
drop-append_length zero (x ∷ xs) ys h = absurd (omega arith)
drop-append_length (suc n) [] ys h = absurd (omega arith)
drop-append_length (suc n) (x ∷ xs) ys h = drop-append_length n xs ys (omega arith)

pub length-timeval_bytes : (t : Timeval) → length (timeval_bytes t) ≡ 16
unfolding timeval_bytes
length-timeval_bytes t =
    length-append (to_bytes 8 (to_word (2 ^ 64) t.tv_sec)) (to_bytes 8 (to_word (2 ^ 64) t.tv_usec))
    ∙ omega (
      arith,
      length-to_bytes 8 (to_word (2 ^ 64) t.tv_sec),
      length-to_bytes 8 (to_word (2 ^ 64) t.tv_usec),
    )

of_word-of_bytes :
    (z : ℤ) → IsWord (2 ^ 64) z → of_word (2 ^ 64) (of_bytes (to_bytes 8 (to_word (2 ^ 64) z))) ≡ z
of_word-of_bytes z h =
    ap (of_word (2 ^ 64))
      (of_bytes-to_bytes 8 (to_word (2 ^ 64) z) (to_word-lt (2 ^ 64) z (omega arith)))
    ∙ of_word-to_word (2 ^ 64) z h

pub bytes_timeval-timeval_bytes : (t : Timeval) → IsTime t → bytes_timeval (timeval_bytes t) ≡ t
unfolding timeval_bytes bytes_timeval
bytes_timeval-timeval_bytes t h =
    let a = to_bytes 8 (to_word (2 ^ 64) t.tv_sec) in
    let b = to_bytes 8 (to_word (2 ^ 64) t.tv_usec) in
    let l = length-to_bytes 8 (to_word (2 ^ 64) t.tv_sec) in
    let first : take 8 (a ++ b) ≡ a = take-append_length 8 a b l in
    let second : drop 8 (a ++ b) ≡ b = drop-append_length 8 a b l in
    λ i. record {
      tv_sec = (ap (λ x. of_word (2 ^ 64) (of_bytes x)) first ∙ of_word-of_bytes t.tv_sec h.0) i;
      tv_usec = (ap (λ x. of_word (2 ^ 64) (of_bytes x)) second ∙ of_word-of_bytes t.tv_usec h.1) i;
    }

-- ===== src/Types/Operators/Strings.antt =====
-- String variants: how they are made, copied, joined and compared
-- (src/lib/core_types/core_types_variant.c).
use arnovich_core.Base.{
  ℕ, suc, ◌+◌, ◌-◌, ◌^◌, ◌<◌, ◌≡◌, refl, sym, ap, true, Option, none, some, List, [], ◌∷◌, ◌++◌,
  append_assoc, arith, ne→==, ℤ, pos, ◌+ℤ◌, length, take, done,
}
use arnovich_core.Base.CString.{strcpy, cstring, IsText}
use arnovich_core.Base.CString.Order.{order_refl, strcmp-order, strlen-text, strcpy-text}
use arnovich_core.Types.Value.{Variant}
use arnovich_core.Types.Double.{Double}
use arnovich_core.Types.Heap.{
  Block, chars, Heap, lift, load_chars, as_chars, block_at, malloc, free,
}
use arnovich_core.Types.Heap.Blocks.{block_at-append, block_at-append_last, set-append_last}
use arnovich_core.Types.Variant.{
  string_size, int_of_size, new_string, copy_string, string_of, variant_from_string, variant_copy,
  variant_free,
}
use arnovich_core.Types.Operators.{
  compare_strings, concat_strings, check_int, variant_add, variant_equal, variant_equal_with,
}

-- The string at p is s.
abbrev pub TextAt : {D : Type 0} → Heap D → ℕ → List ℕ → Type 0
TextAt h p s = IsText s × (block_at h p ≡ some (chars (cstring s)))

-- A length that an int holds, with the terminator.
abbrev pub Fits : ℕ → Type 0
Fits n = n + 1 < 2 ^ 31

pub load_chars-TextAt :
    {D : Type 0} (h : Heap D) (p : ℕ) (s : List ℕ)
    → TextAt h p s
    → load_chars p h ≡ done (cstring s, h)
unfolding load_chars
load_chars-TextAt h p s (text, at) = ap (λ b. lift (as_chars b) h) at

pub take-cstring : (s : List ℕ) → take (length s) (cstring s) ≡ s
take-cstring [] = refl
take-cstring (c ∷ s) = ap (λ u. c ∷ u) (take-cstring s)

concat_strings-TextAt :
    {D : Type 0} (h : Heap D) (p q : ℕ) (s t : List ℕ)
    → TextAt h p s
    → TextAt h q t
    → concat_strings (length s + length t + 1) p q h
      ≡ done (length h, h ++ some (chars (cstring (s ++ t))) ∷ [])
unfolding concat_strings malloc
concat_strings-TextAt h p q s t a b =
    let c : strcpy (length s + length t + 1) (cstring s) ≡ done (cstring s) =
      strcpy-text (length s + length t + 1) s [] a.0 (omega arith) in
    let d : strcpy (length s + length t + 1 - length s) (cstring t) ≡ done (cstring t) =
      strcpy-text (length s + length t + 1 - length s) t [] b.0 (omega arith) in
    rw
      (
        load_chars-TextAt h p s a,
        load_chars-TextAt h q t b,
        c,
        strlen-text s [] a.0,
        d,
        take-cstring s,
      )
      (ap (λ u. done (length h, h ++ some (chars u) ∷ [])) (sym (append_assoc s t (0 ∷ []))))

sum_of_lengths : (n m : ℕ) → Fits (n + m) → check_int (pos n +ℤ pos m) ≡ done (pos (n + m))
unfolding check_int ◌+ℤ◌
sum_of_lengths n m h = ground arith

string_size-pos : (n : ℕ) → Fits n → string_size (pos n) ≡ done (n + 1)
unfolding string_size
string_size-pos n h = ground arith

int_of_size-small : (n : ℕ) → Fits n → int_of_size n ≡ pos n
unfolding int_of_size
int_of_size-small n h = ground arith

-- variant_add of two strings makes a new string, their concatenation, and changes no old block.
pub variant_add-text :
    (F : Double) (h : Heap F.D) (p q : ℕ) (s t : List ℕ)
    → TextAt h p s
    → TextAt h q t
    → Fits (length s + length t)
    → variant_add F (Variant.text p (pos (length s))) (Variant.text q (pos (length t))) h
      ≡ done (
        Variant.text (length h) (pos (length s + length t)),
        h ++ some (chars (cstring (s ++ t))) ∷ [],
      )
unfolding variant_add
variant_add-text F h p q s t a b fits = rw (
  sum_of_lengths (length s) (length t) fits,
  string_size-pos (length s + length t) fits,
  concat_strings-TextAt h p q s t a b,
)

new_string-text :
    {D : Type 0} (h : Heap D) (s : List ℕ)
    → IsText s
    → new_string (length s + 1) (cstring s) h ≡ done (length h, h ++ some (chars (cstring s)) ∷ [])
unfolding new_string malloc
new_string-text h s t = rw (strcpy-text (length s + 1) s [] t (omega arith))

-- variant_from_string of a text makes a string variant with its length and a new block that holds it.
pub variant_from_string-text :
    {D : Type 0} (h : Heap D) (s : List ℕ)
    → IsText s
    → Fits (length s)
    → variant_from_string (cstring s) h
      ≡ done (Variant.text (length h) (pos (length s)), h ++ some (chars (cstring s)) ∷ [])
unfolding variant_from_string string_of
variant_from_string-text h s t fits = rw (
  strlen-text s [] t,
  int_of_size-small (length s) fits,
  string_size-pos (length s) fits,
  new_string-text h s t,
)

variant_copy-text :
    {D : Type 0} (h : Heap D) (p : ℕ) (s : List ℕ)
    → TextAt h p s
    → Fits (length s)
    → variant_copy (Variant.text p (pos (length s))) h
      ≡ done (Variant.text (length h) (pos (length s)), h ++ some (chars (cstring s)) ∷ [])
unfolding variant_copy copy_string
variant_copy-text h p s a fits =
    rw (string_size-pos (length s) fits, load_chars-TextAt h p s a, new_string-text h s a.0)

-- To free the block that was made last.
free-append_last :
    {D : Type 0} (h : Heap D) (b : Block D)
    → 0 < length h
    → free (length h) (h ++ some b ∷ []) ≡ done (tt, h ++ none ∷ [])
unfolding free
free-append_last h b e = rw (
  ne→== (length h) 0 (λ z. omega arith),
  block_at-append_last h b,
  set-append_last h (some b) none,
)

block_at-old :
    {D : Type 0} (h : Heap D) (b : Option (Block D)) (p : ℕ) (s : List ℕ)
    → TextAt h p s
    → TextAt (h ++ b ∷ []) p s
block_at-old h b p s a = (a.0, block_at-append h (b ∷ []) p (chars (cstring s)) a.1)

block_at-new :
    {D : Type 0} (h : Heap D) (s : List ℕ)
    → IsText s
    → TextAt (h ++ some (chars (cstring s)) ∷ []) (length h) s
block_at-new h s t = (t, block_at-append_last h (chars (cstring s)))

equal-TextAt :
    (F : Double) (depth : ℕ) (h : Heap F.D) (p q : ℕ) (l m : ℤ) (s : List ℕ)
    → TextAt h p s
    → TextAt h q s
    → variant_equal F (suc depth) (Variant.text p l) (Variant.text q m) h ≡ done (true, h)
unfolding variant_equal variant_equal_with compare_strings
equal-TextAt F depth h p q l m s a b = rw (
  load_chars-TextAt h p s a,
  load_chars-TextAt h q s b,
  strcmp-order s s [] [] a.0 a.0,
  order_refl s,
)

-- The copy of a string variant is a string of its own: it is equal to the variant, and to free it
-- leaves the blocks that were there before, the variant's among them.
pub variant_copy-free :
    (F : Double) (depth : ℕ) (h : Heap F.D) (p : ℕ) (s : List ℕ)
    → 0 < length h
    → TextAt h p s
    → Fits (length s)
    → (c : Variant F.D) × (g : Heap F.D) × (variant_copy (Variant.text p (pos (length s))) h
        ≡ done (c, g))
      × (variant_equal F (suc depth) (Variant.text p (pos (length s))) c g ≡ done (true, g))
      × (variant_free c g ≡ done (tt, h ++ none ∷ []))
unfolding variant_free free
variant_copy-free F depth h p s some_block a fits =
    let b = some (chars (cstring s)) in
    (
      Variant.text (length h) (pos (length s)),
      h ++ b ∷ [],
      variant_copy-text h p s a fits,
      equal-TextAt F depth (h ++ b ∷ []) p (length h) (pos (length s)) (pos (length s)) s
          (block_at-old h b p s a) (block_at-new h s a.0),
      free-append_last h (chars (cstring s)) some_block,
    )

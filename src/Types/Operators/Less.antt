-- ===== src/Types/Operators/Less.antt =====
-- variant_less as an order (src/lib/core_types/core_types_variant.c).
use arnovich_core.Base.{
  ℕ, Ordering, ◌≡◌, refl, sym, ap, ◌∙◌, ◌≢◌, Bool, true, false, List, [], ◌∷◌, arith, ltb_ℤ,
  Outcome, done, fault,
}
use arnovich_core.Base.CString.{strcmp}
use arnovich_core.Types.Value.{Variant}
use arnovich_core.Types.Double.{Double, IsIeee}
use arnovich_core.Types.Heap.{Heap, pure, ◌>>=◌, lift, load_chars, as_chars, block_at}
use arnovich_core.Types.Operators.{compare_strings, variant_less}
use arnovich_core.Base.CString.{is_lt}

strcmp_trans :
    (a b c : List ℕ)
    → strcmp a b ≡ done Ordering.lt
    → strcmp b c ≡ done Ordering.lt
    → strcmp a c ≡ done Ordering.lt
unfolding strcmp
strcmp_trans [] b c h k = cc
strcmp_trans (x ∷ a) [] c h k = cc
strcmp_trans (x ∷ a) (y ∷ b) [] h k = cc
strcmp_trans (x ∷ a) (y ∷ b) (z ∷ c) h k = ground (arith, strcmp_trans a b c)

strcmp_irrefl : (a : List ℕ) → strcmp a a ≢ done Ordering.lt
unfolding strcmp
strcmp_irrefl [] h = cc
strcmp_irrefl (x ∷ a) h = ground (arith, strcmp_irrefl a)

pure_inv : {D : Type 0} {h : Heap D} (b : Bool) → pure b h ≡ done (true, h) → b ≡ true
pure_inv true e = refl
pure_inv false e = cc

-- What a true answer on two strings says.
less_inv :
    {D : Type 0} (h : Heap D) (p q : ℕ)
    → (compare_strings p q >>= λ r. pure (is_lt r)) h ≡ done (true, h)
    → (s t : List ℕ) × (as_chars (block_at h p) ≡ done s)
      × (as_chars (block_at h q) ≡ done t)
      × (strcmp s t ≡ done Ordering.lt)
unfolding compare_strings load_chars
less_inv h p q e = go (as_chars (block_at h p)) e
  where
    third :
        (s t : List ℕ) (r : Outcome Ordering)
        → (lift r >>= λ r. pure (is_lt r)) h ≡ done (true, h)
        → r ≡ done Ordering.lt
    third s t (done Ordering.lt) y = refl
    third s t (done Ordering.eq) y = cc
    third s t (done Ordering.gt) y = cc
    third s t fault y = cc

    second :
        (s : List ℕ) (u : Outcome (List ℕ))
        → ((lift u >>= λ t. lift (strcmp s t)) >>= λ r. pure (is_lt r)) h ≡ done (true, h)
        → (t : List ℕ) × (u ≡ done t) × (strcmp s t ≡ done Ordering.lt)
    second s fault y = cc
    second s (done t) y = (t, refl, third s t (strcmp s t) y)

    go :
        (o : Outcome (List ℕ))
        → ((lift o >>= λ s. load_chars q >>= λ t. lift (strcmp s t)) >>= λ r. pure (is_lt r)) h
          ≡ done (true, h)
        → (s t : List ℕ) × (o ≡ done s)
          × (as_chars (block_at h q) ≡ done t)
          × (strcmp s t ≡ done Ordering.lt)
    go fault y = cc
    go (done s) y = let (t, x, z) = second s (as_chars (block_at h q)) y in (s, t, refl, x, z)

-- variant_less never answers true for a variant and itself.
pub variant_less_irrefl :
    (F : Double)
    → IsIeee F
    → (v : Variant F.D) (h : Heap F.D) → variant_less F v v h ≢ done (true, h)
unfolding variant_less compare_strings load_chars
variant_less_irrefl F law Variant.empty h e = cc
variant_less_irrefl F law (Variant.bool _) h e = cc
variant_less_irrefl F law (Variant.matrix _) h e = cc
variant_less_irrefl F law (Variant.error _ _) h e = cc
variant_less_irrefl F law (Variant.function _ _ _) h e = cc
variant_less_irrefl F law (Variant.int i) h e = ground arith
variant_less_irrefl F law (Variant.double d) h e = cc (law.less_irrefl d, pure_inv (F.less d d) e)
variant_less_irrefl F law (Variant.text p _) h e =
    let (s, t, x, y, z) = less_inv h p p e in strcmp_irrefl s (cc)

-- variant_less is transitive, ints and doubles mixed.
pub variant_less_trans :
    (F : Double)
    → IsIeee F
    → (a b c : Variant F.D) (h : Heap F.D) → variant_less F a b h ≡ done (true, h)
    → variant_less F b c h ≡ done (true, h)
    → variant_less F a c h ≡ done (true, h)
unfolding variant_less compare_strings load_chars
variant_less_trans F law Variant.empty b c h e k = cc
variant_less_trans F law (Variant.bool _) b c h e k = cc
variant_less_trans F law (Variant.int a) Variant.empty c h e k = cc
variant_less_trans F law (Variant.int a) (Variant.bool _) c h e k = cc
variant_less_trans F law (Variant.int a) (Variant.int b) Variant.empty h e k = cc
variant_less_trans F law (Variant.int a) (Variant.int b) (Variant.bool _) h e k = cc
variant_less_trans F law (Variant.int a) (Variant.int b) (Variant.int c) h e k =
    ap (λ b. done (b, h))
      (sym (law.less-of_int a c)
        ∙ law.less_trans (F.of_int a) (F.of_int b) (F.of_int c)
            (law.less-of_int a b ∙ pure_inv (ltb_ℤ a b) e)
            (law.less-of_int b c ∙ pure_inv (ltb_ℤ b c) k))
variant_less_trans F law (Variant.int a) (Variant.int b) (Variant.double c) h e k =
    ap (λ b. done (b, h))
      (law.less_trans (F.of_int a) (F.of_int b) c (law.less-of_int a b ∙ pure_inv (ltb_ℤ a b) e)
        (pure_inv (F.less (F.of_int b) c) k))
variant_less_trans F law (Variant.int a) (Variant.int b) (Variant.text c _) h e k = cc
variant_less_trans F law (Variant.int a) (Variant.int b) (Variant.matrix _) h e k = cc
variant_less_trans F law (Variant.int a) (Variant.int b) (Variant.error _ _) h e k = cc
variant_less_trans F law (Variant.int a) (Variant.int b) (Variant.function _ _ _) h e k = cc
variant_less_trans F law (Variant.int a) (Variant.double b) Variant.empty h e k = cc
variant_less_trans F law (Variant.int a) (Variant.double b) (Variant.bool _) h e k = cc
variant_less_trans F law (Variant.int a) (Variant.double b) (Variant.int c) h e k =
    ap (λ b. done (b, h))
      (sym (law.less-of_int a c)
        ∙ law.less_trans (F.of_int a) b (F.of_int c) (pure_inv (F.less (F.of_int a) b) e)
            (pure_inv (F.less b (F.of_int c)) k))
variant_less_trans F law (Variant.int a) (Variant.double b) (Variant.double c) h e k =
    ap (λ b. done (b, h))
      (law.less_trans (F.of_int a) b c (pure_inv (F.less (F.of_int a) b) e)
        (pure_inv (F.less b c) k))
variant_less_trans F law (Variant.int a) (Variant.double b) (Variant.text c _) h e k = cc
variant_less_trans F law (Variant.int a) (Variant.double b) (Variant.matrix _) h e k = cc
variant_less_trans F law (Variant.int a) (Variant.double b) (Variant.error _ _) h e k = cc
variant_less_trans F law (Variant.int a) (Variant.double b) (Variant.function _ _ _) h e k = cc
variant_less_trans F law (Variant.int a) (Variant.text b _) c h e k = cc
variant_less_trans F law (Variant.int a) (Variant.matrix _) c h e k = cc
variant_less_trans F law (Variant.int a) (Variant.error _ _) c h e k = cc
variant_less_trans F law (Variant.int a) (Variant.function _ _ _) c h e k = cc
variant_less_trans F law (Variant.double a) Variant.empty c h e k = cc
variant_less_trans F law (Variant.double a) (Variant.bool _) c h e k = cc
variant_less_trans F law (Variant.double a) (Variant.int b) Variant.empty h e k = cc
variant_less_trans F law (Variant.double a) (Variant.int b) (Variant.bool _) h e k = cc
variant_less_trans F law (Variant.double a) (Variant.int b) (Variant.int c) h e k =
    ap (λ b. done (b, h))
      (law.less_trans a (F.of_int b) (F.of_int c) (pure_inv (F.less a (F.of_int b)) e)
        (law.less-of_int b c ∙ pure_inv (ltb_ℤ b c) k))
variant_less_trans F law (Variant.double a) (Variant.int b) (Variant.double c) h e k =
    ap (λ b. done (b, h))
      (law.less_trans a (F.of_int b) c (pure_inv (F.less a (F.of_int b)) e)
        (pure_inv (F.less (F.of_int b) c) k))
variant_less_trans F law (Variant.double a) (Variant.int b) (Variant.text c _) h e k = cc
variant_less_trans F law (Variant.double a) (Variant.int b) (Variant.matrix _) h e k = cc
variant_less_trans F law (Variant.double a) (Variant.int b) (Variant.error _ _) h e k = cc
variant_less_trans F law (Variant.double a) (Variant.int b) (Variant.function _ _ _) h e k = cc
variant_less_trans F law (Variant.double a) (Variant.double b) Variant.empty h e k = cc
variant_less_trans F law (Variant.double a) (Variant.double b) (Variant.bool _) h e k = cc
variant_less_trans F law (Variant.double a) (Variant.double b) (Variant.int c) h e k =
    ap (λ b. done (b, h))
      (law.less_trans a b (F.of_int c) (pure_inv (F.less a b) e)
        (pure_inv (F.less b (F.of_int c)) k))
variant_less_trans F law (Variant.double a) (Variant.double b) (Variant.double c) h e k =
    ap (λ b. done (b, h)) (law.less_trans a b c (pure_inv (F.less a b) e) (pure_inv (F.less b c) k))
variant_less_trans F law (Variant.double a) (Variant.double b) (Variant.text c _) h e k = cc
variant_less_trans F law (Variant.double a) (Variant.double b) (Variant.matrix _) h e k = cc
variant_less_trans F law (Variant.double a) (Variant.double b) (Variant.error _ _) h e k = cc
variant_less_trans F law (Variant.double a) (Variant.double b) (Variant.function _ _ _) h e k = cc
variant_less_trans F law (Variant.double a) (Variant.text b _) c h e k = cc
variant_less_trans F law (Variant.double a) (Variant.matrix _) c h e k = cc
variant_less_trans F law (Variant.double a) (Variant.error _ _) c h e k = cc
variant_less_trans F law (Variant.double a) (Variant.function _ _ _) c h e k = cc
variant_less_trans F law (Variant.text a _) Variant.empty c h e k = cc
variant_less_trans F law (Variant.text a _) (Variant.bool _) c h e k = cc
variant_less_trans F law (Variant.text a _) (Variant.int b) c h e k = cc
variant_less_trans F law (Variant.text a _) (Variant.double b) c h e k = cc
variant_less_trans F law (Variant.text a _) (Variant.text b _) Variant.empty h e k = cc
variant_less_trans F law (Variant.text a _) (Variant.text b _) (Variant.bool _) h e k = cc
variant_less_trans F law (Variant.text a _) (Variant.text b _) (Variant.int c) h e k = cc
variant_less_trans F law (Variant.text a _) (Variant.text b _) (Variant.double c) h e k = cc
variant_less_trans F law (Variant.text a _) (Variant.text b _) (Variant.text c _) h e k =
    let (s, t, p, q, r) = less_inv h a b e in
    let (t2, u, q2, w, r2) = less_inv h b c k in
    let same : t ≡ t2 = cc in rw (p, w, strcmp_trans s t u r (rw same r2))
variant_less_trans F law (Variant.text a _) (Variant.text b _) (Variant.matrix _) h e k = cc
variant_less_trans F law (Variant.text a _) (Variant.text b _) (Variant.error _ _) h e k = cc
variant_less_trans F law (Variant.text a _) (Variant.text b _) (Variant.function _ _ _) h e k = cc
variant_less_trans F law (Variant.text a _) (Variant.matrix _) c h e k = cc
variant_less_trans F law (Variant.text a _) (Variant.error _ _) c h e k = cc
variant_less_trans F law (Variant.text a _) (Variant.function _ _ _) c h e k = cc
variant_less_trans F law (Variant.matrix _) b c h e k = cc
variant_less_trans F law (Variant.error _ _) b c h e k = cc
variant_less_trans F law (Variant.function _ _ _) b c h e k = cc

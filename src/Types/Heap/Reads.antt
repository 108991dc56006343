-- ===== src/Types/Heap/Reads.antt =====
-- Programs over the heap that only read it, and the loops of Types/Heap.antt over them.
use arnovich_core.Base.{
  ℕ, zero, suc, ◌+◌, ◌<◌, ◌≡◌, refl, sym, ap, ◌∙◌, ◌↔◌, ◌⊎◌, inl, inr, Bool, true, false, List,
  arith, if◌then◌else◌, Outcome, done, fault,
}
use arnovich_core.Types.Heap.{
  Heap, M, pure, and_then, ◌>>=◌, lift, load_chars, all_range, as_chars, block_at,
}

-- A read that leaves the heap as it is.
abbrev pub Reads : {D A : Type 0} → M D A → Type 0
Reads {D} {A} m = (h : Heap D) → (m h ≡ fault) ⊎ ((a : A) × (m h ≡ done (a, h)))

pub load_chars-Reads : {D : Type 0} (p : ℕ) → Reads {D = D} (load_chars p)
unfolding load_chars
load_chars-Reads p h = go (as_chars (block_at h p))
  where
    go : (o : Outcome (List ℕ)) → (lift o h ≡ fault) ⊎ ((a : List ℕ) × (lift o h ≡ done (a, h)))
    go (done s) = inr (s, refl)
    go fault = inl refl

pub and_then_assoc :
    {D A B C : Type 0} (o : Outcome (A × Heap D)) (f : A → M D B) (g : B → M D C)
    → and_then (and_then o f) g ≡ and_then o (λ a h. and_then (f a h) g)
and_then_assoc (done (a, h)) f g = refl
and_then_assoc fault f g = refl

-- Two reads commute.
pub Reads-swap :
    {D A B C : Type 0} (m : M D A) (n : M D B) (f : A → B → M D C) (g : B → A → M D C)
    → Reads m
    → Reads n
    → ((a : A) (b : B) (h : Heap D) → f a b h ≡ g b a h)
    → (h : Heap D) → (m >>= λ a. n >>= λ b. f a b) h ≡ (n >>= λ b. m >>= λ a. g b a) h
Reads-swap m n f g r s same h = go (m h) refl (r h) (n h) refl (s h)
  where
    go :
        (o : Outcome (_ × Heap _))
        → m h ≡ o
        → (o ≡ fault) ⊎ ((a : _) × (o ≡ done (a, h)))
        → (u : Outcome (_ × Heap _)) → n h ≡ u
        → (u ≡ fault) ⊎ ((b : _) × (u ≡ done (b, h)))
        → and_then o (λ a k. and_then (n k) (λ b. f a b))
          ≡ and_then u (λ b k. and_then (m k) (λ a. g b a))
    go o e (inl x) u d (inl y) = rw (x, y)
    go o e (inl x) u d (inr (b, y)) = rw (x, y, e, x)
    go o e (inr (a, x)) u d (inl y) = rw (x, y, d, y)
    go o e (inr (a, x)) u d (inr (b, y)) = rw (x, y, e, d, x, y) (same a b h)

pub all_range-cong :
    {D : Type 0} (n i : ℕ) (f g : ℕ → M D Bool)
    → ((k : ℕ) (h : Heap D) → f k h ≡ g k h)
    → (h : Heap D) → all_range n i f h ≡ all_range n i g h
unfolding all_range
all_range-cong zero i f g same h = refl
all_range-cong (suc n) i f g same h = rw (same i h) (go (g i h) (all_range-cong n (suc i) f g same))
  where
    go :
        (o : Outcome (Bool × Heap _))
        → ((k : Heap _) → all_range n (suc i) f k ≡ all_range n (suc i) g k)
        → and_then o (λ b. if b then all_range n (suc i) f else pure false)
          ≡ and_then o (λ b. if b then all_range n (suc i) g else pure false)
    go (done (true, k)) rest = rest k
    go (done (false, k)) rest = refl
    go fault rest = refl

add_zero : (i : ℕ) → i + 0 ≡ i
add_zero i = omega arith

zero_add : (i : ℕ) → 0 + i ≡ i
zero_add i = omega arith

add_suc : (i k : ℕ) → i + suc k ≡ suc i + k
add_suc i k = omega arith

pub bind-Reads :
    {D A B : Type 0} (m : M D A) (f : A → M D B)
    → Reads m
    → ((a : A) → Reads (f a))
    → Reads (m >>= f)
bind-Reads m f r s h = elim (r h) [ inl e ↦ inl (rw e) | inr (a, e) ↦ rw e (s a h) ]

pub pure-Reads : {D A : Type 0} (a : A) → Reads {D = D} (pure a)
pure-Reads a h = inr (a, refl)

pub lift-Reads : {D A : Type 0} (o : Outcome A) → Reads {D = D} (lift o)
lift-Reads (done a) h = inr (a, refl)
lift-Reads fault h = inl refl

pub if-Reads :
    {D A : Type 0} (b : Bool) {m n : M D A} → Reads m → Reads n → Reads (if b then m else n)
if-Reads true r s = r
if-Reads false r s = s

pub all_range-Reads :
    {D : Type 0} (n i : ℕ) (f : ℕ → M D Bool) → ((k : ℕ) → Reads (f k)) → Reads (all_range n i f)
unfolding all_range
all_range-Reads zero i f r = pure-Reads true
all_range-Reads (suc n) i f r =
    bind-Reads (f i) _ (r i) (λ b. if-Reads b (all_range-Reads n (suc i) f r) (pure-Reads false))

-- Inversion of a read followed by a program that returns.
pub bind-done :
    {D A B : Type 0} (m : M D A) (f : A → M D B)
    → Reads m
    → (h : Heap D) {b : B} → (m >>= f) h ≡ done (b, h)
    → (a : A) × (m h ≡ done (a, h)) × (f a h ≡ done (b, h))
bind-done m f r h {b} e = elim (r h) [
  | inl x ↦ absurd (cc (rw x at e))
  | inr (a, x) ↦ (a, x, rw x at e)
]

pub if_true :
    {D : Type 0} (b : Bool) (m : M D Bool) (h : Heap D)
    → (if b then m else pure false) h ≡ done (true, h)
    → (b ≡ true) × (m h ≡ done (true, h))
if_true true m h e = (refl, e)
if_true false m h e = absurd (cc)

-- A loop answers true exactly where each of its tests does.
all_range-true :
    {D : Type 0} (n i : ℕ) (f : ℕ → M D Bool)
    → ((k : ℕ) → Reads (f k))
    → (h : Heap D) → all_range n i f h ≡ done (true, h)
    → (k : ℕ) → k < n
    → f (i + k) h ≡ done (true, h)
unfolding all_range
all_range-true zero i f r h e k x = absurd (omega arith)
all_range-true (suc n) i f r h e zero x =
    let (b, p, q) = bind-done (f i) _ (r i) h e in
    let (t, rest) = if_true b (all_range n (suc i) f) h q in rw (add_zero i, p, t)
all_range-true (suc n) i f r h e (suc k) x =
    let (b, p, q) = bind-done (f i) _ (r i) h e in
    let (t, rest) = if_true b (all_range n (suc i) f) h q in
    rw (add_suc i k) (all_range-true n (suc i) f r h rest k (omega arith))

all_range-all :
    {D : Type 0} (n i : ℕ) (f : ℕ → M D Bool) (h : Heap D)
    → ((k : ℕ) → k < n → f (i + k) h ≡ done (true, h))
    → all_range n i f h ≡ done (true, h)
unfolding all_range
all_range-all zero i f h all = refl
all_range-all (suc n) i f h all =
    let first : f i h ≡ done (true, h) = ap (λ k. f k h) (sym (add_zero i)) ∙ all 0 (omega arith) in
    rw first (
      all_range-all n (suc i) f h
        (λ k x. ap (λ k. f k h) (sym (add_suc i k)) ∙ all (suc k) (omega arith)))

pub loop_iff :
    {D : Type 0} (n : ℕ) (f : ℕ → M D Bool)
    → ((k : ℕ) → Reads (f k))
    → (h : Heap D)
    → (all_range n 0 f h ≡ done (true, h)) ↔ ((k : ℕ) → k < n → f k h ≡ done (true, h))
loop_iff n f r h = (
  (λ e k x. ap (λ i. f i h) (sym (zero_add k)) ∙ all_range-true n 0 f r h e k x),
  (λ all. all_range-all n 0 f h (λ k x. ap (λ i. f i h) (zero_add k) ∙ all k x)),
)

-- ===== src/Types/Heap/Blocks.antt =====
-- Blocks of the heap after malloc, free and writes.
use arnovich_core.Base.{ℕ, zero, suc, ◌≡◌, refl, ap, Option, some, [], ◌∷◌, ◌++◌, set, length}
use arnovich_core.Types.Heap.{Block, Heap, block_at}

pub block_at-append :
    {D : Type 0} (h g : Heap D) (p : ℕ) (b : Block D)
    → block_at h p ≡ some b
    → block_at (h ++ g) p ≡ some b
block_at-append [] g p b e = absurd (cc)
block_at-append (o ∷ h) g zero b e = e
block_at-append (o ∷ h) g (suc p) b e = block_at-append h g p b e

pub block_at-append_last :
    {D : Type 0} (h : Heap D) (b : Block D) → block_at (h ++ some b ∷ []) (length h) ≡ some b
block_at-append_last [] b = refl
block_at-append_last (o ∷ h) b = block_at-append_last h b

pub set-append_last :
    {D : Type 0} (h : Heap D) (b c : Option (Block D))
    → set (h ++ b ∷ []) (length h) c ≡ h ++ c ∷ []
set-append_last [] b c = refl
set-append_last (o ∷ h) b c = ap (λ t. o ∷ t) (set-append_last h b c)

pub set-live :
    {D : Type 0} (h : Heap D) (p : ℕ) (b c : Block D)
    → block_at h p ≡ some b
    → block_at (set h p (some c)) p ≡ some c
set-live [] p b c e = absurd (cc)
set-live (o ∷ h) zero b c e = refl
set-live (o ∷ h) (suc p) b c e = set-live h p b c e

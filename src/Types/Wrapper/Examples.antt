-- ===== src/Types/Wrapper/Examples.antt =====
-- Runs of the class `variant`.
use arnovich_core.Base.{
  ℕ, zero, suc, ◌<◌, ◌≡◌, refl, sym, ap, ◌∙◌, inl, inr, ◌⊎◌, none, some, List, [], ◌∷◌, arith, pos,
  done, fault,
}
use arnovich_core.Types.Value.{Variant}
use arnovich_core.Types.Heap.{block_at}
use arnovich_core.Types.Wrapper.{Shared, Memory, Constructor, counter_at, assign}
use arnovich_core.Types.Wrapper.Ownership.{count, In, block, expected, IsOwned}
use arnovich_core.Types.Wrapper.Assigning.{assign_self}
use arnovich_core.Types.Wrapper.Runs.{Action, make, copy, assigned, destroy}

-- Two strings; the first is shared and then taken over by the second.
abbrev acts : List (Action ℕ)
acts =
    make (Constructor.make_string (65 ∷ []))
    ∷ make (Constructor.make_string (66 ∷ []))
    ∷ copy 1
    ∷ assigned 1 0
    ∷ destroy 0
    ∷ destroy 0
    ∷ destroy 0
    ∷ []

abbrev one_object : Shared ℕ
one_object = record { m_count = 1; m_v = Variant.int (pos 7) }

abbrev one_memory : Memory ℕ
one_memory = record { counters = none ∷ some (pos 1) ∷ []; heap = none ∷ [] }

one_object-IsOwned : IsOwned (one_object ∷ []) one_memory
one_object-IsOwned = record {
  counters_null = refl;
  heap_null = refl;
  counts = one_count;
  agree = λ a b i j same. ap (λ (x : Shared ℕ). x.m_v) (is_one a i ∙ sym (is_one b j));
  live = λ a i n. absurd (n (ap (λ (x : Shared ℕ). block x.m_v) (is_one a i)));
  apart = λ a b i j d n. absurd (n (ap (λ (x : Shared ℕ). block x.m_v) (is_one a i)));
  kept = λ q b e. absurd (cc (no_block q, e));
}
  where
    is_one : (a : Shared ℕ) → In a (one_object ∷ []) → a ≡ one_object
    is_one a (inl e) = e
    is_one a (inr i) = absurd i

    one_count : (p : ℕ) → counter_at one_memory p ≡ expected (count p (one_object ∷ []))
    one_count zero = refl
    one_count (suc zero) = refl
    one_count (suc (suc p)) = ground arith

    no_block : (q : ℕ) → block_at one_memory.heap q ≡ none
    no_block zero = refl
    no_block (suc q) = refl

assign_self_example :
    ((count {D = ℕ} 1 [] ≡ 0) × (assign one_object one_object one_memory ≡ fault))
    ⊎ ((0 < count {D = ℕ} 1 [])
        × (m' : Memory ℕ) × (assign one_object one_object one_memory ≡ done (one_object, m'))
        × IsOwned (one_object ∷ []) m')
assign_self_example = assign_self one_object [] one_memory one_object-IsOwned (omega arith)

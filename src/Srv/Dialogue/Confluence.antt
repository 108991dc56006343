-- ===== src/Srv/Dialogue/Confluence.antt =====
-- The steps of a client and a server commute.
pub mod Ends
use arnovich_core.Base.{
  ℕ, zero, suc, ◌+◌, ◌≤◌, ◌<◌, ◌≡◌, refl, sym, ◌∙◌, ap, ◌≢◌, ◌⊎◌, inl, inr, Option, some, none,
  List, [], ◌∷◌, ◌++◌, append_assoc, append-nil, arith, ℤ, pos, eqb_ℤ, eqb_ℤ_refl, eq_of_eqb_ℤ,
  Bool, true, false, Bool-cases, leb, if◌then◌else◌, length, length-append, take, drop,
  take-append-drop, length-take,
}
use mathlib.Core.Path.{subst}
use arnovich_core.Srv.Dialogue.Taken.{taken, taken-append, taken_front, reads_taken, ne→eqb_ℤ}
use arnovich_core.Srv.Types.{Timeval, Tickers}
use arnovich_core.Srv.Io.{Io, ret, crash, read, write, store, clock, Received, got}
use arnovich_core.Srv.Dialogue.{
  Config, config, Step, client_writes, client_reads, server_writes, server_reads, server_sends,
  server_stores, server_clocks, Steps, here, next,
}
use arnovich_core.Srv.Dialogue.Moves.{client_step, server_step, commute}

module _ {A B : Type 0} (c s : ℤ) (now : Timeval) where
  pub Step-cases :
      (x y : Config A B)
      → Step c s now x y
      → (client_step c s now x ≡ some y) ⊎ (server_step c s now x ≡ some y)
  unfolding client_step server_step
  Step-cases x y (client_writes bs k m up down ts o) = inl (rw (eqb_ℤ_refl c))
  Step-cases x y (client_reads bs k m up down ts o) = inl (rw (eqb_ℤ_refl c, taken_front bs down))
  Step-cases x y (server_writes bs m k up down ts o) = inr (rw (eqb_ℤ_refl s))
  Step-cases x y (server_reads bs m k up down ts o) = inr (rw (eqb_ℤ_refl s, taken_front bs up))
  Step-cases x y (server_sends fd bs m k up down ts o ne) = inr (rw (ne→eqb_ℤ fd s ne))
  Step-cases x y (server_stores f m k up down ts o) = inr refl
  Step-cases x y (server_clocks m k up down ts o) = inr refl

  -- A step function's answer is a step.
  client_step-Step : (x y : Config A B) → client_step c s now x ≡ some y → Step c s now x y
  unfolding client_step
  client_step-Step (config (ret a) m up down ts o) y e = absurd (cc)
  client_step-Step (config crash m up down ts o) y e = absurd (cc)
  client_step-Step (config (store f k) m up down ts o) y e = absurd (cc)
  client_step-Step (config (clock k) m up down ts o) y e = absurd (cc)
  client_step-Step (config (write fd bs k) m up down ts o) y e = elim (Bool-cases (eqb_ℤ fd c)) [
    | inl t ↦
        let same : fd ≡ c = eq_of_eqb_ℤ fd c t in
        let at : config (k (length bs)) m (up ++ bs) down ts o ≡ y = cc (rw t at e) in
        rw same (
          subst (Step c s now (config (write c bs k) m up down ts o)) at
            (client_writes bs k m up down ts o))
    | inr t ↦ absurd (cc (rw t at e))
  ]
  client_step-Step (config (read fd n k) m up down ts o) y e = elim (Bool-cases (eqb_ℤ fd c)) [
    | inl t ↦ elim (Bool-cases (leb n (length down))) [
      | inl l ↦
          let same : fd ≡ c = eq_of_eqb_ℤ fd c t in
          let at : config (k (got (take n down))) m up (drop n down) ts o ≡ y =
            cc (rw (t, l) at e) in
          rw same (
            subst (Step c s now (config (read c n k) m up down ts o)) at (
              reads_taken n down (ground arith)
                (λ n down z. Step c s now (config (read c n k) m up down ts o) z)
                (λ bs rest. config (k (got bs)) m up rest ts o)
                (λ bs rest. client_reads bs k m up rest ts o)))
      | inr l ↦ absurd (cc (rw (t, l) at e))
    ]
    | inr t ↦ absurd (cc (rw t at e))
  ]

  server_step-Step : (x y : Config A B) → server_step c s now x ≡ some y → Step c s now x y
  unfolding server_step
  server_step-Step (config m (ret a) up down ts o) y e = absurd (cc)
  server_step-Step (config m crash up down ts o) y e = absurd (cc)
  server_step-Step (config m (store f k) up down ts o) y e =
      let at : config m (k ts) up down (f ts) o ≡ y = cc in
      subst (Step c s now (config m (store f k) up down ts o)) at (server_stores f m k up down ts o)
  server_step-Step (config m (clock k) up down ts o) y e =
      let at : config m (k now) up down ts o ≡ y = cc in
      subst (Step c s now (config m (clock k) up down ts o)) at (server_clocks m k up down ts o)
  server_step-Step (config m (write fd bs k) up down ts o) y e = elim (Bool-cases (eqb_ℤ fd s)) [
    | inl t ↦
        let same : fd ≡ s = eq_of_eqb_ℤ fd s t in
        let at : config m (k (length bs)) up (down ++ bs) ts o ≡ y = cc (rw t at e) in
        rw same (
          subst (Step c s now (config m (write s bs k) up down ts o)) at
            (server_writes bs m k up down ts o))
    | inr t ↦
        let other : fd ≢ s = λ same. cc (eqb_ℤ_refl s, t, same) in
        let at : config m (k (length bs)) up down ts ((fd, bs) ∷ o) ≡ y = cc (rw t at e) in
        subst (Step c s now (config m (write fd bs k) up down ts o)) at
          (server_sends fd bs m k up down ts o other)
  ]
  server_step-Step (config m (read fd n k) up down ts o) y e = elim (Bool-cases (eqb_ℤ fd s)) [
    | inl t ↦ elim (Bool-cases (leb n (length up))) [
      | inl l ↦
          let same : fd ≡ s = eq_of_eqb_ℤ fd s t in
          let at : config m (k (got (take n up))) (drop n up) down ts o ≡ y = cc (rw (t, l) at e) in
          rw same (
            subst (Step c s now (config m (read s n k) up down ts o)) at (
              reads_taken n up (ground arith)
                (λ n up z. Step c s now (config m (read s n k) up down ts o) z)
                (λ bs rest. config m (k (got bs)) rest down ts o)
                (λ bs rest. server_reads bs m k rest down ts o)))
      | inr l ↦ absurd (cc (rw (t, l) at e))
    ]
    | inr t ↦ absurd (cc (rw t at e))
  ]

  -- Two steps from one configuration are the same or meet again after one more step each.
  pub diamond :
      (x y z : Config A B)
      → Step c s now x y
      → Step c s now x z
      → (y ≡ z) ⊎ ((w : Config A B) × Step c s now y w × Step c s now z w)
  diamond x y z p q = elim (Step-cases x y p) [
    | inl e ↦ elim (Step-cases x z q) [
      | inl d ↦ inl (cc)
      | inr d ↦
          let (w, f, g) = commute c s now x y z e d in
          inr (w, server_step-Step y w f, client_step-Step z w g)
    ]
    | inr e ↦ elim (Step-cases x z q) [
      | inl d ↦
          let (w, f, g) = commute c s now x z y d e in
          inr (w, client_step-Step y w g, server_step-Step z w f)
      | inr d ↦ inl (cc)
    ]
  ]

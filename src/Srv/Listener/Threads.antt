-- ===== src/Srv/Listener/Threads.antt =====
-- The variable `ns` of srv_run_server (src/lib/core_srv/core_srv_server.c): each thread is given its
-- address, and reads it as the first thing it does, while the loop goes on to accept.
use arnovich_core.Base.{
  ℕ, zero, suc, ◌≡◌, refl, sym, ap, ◌∙◌, ◌≢◌, ◌⊎◌, inl, inr, false, List, [], ◌∷◌, ℤ, pos,
}
use arnovich_core.Srv.Client.{is_negative}

-- `ns`, how many threads have not read it yet, and the connections that threads serve, the last
-- thread to read first.
pub record Starting : Type 0 where
  pub ns : ℤ
  pub waiting : ℕ
  pub serving : List ℤ

-- From `s` on connections are accepted, the last first, and threads read `ns`: `accepts` is one round of
-- the loop up to pthread_create, `reads` the first statement of a thread that has not run yet.
pub data Run (s : Starting) : List ℤ → Starting → Type 0 where
  here : Run s [] s
  accepts :
      {cs : List ℤ} {t : Starting} (c : ℤ)
      → is_negative c ≡ false
      → Run s cs t
      → Run s (c ∷ cs) (record { ns = c; waiting = suc t.waiting; serving = t.serving })
  reads :
      {cs : List ℤ} {t : Starting} (n : ℕ)
      → t.waiting ≡ suc n
      → Run s cs t
      → Run s cs (record { ns = t.ns; waiting = n; serving = t.ns ∷ t.serving })

abbrev pub Occurs : ℤ → List ℤ → Type 0
Occurs a [] = ⊥
Occurs a (c ∷ cs) = (a ≡ c) ⊎ Occurs a cs

-- `ns` is another connection, and no thread serves this one.
never_read :
    (s t : Starting) (a : ℤ) (cs : List ℤ)
    → Run s cs t
    → s.ns ≢ a
    → ¬ Occurs a s.serving
    → ¬ Occurs a cs
    → (t.ns ≢ a) × (¬ Occurs a t.serving)
never_read s t a cs here other unserved absent = (other, unserved)
never_read s t a cs (accepts {cs = before} {t = u} c _ r) other unserved absent =
    let (_, ih) = never_read s u a before r other unserved (λ i. absent (inr i)) in
    ((λ e. absent (inl (sym e))), ih)
never_read s t a cs (reads {t = u} n _ r) other unserved absent =
    let (ne, ih) = never_read s u a cs r other unserved absent in
    (ne, (λ i. elim i [ inl e ↦ ne (sym e) | inr j ↦ ih j ]))

-- If a connection is accepted while no thread has read the one before it, no thread ever serves that
-- one, however the server and its threads go on, unless its number is accepted again.
pub accepts-loses :
    (s : Starting) (c : ℤ)
    → ¬ Occurs s.ns s.serving
    → c ≢ s.ns
    → (ds : List ℤ) (t : Starting)
    → Run (record { ns = c; waiting = suc s.waiting; serving = s.serving }) ds t
    → ¬ Occurs s.ns ds
    → ¬ Occurs s.ns t.serving
accepts-loses s c unserved other ds t r absent =
    (never_read (record { ns = c; waiting = suc s.waiting; serving = s.serving }) t s.ns ds r other
      unserved absent).1

-- Every connection is accepted when all threads have read theirs.
abbrev pub InTurn : {s t : Starting} {cs : List ℤ} → Run s cs t → Type 0
InTurn here = Unit
InTurn (accepts {t = u} c _ r) = (u.waiting ≡ 0) × InTurn r
InTurn (reads n _ r) = InTurn r

-- What will be served once `n` threads that wait have read.
abbrev pub to_serve : ℤ → List ℤ → ℕ → List ℤ
to_serve ns serving zero = serving
to_serve ns serving (suc n) = ns ∷ to_serve ns serving n

to_serve-read :
    (ns : ℤ) (serving : List ℤ) (n : ℕ) → to_serve ns (ns ∷ serving) n ≡ to_serve ns serving (suc n)
to_serve-read ns serving zero = refl
to_serve-read ns serving (suc n) = ap (λ l. ns ∷ l) (to_serve-read ns serving n)

abbrev pub idle : Starting
idle = record { ns = pos 0; waiting = 0; serving = [] }

-- In turn, each connection that is accepted is served by one thread, or will be by one that waits.
pub InTurn-serves :
    (t : Starting) (cs : List ℤ) (r : Run idle cs t)
    → InTurn r
    → to_serve t.ns t.serving t.waiting ≡ cs
InTurn-serves t cs here turn = refl
InTurn-serves t cs (accepts {cs = before} {t = u} c _ r) (none_waits, turn) =
    let ih = InTurn-serves u before r turn in
    let now = ap (to_serve c u.serving) none_waits in
    let then' = ap (to_serve u.ns u.serving) none_waits in ap (λ l. c ∷ l) (now ∙ sym then' ∙ ih)
InTurn-serves t cs (reads {t = u} n e r) turn =
    to_serve-read u.ns u.serving n
    ∙ sym (ap (to_serve u.ns u.serving) e)
    ∙ InTurn-serves u cs r turn

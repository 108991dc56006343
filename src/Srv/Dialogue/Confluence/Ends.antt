-- ===== src/Srv/Dialogue/Confluence/Ends.antt =====
-- A dialogue that can end, ends, and in the same way, whichever program moves first.
use arnovich_core.Base.{
  ℕ, suc, ◌*◌, ◌%◌, ◌^◌, ◌≤◌, ◌<◌, ◌≡◌, refl, sym, ◌≢◌, inl, inr, some, List, [], arith, ℤ, pos,
  length, done,
}
use mathlib.Core.Path.{subst}
use arnovich_core.Srv.Types.{success, Timeval, Ticker, Tickers, srv_buffer_len}
use arnovich_core.Base.{All}
use arnovich_core.Srv.Dialogue.Notify.{all_notified}
use arnovich_core.Srv.Wire.Decode.{IsTime}
use arnovich_core.Srv.Data.{srv_push_tick, srv_pull_tick, Pulled}
use arnovich_core.Srv.Data.Valid.{Holds}
use arnovich_core.Srv.Io.{ret}
use arnovich_core.Srv.Thread.{Thread, overflow_len}
use arnovich_core.Srv.Server.{serve_command}
use arnovich_core.Srv.Client.{srv_client_push_tick, srv_client_pull_tick}
use arnovich_core.Srv.Dialogue.{Config, config, Step, Steps, here, next}
use arnovich_core.Srv.Dialogue.Confluence.{Step-cases, diamond}
use arnovich_core.Srv.Dialogue.Moves.{client_step, server_step}
use arnovich_core.Srv.Dialogue.Push.{pushed, push_dialogue}
use arnovich_core.Srv.Dialogue.Pull.{pulled_by, pull_dialogue}

-- No step follows.
abbrev IsFinal : {A B : Type 0} (c s : ℤ) (now : Timeval) → Config A B → Type 0
IsFinal {A} {B} c s now z = (w : Config A B) → Step c s now z w → ⊥

module _ {A B : Type 0} {c s : ℤ} {now : Timeval} where
  abbrev pub count : {x y : Config A B} → Steps c s now x y → ℕ
  count here = 0
  count (next st rest) = suc (count rest)

  -- Where one execution ends, every first step leads to the same end in one step less.
  ends_after :
      {x y z : Config A B} (run : Steps c s now x z)
      → IsFinal c s now z
      → Step c s now x y
      → (rest : Steps c s now y z) × (count run ≡ suc (count rest))
  ends_after here final st = absurd (final _ st)
  ends_after {x} {y} {z} (next {y = u} first rest) final st =
      elim (diamond c s now x y u st first) [
        | inl e ↦
            subst (λ y. (r : Steps c s now y z) × (suc (count rest) ≡ suc (count r))) (sym e)
              (rest, refl)
        | inr (w, f, g) ↦ let (r, n) = ends_after rest final g in (next f r, omega (arith, n))
      ]

  ends_from :
      {x y z : Config A B} (run : Steps c s now x z)
      → IsFinal c s now z
      → (e : Steps c s now x y) → (count e ≤ count run) × Steps c s now y z
  ends_from run final here = (omega arith, run)
  ends_from run final (next st rest) =
      let (r, n) = ends_after run final st in
      let (m, more) = ends_from r final rest in (omega (arith, n, m), more)

-- Every execution from `x` has at most some number of steps and can go on to `z` alone.
abbrev pub AlwaysEnds : {A B : Type 0} (c s : ℤ) (now : Timeval) → Config A B → Config A B → Type 0
AlwaysEnds {A} {B} c s now x z =
    (n : ℕ) × ((y : Config A B) (e : Steps c s now x y) → (count e ≤ n) × Steps c s now y z)

returned-IsFinal :
    {A B : Type 0} {c s : ℤ} {now : Timeval} (a : A) (b : B) (up down : List ℕ) (ts : Tickers)
    (o : List (ℤ × List ℕ))
    → IsFinal c s now (config (ret a) (ret b) up down ts o)
unfolding client_step server_step
returned-IsFinal {c} {s} {now} a b up down ts o w st =
    elim (Step-cases c s now (config (ret a) (ret b) up down ts o) w st) [ inl e ↦ cc | inr e ↦ cc ]

always_ends :
    {A B : Type 0} {c s : ℤ} {now : Timeval} {x : Config A B} (a : A) (b : B) (up down : List ℕ)
    (ts : Tickers) (o : List (ℤ × List ℕ))
    → Steps c s now x (config (ret a) (ret b) up down ts o)
    → AlwaysEnds c s now x (config (ret a) (ret b) up down ts o)
always_ends a b up down ts o run =
    (count run, λ y e. ends_from run (returned-IsFinal a b up down ts o) e)

-- However a push of data shorter than 2147488000 bytes, no multiple of 8000, is scheduled, to an
-- existing ticker whose id fits an int and to which the thread's own connection has not subscribed: the
-- steps of the client and of the server's thread are bounded in number, and at each point the two can
-- only go on to the same end, where the client has returned success, the store is that of srv_push_tick
-- with the very data, and each subscriber has been sent the data with the time that the thread's
-- variable `datetime` had.
pub push_always :
    (c : ℤ) (t : Thread) (fill : ℕ) (now : Timeval) (ts ts' : Tickers) (o : List (ℤ × List ℕ))
    (i : ℕ) (xs : List ℕ) (u : Ticker)
    → length xs % srv_buffer_len ≢ 0
    → length xs < overflow_len
    → 2 * i < 2 ^ 32
    → srv_push_tick now ts (pos i) xs (length xs) ≡ done (success, ts')
    → Holds ts' i u
    → All (λ fd. fd ≢ t.connection) u.m_subscribers
    → AlwaysEnds c t.connection now
        (config (srv_client_push_tick c (pos i) xs (length xs)) (serve_command fill t) [] [] ts o)
        (config
          (ret (pos 0))
          (ret (some (pushed t i (length xs))))
          []
          []
          ts'
          (all_notified xs t.datetime u.m_subscribers o))
push_always c t fill now ts ts' o i xs u partial small int run at others =
    always_ends (pos 0) (some (pushed t i (length xs))) [] [] ts'
      (all_notified xs t.datetime u.m_subscribers o)
      (push_dialogue c t fill now ts ts' o i xs u partial small int run at others)

-- However a pull is scheduled that finds a tick shorter than 2147488000 bytes, no multiple of 8000,
-- with an id and a time that fit their types: the steps are bounded in number, and at each point the
-- two can only go on to the same end, where the client has the tick's data, length and time.
pub pull_always :
    (c : ℤ) (t : Thread) (fill : ℕ) (now : Timeval) (ts : Tickers) (o : List (ℤ × List ℕ)) (i : ℕ)
    (xs : List ℕ) (d : Timeval) (out : Pulled)
    → length xs % srv_buffer_len ≢ 0
    → length xs < overflow_len
    → IsTime d
    → 2 * i < 2 ^ 32
    → srv_pull_tick ts (pos i)
      ≡ done (success, some (record { tickdata = xs; len = length xs; datetime = d }))
    → AlwaysEnds c t.connection now
        (config (srv_client_pull_tick c (pos i) out) (serve_command fill t) [] [] ts o)
        (config
          (ret (pos 0, record { tickdata = xs; len = length xs; datetime = d }))
          (ret (some (pulled_by t i (record { tickdata = xs; len = length xs; datetime = d }))))
          []
          []
          ts
          o)
pull_always c t fill now ts o i xs d out partial small time int run =
    let p : Pulled = record { tickdata = xs; len = length xs; datetime = d } in
    always_ends (pos 0, p) (some (pulled_by t i p)) [] [] ts o
      (pull_dialogue c t fill now ts o i xs d out partial small time int run)

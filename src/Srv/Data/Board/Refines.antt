-- ===== src/Srv/Data/Board/Refines.antt =====
-- The store of core_srv_data.c does what its board promises.
use arnovich_core.Base.{
  ℕ, ◌+◌, ◌^◌, ◌≤◌, ◌<◌, ◌≡◌, refl, sym, ap, ◌∙◌, inl, inr, none, some, List, [], ◌∷◌, ◌++◌, map,
  arith, ℤ, pos, length, get_elem?, set, length-set, length-append, done, ◌>>=◌, All,
}
use mathlib.Core.Path.{fun_ext}
use mathlib.Core.List.{map-append}
use arnovich_core.Base.CString.{cstring, IsText}
use arnovich_core.Base.CString.Order.{strcpy-text}
use arnovich_core.Srv.Types.{success, Timeval, Tick, Ticker, Tickers, srv_ticker_len}
use arnovich_core.Srv.Data.{
  srv_data_init_tickers, srv_add_ticker, srv_pull_tick, put_ticker, unlink, pull_newest,
}
use arnovich_core.Srv.Data.Valid.{
  TickIsValid, TickerIsValid, IsValid, Holds, not_past_end, ticker_at-Holds, Holds-IsValid,
  put_ticker-IsValid, new_ticker, memcpy-length, next_count-small, srv_add_ticker-IsValid,
  srv_data_init_tickers-IsValid,
}
use arnovich_core.Srv.Data.Timeline.{copy_out-TickIsValid}
use arnovich_core.Srv.Data.Push.{with_tick, srv_push_tick-with_tick}
use arnovich_core.Srv.Data.Subscribers.{with_subscribers, subscribe-with, unsubscribe-with}
use arnovich_core.Srv.Data.Free.{Refuses, past_end-Refuses}
use arnovich_core.Srv.Data.Board.{
  Topic, Board, Operation, add, push, pull, subscribe, unsubscribe, Reply, numbered, newest_of,
  on_topic, answered, promised, promised_run, actual, actual_run, Fits, entry, topic, board,
}
use arnovich_core.Srv.Data.Board.Views.{
  get_elem?-map, map-set, length-map, get_elem?-cases, get_elem?-none, text_of-cstring,
  times_in-unlink,
}

on_topic-missing :
    (b : Board) (i : ℕ) (m : Reply × Board) (f : Topic → Reply × Board)
    → get_elem? b i ≡ none
    → on_topic b i m f ≡ m
unfolding on_topic
on_topic-missing b i m f e = ap (λ o. elim o [ none ↦ m | some t ↦ f t ]) e

on_topic-there :
    (b : Board) (i : ℕ) (m : Reply × Board) (f : Topic → Reply × Board) (t : Topic)
    → get_elem? b i ≡ some t
    → on_topic b i m f ≡ f t
unfolding on_topic
on_topic-there b i m f t e = ap (λ o. elim o [ none ↦ m | some t ↦ f t ]) e

-- The operation returns with the promised reply, and the board of the new store is the promised one.
abbrev Refined : Tickers → Operation → Type 0
Refined ts op =
    (ts' : Tickers) × (actual op ts ≡ done ((promised op (board ts)).0, ts'))
    × (board ts' ≡ (promised op (board ts)).1)
    × IsValid ts'
    × (length ts'.m_tickers ≤ length ts.m_tickers + 1)

-- The two ways an id goes.
data OfId (ts : Tickers) (i : ℕ) : Type 0 where
  missing : Refuses ts (pos i) → get_elem? (board ts) i ≡ none → OfId ts i
  there : (t : Ticker) → Holds ts i t → get_elem? (board ts) i ≡ some (topic t) → OfId ts i

module _ (ts : Tickers) (v : IsValid ts) where
  of_id : (i : ℕ) → OfId ts i
  of_id i = elim (get_elem?-cases ts.m_tickers i) [
    | inl (le, e) ↦
        missing (past_end-Refuses ts i (omega (arith, v.counted)))
          (get_elem?-none topic ts.m_tickers i e)
    | inr (t, at) ↦ there t at (get_elem?-map topic ts.m_tickers i at)
  ]

  -- The store with another ticker at an id that is there.
  board-put_ticker :
      (i : ℕ) (u : Ticker) → board (put_ticker ts (pos i) u) ≡ set (board ts) i (topic u)
  unfolding put_ticker
  board-put_ticker i u = map-set topic ts.m_tickers i u

  put-Refined :
      (i : ℕ) {t : Ticker} (u : Ticker)
      → Holds ts i t
      → (TickerIsValid t → TickerIsValid u)
      → IsValid (put_ticker ts (pos i) u)
  put-Refined i u at keep = put_ticker-IsValid v i at u (keep (Holds-IsValid v i at))

  put-length :
      (i : ℕ) (u : Ticker) → length (put_ticker ts (pos i) u).m_tickers ≤ length ts.m_tickers + 1
  unfolding put_ticker
  put-length i u = omega (arith, length-set ts.m_tickers i u)

  refine-add :
      (s : List ℕ)
      → IsText s
      → length s < srv_ticker_len
      → length ts.m_tickers + 1 < 2 ^ 31
      → Refined ts (add s)
  unfolding actual
  refine-add s text fits room =
      let ts' : Tickers = record {
        m_tickers = ts.m_tickers ++ new_ticker s ∷ [];
        m_ntickers = ts.m_ntickers + 1;
      } in
      let added : srv_add_ticker ts (cstring s) ≡ done (success, ts.m_ntickers, ts') =
        unfold srv_add_ticker in
        rw (
          next_count-small ts.m_ntickers (omega (arith, v.counted)),
          memcpy-length ts.m_tickers ts.m_ntickers v.counted,
          strcpy-text srv_ticker_len s [] text fits,
        ) in
      let entitled : topic (new_ticker s) ≡ record { title = s; history = []; listeners = λ _. 0 } =
        ap (λ n. record { title = n; history = []; listeners = λ _. 0 }) (text_of-cstring s text) in
      (
        ts',
        rw added (
            ap (λ n. done (numbered success n, ts'))
              (v.counted ∙ sym (length-map topic ts.m_tickers))),
        map-append topic ts.m_tickers (new_ticker s ∷ [])
            ∙ ap (λ t. map topic ts.m_tickers ++ t ∷ []) entitled,
        srv_add_ticker-IsValid v (cstring s) added,
        omega (arith, length-append ts.m_tickers (new_ticker s ∷ [])),
      )

  refine-push : (now : Timeval) (i : ℕ) (b : List ℕ) → OfId ts i → Refined ts (push now i b)
  unfolding actual
  refine-push now i b (missing r gone) = (
    ts,
    rw (on_topic-missing _ i _ _ gone, r.push now b (length b)) refl,
    rw (on_topic-missing _ i _ _ gone) refl,
    v,
    omega arith,
  )
  refine-push now i b (there t at found) =
      let tick : Tick = record { m_datetime = now; m_data = b; m_len = length b } in
      let u = with_tick tick t in
      (
        put_ticker ts (pos i) u,
        rw (on_topic-there _ i _ _ _ found, srv_push_tick-with_tick v i at now b) refl,
        rw (on_topic-there _ i _ _ _ found) (board-put_ticker i u),
        put-Refined i u at (λ w. record { ticks = (refl, w.ticks); named = w.named }),
        put-length i u,
      )

  refine-subscribe : (i : ℕ) (c : ℤ) → OfId ts i → Refined ts (subscribe i c)
  unfolding actual
  refine-subscribe i c (missing r gone) = (
    ts,
    rw (on_topic-missing _ i _ _ gone, r.subscribe c) refl,
    rw (on_topic-missing _ i _ _ gone) refl,
    v,
    omega arith,
  )
  refine-subscribe i c (there t at found) =
      let u = with_subscribers (c ∷ t.m_subscribers) t in
      (
        put_ticker ts (pos i) u,
        rw (on_topic-there _ i _ _ _ found, subscribe-with v i at c) refl,
        rw (on_topic-there _ i _ _ _ found) (board-put_ticker i u),
        put-Refined i u at (λ w. record { ticks = w.ticks; named = w.named }),
        put-length i u,
      )

  refine-unsubscribe : (i : ℕ) (c : ℤ) → OfId ts i → Refined ts (unsubscribe i c)
  unfolding actual
  refine-unsubscribe i c (missing r gone) = (
    ts,
    rw (on_topic-missing _ i _ _ gone, r.unsubscribe c) refl,
    rw (on_topic-missing _ i _ _ gone) refl,
    v,
    omega arith,
  )
  refine-unsubscribe i c (there t at found) =
      let u = with_subscribers (unlink c t.m_subscribers) t in
      (
        put_ticker ts (pos i) u,
        rw (on_topic-there _ i _ _ _ found, unsubscribe-with v i at c) refl,
        rw (on_topic-there _ i _ _ _ found) (
            board-put_ticker i u
            ∙ ap (λ l. set (board ts) i (record (topic t) { listeners = l }))
                (fun_ext (times_in-unlink c t.m_subscribers))),
        put-Refined i u at (λ w. record { ticks = w.ticks; named = w.named }),
        put-length i u,
      )

  pull_newest-entry :
      (ticks : List Tick)
      → All TickIsValid ticks
      → (pull_newest ticks >>= answered ts) ≡ done (newest_of (map entry ticks), ts)
  unfolding pull_newest
  pull_newest-entry [] w = refl
  pull_newest-entry (t ∷ ticks) w = rw (copy_out-TickIsValid t w.0) refl

  refine-pull : (i : ℕ) → OfId ts i → Refined ts (pull i)
  unfolding actual
  refine-pull i (missing r gone) = (
    ts,
    rw (on_topic-missing _ i _ _ gone, r.pull) refl,
    rw (on_topic-missing _ i _ _ gone) refl,
    v,
    omega arith,
  )
  refine-pull i (there t at found) = (
    ts,
    rw (on_topic-there _ i _ _ _ found) (
        unfold srv_pull_tick in
        rw (not_past_end v i at, ticker_at-Holds v i at)
          (pull_newest-entry t.m_ticks (Holds-IsValid v i at).ticks)),
    rw (on_topic-there _ i _ _ _ found) refl,
    v,
    omega arith,
  )

  refine : (op : Operation) → Fits op → length ts.m_tickers + 1 < 2 ^ 31 → Refined ts op
  refine (add s) (text, fits) room = refine-add s text fits room
  refine (push now i b) fits room = refine-push now i b (of_id i)
  refine (pull i) fits room = refine-pull i (of_id i)
  refine (subscribe i c) fits room = refine-subscribe i c (of_id i)
  refine (unsubscribe i c) fits room = refine-unsubscribe i c (of_id i)

run-Refined :
    (ops : List Operation) (ts : Tickers)
    → IsValid ts
    → All Fits ops
    → length ts.m_tickers + length ops < 2 ^ 31
    → (ts' : Tickers) × (actual_run ops ts ≡ done ((promised_run ops (board ts)).0, ts'))
      × (board ts' ≡ (promised_run ops (board ts)).1)
unfolding actual_run
run-Refined [] ts v h room = (ts, refl, refl)
run-Refined (op ∷ ops) ts v h room =
    let (ts1, e1, b1, v1, grown) = refine ts v op h.0 (omega arith) in
    let (ts2, e2, b2) = run-Refined ops ts1 v1 h.1 (omega (arith, grown)) in
    (ts2, rw e1 (rw (e2, b1) refl), b2 ∙ ap (λ b. (promised_run ops b).1) b1)

-- From the empty store every list of fewer than 2 ^ 31 additions of names that fit, pushes, pulls,
-- subscriptions and their ends, with any ids from 0 on, returns; its replies are those that the board
-- promises, and the last store's board is the promised one.
pub run-refines :
    (ops : List Operation)
    → All Fits ops
    → length ops < 2 ^ 31
    → (ts : Tickers) × (actual_run ops srv_data_init_tickers ≡ done ((promised_run ops []).0, ts))
      × (board ts ≡ (promised_run ops []).1)
unfolding srv_data_init_tickers
run-refines ops h few =
    run-Refined ops srv_data_init_tickers srv_data_init_tickers-IsValid h (omega arith)

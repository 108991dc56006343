-- ===== src/Srv/Data/Push.antt =====
-- srv_push_tick, and what the pulls return after it.
use arnovich_core.Base.{
  ℕ, ◌≡◌, refl, ◌≢◌, inl, inr, false, some, List, ◌∷◌, arith, Bool-cases, ℤ, pos, negsuc, length,
  get_elem?, get_elem?-set_ne, All, All-set, All-get_elem?, done, >>=-eq-done,
}
use mathlib.Core.Path.{subst}
use arnovich_core.Srv.Types.{SrvError, success, Timeval, later, Tick, Ticker, Tickers}
use arnovich_core.Srv.Data.{
  memcpy, srv_data_init_tick, ticker_at, put_ticker, past_end, srv_push_tick, srv_pull_tick,
}
use arnovich_core.Srv.Data.Valid.{
  TickerIsValid, IsValid, Holds, not_past_end, ticker_at-Holds, Holds-IsValid, put_ticker-IsValid,
  Holds-put_ticker, memcpy-length, ticker_at_inv,
}
use arnovich_core.Srv.Data.Timeline.{
  later_trans, later_refl, IsOrdered, copy_out-TickIsValid, All-map,
}

-- The time of no tick of the store is later than `now`, and each ticker's ticks are in order.
abbrev pub TickerIsTimely : Timeval → Ticker → Type 0
TickerIsTimely now t = All (λ u. later u.m_datetime now ≡ false) t.m_ticks × IsOrdered t.m_ticks

-- `u` is `t` with one more tick in front.
abbrev pub with_tick : Tick → Ticker → Ticker
with_tick tick t = record t { m_ticks = tick ∷ t.m_ticks }

module _ {ts : Tickers} (v : IsValid ts) (i : ℕ) {t : Ticker} (at : Holds ts i t) where
  pub srv_push_tick-with_tick :
      (now : Timeval) (b : List ℕ)
      → srv_push_tick now ts (pos i) b (length b)
        ≡ done (
          success,
          put_ticker ts
              (pos i)
              (with_tick (record { m_datetime = now; m_data = b; m_len = length b }) t),
        )
  unfolding srv_push_tick srv_data_init_tick
  srv_push_tick-with_tick now b =
      rw (not_past_end v i at, memcpy-length b (length b) refl, ticker_at-Holds v i at)

  -- After a push of some data to an existing ticker of a well-formed store, a pull from that ticker
  -- returns the data, its length and the time of the push; the ticker's ticks are the new one and then
  -- the old ones, and its name, its subscribers, the count of the tickers and all other tickers are as
  -- before.
  pub srv_pull_tick-push :
      (now : Timeval) (b : List ℕ)
      → (ts' : Tickers) × (srv_push_tick now ts (pos i) b (length b) ≡ done (success, ts'))
        × (srv_pull_tick ts' (pos i)
            ≡ done (success, some (record { tickdata = b; len = length b; datetime = now })))
        × ((u : Ticker) × Holds ts' i u
            × (u.m_ticks ≡ record { m_datetime = now; m_data = b; m_len = length b } ∷ t.m_ticks)
            × (u.m_ticker ≡ t.m_ticker)
            × (u.m_subscribers ≡ t.m_subscribers))
        × (ts'.m_ntickers ≡ ts.m_ntickers)
        × ((j : ℕ) → i ≢ j → get_elem? ts'.m_tickers j ≡ get_elem? ts.m_tickers j)
  unfolding srv_pull_tick put_ticker
  srv_pull_tick-push now b =
      let tick : Tick = record { m_datetime = now; m_data = b; m_len = length b } in
      let u : Ticker = with_tick tick t in
      let w : TickerIsValid u = record {
        ticks = (refl, (Holds-IsValid v i at).ticks);
        named = (Holds-IsValid v i at).named;
      } in
      let v' = put_ticker-IsValid v i at u w in
      let at' = Holds-put_ticker v i at u in
      (
        put_ticker ts (pos i) u,
        srv_push_tick-with_tick now b,
        rw (not_past_end v' i at', ticker_at-Holds v' i at') (copy_out-TickIsValid tick refl),
        (u, at', refl, refl, refl),
        refl,
        λ j ne. get_elem?-set_ne ts.m_tickers i j u ne,
      )

TickerIsTimely-later :
    (now now' : Timeval) (t : Ticker)
    → later now now' ≡ false
    → TickerIsTimely now t
    → TickerIsTimely now' t
TickerIsTimely-later now now' t h w = (
  All-map (λ u. later u.m_datetime now ≡ false) _ (λ u k. later_trans u.m_datetime now now' k h)
      t.m_ticks w.0,
  w.1,
)

abbrev pub IsTimely : Timeval → Tickers → Type 0
IsTimely now ts = All (TickerIsTimely now) ts.m_tickers

put-IsTimely :
    (now : Timeval) (ts : Tickers) (id : ℤ) (t u : Ticker)
    → ticker_at ts id ≡ done t
    → IsTimely now ts
    → (TickerIsTimely now t → TickerIsTimely now u)
    → IsTimely now (put_ticker ts id u)
unfolding put_ticker
put-IsTimely now ts (pos i) t u h w keep =
    let (k, e, at) = ticker_at_inv ts (pos i) h in
    All-set (TickerIsTimely now) ts.m_tickers i u
      (keep
        (All-get_elem? (TickerIsTimely now) ts.m_tickers i t w (subst (λ j. Holds ts j t) (cc) at)))
      w
put-IsTimely now ts (negsuc i) t u h w keep = w

-- If the clock has not gone back since the last push, a push that returns leaves every ticker's ticks
-- in order, and none later than the clock.
pub srv_push_tick-IsTimely :
    (clock now : Timeval) (ts : Tickers) (id : ℤ) (b : List ℕ) (len : ℕ) {err : SrvError}
    {ts' : Tickers}
    → later clock now ≡ false
    → IsTimely clock ts
    → srv_push_tick now ts id b len ≡ done (err, ts')
    → IsTimely now ts'
unfolding srv_push_tick srv_data_init_tick
srv_push_tick-IsTimely clock now ts id b len {ts'} mono w h =
    let w' : IsTimely now ts =
      All-map (TickerIsTimely clock) (TickerIsTimely now)
        (λ t. TickerIsTimely-later clock now t mono) ts.m_tickers w in
    elim (Bool-cases (past_end ts id)) [
      | inl e ↦ let e' : ts ≡ ts' = cc (rw e at h) in subst (IsTimely now) e' w'
      | inr e ↦
          let (tick, got, h₁) = >>=-eq-done (srv_data_init_tick now b len) _ (rw e at h) in
          let (copy, read, h₂) = >>=-eq-done (memcpy b len) _ got in
          let (t, at, h₃) = >>=-eq-done (ticker_at ts id) _ h₁ in
          let same : tick.m_datetime ≡ now = ground arith in
          let e' : put_ticker ts id (with_tick tick t) ≡ ts' = cc h₃ in
          subst (IsTimely now) e' (
            put-IsTimely now ts id t (with_tick tick t) at w'
              λ k. ((rw same (later_refl now), k.0), (rw same k.0, k.1)))
    ]

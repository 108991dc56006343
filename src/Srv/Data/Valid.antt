-- ===== src/Srv/Data/Valid.antt =====
-- The well-formedness of the store, kept by every operation of core_srv_data.c, and the operations
-- on a ticker that exists.
use arnovich_core.Base.{
  ℕ, ◌+◌, ◌^◌, ◌<◌, ◌≡◌, refl, sym, ◌∙◌, inl, inr, false, some, List, [], ◌∷◌, ◌++◌, arith,
  Bool-cases, ℤ, pos, negsuc, length, get_elem?, length-append, length-set, length-take, take-all,
  get_elem?-set_self, get_elem?-lt_length, All, All-append, All-set, All-get_elem?, done,
  >>=-eq-done,
}
use mathlib.Core.Path.{subst}
use arnovich_core.Base.CString.{strcpy, cstring, IsText}
use arnovich_core.Base.CString.Order.{strcpy_inv}
use arnovich_core.Srv.Types.{SrvError, success, srv_ticker_len, Timeval, Tick, Ticker, Tickers}
use arnovich_core.Srv.Data.{
  memcpy, next_count, srv_data_init_tick, srv_data_init_tickers, srv_add_ticker, ticker_at,
  put_ticker, past_end, srv_push_tick, srv_tick_subscribe, unlink, srv_tick_unsubscribe,
}

-- A tick holds `m_len` bytes.
abbrev pub TickIsValid : Tick → Type 0
TickIsValid t = t.m_len ≡ length t.m_data

-- A name is a terminated string that fits its array.
abbrev pub IsName : List ℕ → Type 0
IsName b = (s : List ℕ) × IsText s × (b ≡ cstring s) × (length s < srv_ticker_len)

pub record TickerIsValid (t : Ticker) : Type 0 where
  pub ticks : All TickIsValid t.m_ticks
  pub named : IsName t.m_ticker

pub record IsValid (ts : Tickers) : Type 0 where
  pub counted : ts.m_ntickers ≡ length ts.m_tickers
  pub each : All TickerIsValid ts.m_tickers

-- `t` is the ticker with the id `i`.
abbrev pub Holds : Tickers → ℕ → Ticker → Type 0
Holds ts i t = get_elem? ts.m_tickers i ≡ some t

module _ {ts : Tickers} (v : IsValid ts) (i : ℕ) {t : Ticker} (at : Holds ts i t) where
  pub not_past_end : past_end ts (pos i) ≡ false
  not_past_end = ground (arith, v.counted, get_elem?-lt_length ts.m_tickers i t at)

  pub ticker_at-Holds : ticker_at ts (pos i) ≡ done t
  unfolding ticker_at
  ticker_at-Holds = rw at

  pub Holds-IsValid : TickerIsValid t
  Holds-IsValid = All-get_elem? TickerIsValid ts.m_tickers i t v.each at

  pub put_ticker-IsValid : (u : Ticker) → TickerIsValid u → IsValid (put_ticker ts (pos i) u)
  unfolding put_ticker
  put_ticker-IsValid u w = record {
    counted = v.counted ∙ sym (length-set ts.m_tickers i u);
    each = All-set TickerIsValid ts.m_tickers i u w v.each;
  }

  pub Holds-put_ticker : (u : Ticker) → Holds (put_ticker ts (pos i) u) i u
  unfolding put_ticker
  Holds-put_ticker u = get_elem?-set_self ts.m_tickers i u (get_elem?-lt_length ts.m_tickers i t at)

pub memcpy-length {ℓ} : {A : Type ℓ} (xs : List A) (n : ℕ) → n ≡ length xs → memcpy xs n ≡ done xs
unfolding memcpy
memcpy-length xs n e = rw (take-all n xs (omega arith)) (ground (arith, e))

memcpy_short {ℓ} : {A : Type ℓ} (xs ys : List A) (n : ℕ) → memcpy xs n ≡ done ys → n ≡ length ys
unfolding memcpy
memcpy_short xs ys n h = ground (arith, length-take n xs)

pub srv_data_init_tick_inv :
    (now : Timeval) (b : List ℕ) (len : ℕ) (tick : Tick)
    → srv_data_init_tick now b len ≡ done tick
    → TickIsValid tick
unfolding srv_data_init_tick
srv_data_init_tick_inv now b len tick h =
    let (copy, got, last) = >>=-eq-done (memcpy b len) _ h in
    ground (arith, memcpy_short b copy len got)

-- An empty store is well formed.
pub srv_data_init_tickers-IsValid : IsValid srv_data_init_tickers
unfolding srv_data_init_tickers
srv_data_init_tickers-IsValid = record { counted = refl; each = tt }

-- A ticker that is found has an id from 0 on.
pub ticker_at_inv :
    (ts : Tickers) (id : ℤ) {t : Ticker}
    → ticker_at ts id ≡ done t
    → (i : ℕ) × (id ≡ pos i) × Holds ts i t
unfolding ticker_at
ticker_at_inv ts (pos i) h = (i, refl, ground arith)
ticker_at_inv ts (negsuc i) h = absurd (cc)

abbrev pub new_ticker : List ℕ → Ticker
new_ticker s = record { m_ticks = []; m_ticker = cstring s; m_subscribers = [] }

pub next_count-small : (n : ℕ) → n + 1 < 2 ^ 31 → next_count n ≡ done (n + 1)
unfolding next_count
next_count-small n room = ground arith

next_count_inv : (n m : ℕ) → next_count n ≡ done m → m ≡ n + 1
unfolding next_count
next_count_inv n m e = ground arith

module _ {ts : Tickers} (v : IsValid ts) where
  -- What srv_add_ticker does when it returns: it appends a ticker with the string of the buffer.
  pub srv_add_ticker_inv :
      (buffer : List ℕ) {err : SrvError} {id : ℕ} {ts' : Tickers}
      → srv_add_ticker ts buffer ≡ done (err, id, ts')
      → (s : List ℕ) × IsText s
        × (length s < srv_ticker_len)
        × (err ≡ success)
        × (id ≡ ts.m_ntickers)
        × (ts' ≡ record {
          m_tickers = ts.m_tickers ++ new_ticker s ∷ [];
          m_ntickers = ts.m_ntickers + 1;
        })
  unfolding srv_add_ticker
  srv_add_ticker_inv buffer {ts'} h =
      let (count, counted, h₁) = >>=-eq-done (next_count ts.m_ntickers) _ h in
      let one_more = next_count_inv ts.m_ntickers count counted in
      let (name, got, last) =
        >>=-eq-done (strcpy srv_ticker_len buffer) _
          (rw (memcpy-length ts.m_tickers ts.m_ntickers v.counted) at h₁) in
      let (s, text, same, fits) = strcpy_inv srv_ticker_len buffer name got in
      (s, text, fits, ground arith, ground arith, cc)

  -- Whenever srv_add_ticker returns, whatever the buffer holds, the store is well formed.
  pub srv_add_ticker-IsValid :
      (buffer : List ℕ) {err : SrvError} {id : ℕ} {ts' : Tickers}
      → srv_add_ticker ts buffer ≡ done (err, id, ts')
      → IsValid ts'
  srv_add_ticker-IsValid buffer {ts'} h =
      let (s, text, fits, _, _, e) = srv_add_ticker_inv buffer h in
      let grown : IsValid (record {
        m_tickers = ts.m_tickers ++ new_ticker s ∷ [];
        m_ntickers = ts.m_ntickers + 1;
      }) =
        record {
          counted = omega (arith, v.counted, length-append ts.m_tickers (new_ticker s ∷ []));
          each =
              All-append TickerIsValid ts.m_tickers (new_ticker s ∷ []) v.each
                (record { ticks = tt; named = (s, text, refl, fits) }, tt);
        } in
      subst IsValid (sym e) grown

  put-IsValid :
      (id : ℤ) {t : Ticker} (u : Ticker)
      → ticker_at ts id ≡ done t
      → (TickerIsValid t → TickerIsValid u)
      → IsValid (put_ticker ts id u)
  put-IsValid id {t} u h keep =
      let (i, e, at) = ticker_at_inv ts id h in
      rw e (put_ticker-IsValid v i at u (keep (Holds-IsValid v i at)))

  -- Whatever the id and the data, a push that returns leaves a well-formed store.
  pub srv_push_tick-IsValid :
      (now : Timeval) (id : ℤ) (b : List ℕ) (len : ℕ) {err : SrvError} {ts' : Tickers}
      → srv_push_tick now ts id b len ≡ done (err, ts')
      → IsValid ts'
  unfolding srv_push_tick
  srv_push_tick-IsValid now id b len {ts'} h = elim (Bool-cases (past_end ts id)) [
    | inl e ↦ subst IsValid (cc (rw e at h)) v
    | inr e ↦
        let (tick, got, h₁) = >>=-eq-done (srv_data_init_tick now b len) _ (rw e at h) in
        let (t, at, h₂) = >>=-eq-done (ticker_at ts id) _ h₁ in
        subst IsValid (cc h₂) (
          put-IsValid id (record t { m_ticks = tick ∷ t.m_ticks }) at
            λ w. record {
              ticks = (srv_data_init_tick_inv now b len tick got, w.ticks);
              named = w.named;
            })
  ]

  pub srv_tick_subscribe-IsValid :
      (id connection : ℤ) {err : SrvError} {ts' : Tickers}
      → srv_tick_subscribe ts id connection ≡ done (err, ts')
      → IsValid ts'
  unfolding srv_tick_subscribe
  srv_tick_subscribe-IsValid id connection {ts'} h = elim (Bool-cases (past_end ts id)) [
    | inl e ↦ subst IsValid (cc (rw e at h)) v
    | inr e ↦
        let (t, at, h₁) = >>=-eq-done (ticker_at ts id) _ (rw e at h) in
        subst IsValid (cc h₁) (
          put-IsValid id (record t { m_subscribers = connection ∷ t.m_subscribers }) at
            λ w. record { ticks = w.ticks; named = w.named })
  ]

  pub srv_tick_unsubscribe-IsValid :
      (id connection : ℤ) {err : SrvError} {ts' : Tickers}
      → srv_tick_unsubscribe ts id connection ≡ done (err, ts')
      → IsValid ts'
  unfolding srv_tick_unsubscribe
  srv_tick_unsubscribe-IsValid id connection {ts'} h = elim (Bool-cases (past_end ts id)) [
    | inl e ↦ subst IsValid (cc (rw e at h)) v
    | inr e ↦
        let (t, at, h₁) = >>=-eq-done (ticker_at ts id) _ (rw e at h) in
        subst IsValid (cc h₁) (
          put-IsValid id (record t { m_subscribers = unlink connection t.m_subscribers }) at
            λ w. record { ticks = w.ticks; named = w.named })
  ]

-- One operation on the store that returns, with any arguments.
pub data Step (ts ts' : Tickers) : Type 0 where
  add :
      (buffer : List ℕ) (err : SrvError) (id : ℕ)
      → srv_add_ticker ts buffer ≡ done (err, id, ts')
      → Step ts ts'
  push :
      (now : Timeval) (id : ℤ) (b : List ℕ) (len : ℕ) (err : SrvError)
      → srv_push_tick now ts id b len ≡ done (err, ts')
      → Step ts ts'
  subscribe :
      (id connection : ℤ) (err : SrvError)
      → srv_tick_subscribe ts id connection ≡ done (err, ts')
      → Step ts ts'
  unsubscribe :
      (id connection : ℤ) (err : SrvError)
      → srv_tick_unsubscribe ts id connection ≡ done (err, ts')
      → Step ts ts'

pub data Reach : Tickers → Type 0 where
  start : Reach srv_data_init_tickers
  next : {ts ts' : Tickers} → Reach ts → Step ts ts' → Reach ts'

Step-IsValid : {ts ts' : Tickers} → Step ts ts' → IsValid ts → IsValid ts'
Step-IsValid (add buffer err id h) v = srv_add_ticker-IsValid v buffer h
Step-IsValid (push now id b len err h) v = srv_push_tick-IsValid v now id b len h
Step-IsValid (subscribe id connection err h) v = srv_tick_subscribe-IsValid v id connection h
Step-IsValid (unsubscribe id connection err h) v = srv_tick_unsubscribe-IsValid v id connection h

-- Every store that the operations reach from the initial one, with any arguments, is well formed:
-- `m_ntickers` counts the tickers, each name is a string of at most 19 bytes, and each tick holds
-- `m_len` bytes.
pub Reach-IsValid : {ts : Tickers} → Reach ts → IsValid ts
Reach-IsValid start = srv_data_init_tickers-IsValid
Reach-IsValid (next r st) = Step-IsValid st (Reach-IsValid r)

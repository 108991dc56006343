-- ===== src/Srv/Data.antt =====
-- src/lib/core_srv/core_srv_data.c: the store of tickers. A function returns its error code, what it
-- writes through its pointers on success, and the new store. Allocation succeeds, and `now` is what
-- gettimeofday gives.
pub mod Valid
pub mod Lookup
pub mod Timeline
pub mod Push
pub mod ByDatetime
pub mod Update
pub mod Subscribers
pub mod Free
pub mod Board
mod Examples
use arnovich_core.Base.{
  ℕ, zero, suc, ◌+◌, Ordering, Bool, true, false, Option, none, some, List, [], ◌∷◌, ◌++◌, ◌^◌, ltb,
  leb, if◌then◌else◌, ℤ, pos, negsuc, leb_ℤ, eqb_ℤ, length, get_elem?, set, take, Outcome, done,
  fault, ◌>>=◌, ◌>>◌, access,
}
use arnovich_core.Base.CString.{strcpy, strcmp, is_eq}
use arnovich_core.Srv.Types.{
  SrvError, success, unknown, unknown_ticker, no_tickdata, srv_ticker_len, Timeval, later, Tick,
  Ticker, Tickers,
}

-- `memcpy` of `len` elements out of an array
unfoldable pub memcpy {ℓ} : {A : Type ℓ} → List A → ℕ → Outcome (List A)
memcpy buffer len = if leb len (length buffer) then done (take len buffer) else fault

unfoldable pub srv_data_init_tick : Timeval → List ℕ → ℕ → Outcome Tick
unfolding memcpy
srv_data_init_tick now tickdata len = do
  copy ← memcpy tickdata len
  done (record { m_datetime = now; m_data = copy; m_len = len })

-- The recursion follows `m_next` with no test for NULL: `[]` is the NULL pointer.
unfoldable pub srv_data_free_tick : List Tick → Outcome (Unit {0})
srv_data_free_tick [] = fault
srv_data_free_tick (tick ∷ m_next) = do srv_data_free_tick m_next; done tt

unfoldable pub srv_data_init_tickers : Tickers
srv_data_init_tickers = record { m_tickers = []; m_ntickers = 0 }

-- The loop reads `tickers->m_tickers[i]` after `free(tickers->m_tickers)`.
free_loop : ℕ → Outcome (Unit {0})
free_loop zero = done tt
free_loop (suc n) = fault

unfoldable pub srv_data_free_tickers : Tickers → Outcome (Unit {0})
unfolding free_loop
srv_data_free_tickers tickers = free_loop tickers.m_ntickers

-- The loop of srv_get_ticker from index `i` on, over the tickers from there.
unfoldable pub get_loop : List ℕ → ℕ → ℕ → List Ticker → Outcome (SrvError × Option ℕ)
get_loop ticker zero i ts = done (unknown, none)
get_loop ticker (suc n) i [] = fault
get_loop ticker (suc n) i (t ∷ ts) =
    let rest = get_loop ticker n (i + 1) ts in
    do sign ← strcmp ticker t.m_ticker; if is_eq sign then done (success, some i) else rest

unfoldable pub srv_get_ticker : Tickers → List ℕ → Outcome (SrvError × Option ℕ)
srv_get_ticker tickers ticker = get_loop ticker tickers.m_ntickers 0 tickers.m_tickers

-- ++ of the counter, an int: to pass its range is undefined.
unfoldable pub next_count : ℕ → Outcome ℕ
next_count n = if ltb (n + 1) (2 ^ 31) then done (n + 1) else fault

-- The array grows by one; its first `m_ntickers` entries are copied.
unfoldable pub srv_add_ticker : Tickers → List ℕ → Outcome (SrvError × ℕ × Tickers)
unfolding memcpy next_count
srv_add_ticker tickers ticker = do
  count ← next_count tickers.m_ntickers
  tmp ← memcpy tickers.m_tickers tickers.m_ntickers
  name ← strcpy srv_ticker_len ticker
  done (
    success,
    tickers.m_ntickers,
    record {
      m_tickers = tmp ++ record { m_ticks = []; m_ticker = name; m_subscribers = [] } ∷ [];
      m_ntickers = count;
    },
  )

-- tickers->m_tickers[id]: an index below 0 or past the array is no ticker.
unfoldable pub ticker_at : Tickers → ℤ → Outcome Ticker
ticker_at tickers (pos i) = access (get_elem? tickers.m_tickers i)
ticker_at tickers (negsuc i) = fault

unfoldable pub put_ticker : Tickers → ℤ → Ticker → Tickers
put_ticker tickers (pos i) t = record tickers { m_tickers = set tickers.m_tickers i t }
put_ticker tickers (negsuc i) t = tickers

-- id >= tickers->m_ntickers
abbrev pub past_end : Tickers → ℤ → Bool
past_end tickers id = leb_ℤ (pos tickers.m_ntickers) id

unfoldable pub srv_push_tick : Timeval → Tickers → ℤ → List ℕ → ℕ → Outcome (SrvError × Tickers)
srv_push_tick now tickers id tickdata len =
    if past_end tickers id then done (unknown_ticker, tickers) else do
      new_tick ← srv_data_init_tick now tickdata len
      t ← ticker_at tickers id
      done (success, put_ticker tickers id (record t { m_ticks = new_tick ∷ t.m_ticks }))

-- What a pull writes through `tickdata`, `len` and `datetime`.
pub record Pulled : Type 0 where
  pub tickdata : List ℕ
  pub len : ℕ
  pub datetime : Timeval

-- The end of each pull: a copy of the tick's data, its length and its time.
unfoldable pub copy_out : Tick → Outcome (SrvError × Option Pulled)
unfolding memcpy
copy_out tick = do
  copy ← memcpy tick.m_data tick.m_len
  done (success, some (record { tickdata = copy; len = tick.m_len; datetime = tick.m_datetime }))

unfoldable pub pull_newest : List Tick → Outcome (SrvError × Option Pulled)
pull_newest [] = done (no_tickdata, none)
pull_newest (tick ∷ _) = copy_out tick

unfoldable pub srv_pull_tick : Tickers → ℤ → Outcome (SrvError × Option Pulled)
unfolding pull_newest
srv_pull_tick tickers id =
    if past_end tickers id
    then done (unknown_ticker, none)
    else do t ← ticker_at tickers id; pull_newest t.m_ticks

-- while (tick != NULL && tick is later than datetime) tick = tick->m_next;
unfoldable pub skip_later : Timeval → List Tick → List Tick
skip_later datetime [] = []
skip_later datetime (tick ∷ m_next) =
    if later tick.m_datetime datetime then skip_later datetime m_next else tick ∷ m_next

-- The body after the guard on the id: an empty list is reported before and after the loop alike.
unfoldable pub pull_before : Timeval → List Tick → Outcome (SrvError × Option Pulled)
unfolding skip_later pull_newest
pull_before datetime [] = done (no_tickdata, none)
pull_before datetime (tick ∷ m_next) = pull_newest (skip_later datetime (tick ∷ m_next))

unfoldable pub srv_pull_tick_by_datetime :
    Tickers → ℤ → Timeval → Outcome (SrvError × Option Pulled)
unfolding pull_before
srv_pull_tick_by_datetime tickers id datetime =
    if past_end tickers id
    then done (unknown_ticker, none)
    else do t ← ticker_at tickers id; pull_before datetime t.m_ticks

-- while (tick->m_next != NULL && tick->m_next is later than datetime) tick = tick->m_next;
unfoldable pub oldest_later : Timeval → Tick → List Tick → Tick
oldest_later datetime tick [] = tick
oldest_later datetime tick (next ∷ rest) =
    if later next.m_datetime datetime then oldest_later datetime next rest else tick

unfoldable pub pull_after : Timeval → List Tick → Outcome (SrvError × Option Pulled)
unfolding oldest_later
pull_after datetime [] = done (no_tickdata, none)
pull_after datetime (tick ∷ m_next) =
    if later datetime tick.m_datetime
    then done (no_tickdata, none)
    else copy_out (oldest_later datetime tick m_next)

unfoldable pub srv_pull_tick_update : Tickers → ℤ → Timeval → Outcome (SrvError × Option Pulled)
unfolding pull_after
srv_pull_tick_update tickers id datetime =
    if past_end tickers id
    then done (unknown_ticker, none)
    else do t ← ticker_at tickers id; pull_after datetime t.m_ticks

unfoldable pub srv_tick_subscribe : Tickers → ℤ → ℤ → Outcome (SrvError × Tickers)
srv_tick_subscribe tickers id connection =
    if past_end tickers id then done (unknown_ticker, tickers) else do
      t ← ticker_at tickers id
      done (
        success,
        put_ticker tickers id (record t { m_subscribers = connection ∷ t.m_subscribers }),
      )

-- The walk with `subscr` and `subscr_prev`, and the unlinking of the subscriber that it stops at.
unfoldable pub unlink : ℤ → List ℤ → List ℤ
unlink connection [] = []
unlink connection (subscr ∷ m_next) =
    if eqb_ℤ subscr connection then m_next else subscr ∷ unlink connection m_next

unfoldable pub srv_tick_unsubscribe : Tickers → ℤ → ℤ → Outcome (SrvError × Tickers)
unfolding unlink
srv_tick_unsubscribe tickers id connection =
    if past_end tickers id then done (unknown_ticker, tickers) else do
      t ← ticker_at tickers id
      done (
        success,
        put_ticker tickers id (record t { m_subscribers = unlink connection t.m_subscribers }),
      )

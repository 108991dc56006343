-- ===== src/Srv/Data/Examples.antt =====
-- Runs of the store of tickers, and its theorems at a store with two tickers.
use arnovich_core.Base.{
  ℕ, ◌≡◌, ◌≢◌, refl, ◌⊎◌, true, Option, none, some, List, [], ◌∷◌, ◌++◌, replicate, arith, pos,
  negsuc, get_elem?, All, done, fault, ◌>>=◌,
}
use arnovich_core.Base.CString.{strcpy, cstring, IsText}
use arnovich_core.Srv.Types.{SrvError, success, no_tickdata, Timeval, later, Tick, Ticker, Tickers}
use arnovich_core.Srv.Data.{
  srv_data_init_tickers, srv_get_ticker, srv_add_ticker, srv_push_tick, srv_pull_tick,
  srv_pull_tick_by_datetime, srv_pull_tick_update, srv_tick_subscribe, srv_tick_unsubscribe,
  srv_data_init_tick, ticker_at, put_ticker,
}
use arnovich_core.Srv.Data.Valid.{IsValid, Holds, Reach, start, next, add, push, Reach-IsValid}
use arnovich_core.Srv.Data.Timeline.{pulled}
use arnovich_core.Srv.Data.Lookup.{Answer, srv_get_ticker-Answer, after_add, srv_get_ticker-add}
use arnovich_core.Srv.Data.Push.{IsTimely, srv_pull_tick-push, srv_push_tick-IsTimely}
use arnovich_core.Srv.Data.ByDatetime.{IsNewestUpTo, srv_pull_tick_by_datetime-newest}
use arnovich_core.Srv.Data.Update.{IsOldestAfter, srv_pull_tick_update-oldest}
use arnovich_core.Srv.Data.Subscribers.{DropsFirst, unsubscribe-DropsFirst, unsubscribe-subscribe}
use arnovich_core.Srv.Data.Free.{Faults, negative-Faults}

abbrev at_second : ℕ → Timeval
at_second n = record { tv_sec = pos n; tv_usec = pos 0 }

abbrev old_tick : Tick
old_tick = record { m_datetime = at_second 10; m_data = 9 ∷ []; m_len = 1 }

abbrev new_tick : Tick
new_tick = record { m_datetime = at_second 20; m_data = 7 ∷ 8 ∷ []; m_len = 2 }

abbrev name_a : List ℕ
name_a = 65 ∷ []

abbrev name_b : List ℕ
name_b = 66 ∷ []

abbrev ticker_a : Ticker
ticker_a = record {
  m_ticks = new_tick ∷ old_tick ∷ [];
  m_ticker = cstring name_a;
  m_subscribers = pos 5 ∷ pos 6 ∷ pos 5 ∷ [];
}

abbrev ticker_b : Ticker
ticker_b = record { m_ticks = []; m_ticker = cstring name_b; m_subscribers = [] }

abbrev two_tickers : Tickers
two_tickers = record { m_tickers = ticker_a ∷ ticker_b ∷ []; m_ntickers = 2 }

name_a-IsText : IsText name_a
name_a-IsText = ((λ e. omega arith), tt)

name_b-IsText : IsText name_b
name_b-IsText = ((λ e. omega arith), tt)

two_tickers-IsValid : IsValid two_tickers
two_tickers-IsValid = record {
  counted = refl;
  each = (
    record { ticks = (refl, (refl, tt)); named = (name_a, name_a-IsText, refl, omega arith) },
    (record { ticks = tt; named = (name_b, name_b-IsText, refl, omega arith) }, tt),
  );
}

-- A store that starts empty: the ticker A is added, and a byte is pushed to it.
abbrev ticker_c : Ticker
ticker_c = record { m_ticks = []; m_ticker = cstring name_a; m_subscribers = [] }

abbrev one_ticker : Tickers
one_ticker = record { m_tickers = ticker_c ∷ []; m_ntickers = 1 }

abbrev one_tick : Tickers
one_tick = record { m_tickers = record ticker_c { m_ticks = old_tick ∷ [] } ∷ []; m_ntickers = 1 }

adds : srv_add_ticker srv_data_init_tickers (cstring name_a) ≡ done (success, 0, one_ticker)
unfolding srv_add_ticker srv_data_init_tickers strcpy
adds = refl

pushes : srv_push_tick (at_second 10) one_ticker (pos 0) (9 ∷ []) 1 ≡ done (success, one_tick)
unfolding srv_push_tick srv_data_init_tick ticker_at put_ticker
pushes = refl

reached : Reach one_tick
reached =
    next (next start (add (cstring name_a) success 0 adds))
      (push (at_second 10) (pos 0) (9 ∷ []) 1 success pushes)

Reach-IsValid_example : IsValid one_tick
Reach-IsValid_example = Reach-IsValid reached

srv_pull_tick-push_example :
    (ts : Tickers) × (srv_push_tick (at_second 30) two_tickers (pos 0) (1 ∷ 2 ∷ 3 ∷ []) 3
      ≡ done (success, ts))
    × (srv_pull_tick ts (pos 0)
        ≡ done (
          success,
          some (record { tickdata = 1 ∷ 2 ∷ 3 ∷ []; len = 3; datetime = at_second 30 }),
        ))
    × ((u : Ticker) × Holds ts 0 u
        × (u.m_ticks
            ≡ record { m_datetime = at_second 30; m_data = 1 ∷ 2 ∷ 3 ∷ []; m_len = 3 }
              ∷ ticker_a.m_ticks)
        × (u.m_ticker ≡ cstring name_a)
        × (u.m_subscribers ≡ ticker_a.m_subscribers))
    × (ts.m_ntickers ≡ 2)
    × ((j : ℕ) → 0 ≢ j → get_elem? ts.m_tickers j ≡ get_elem? two_tickers.m_tickers j)
srv_pull_tick-push_example =
    srv_pull_tick-push two_tickers-IsValid 0 refl (at_second 30) (1 ∷ 2 ∷ 3 ∷ [])

srv_get_ticker-Answer_example :
    (err : SrvError) × (id : Option ℕ) × (srv_get_ticker two_tickers (66 ∷ 0 ∷ 1 ∷ [])
      ≡ done (err, id))
    × Answer name_b 0 two_tickers.m_tickers err id
srv_get_ticker-Answer_example =
    srv_get_ticker-Answer two_tickers-IsValid name_b (1 ∷ []) name_b-IsText

srv_get_ticker-add_example :
    (ts : Tickers) × (srv_add_ticker two_tickers (cstring name_b) ≡ done (success, 2, ts))
    × ((u q : List ℕ)
        → IsText u
        → srv_get_ticker ts (u ++ 0 ∷ q)
          ≡ (srv_get_ticker two_tickers (u ++ 0 ∷ q) >>= after_add name_b u 2))
srv_get_ticker-add_example =
    srv_get_ticker-add two_tickers-IsValid name_b [] name_b-IsText (omega arith) (omega arith)

srv_pull_tick_by_datetime-newest_example :
    ((p : Tick) × (srv_pull_tick_by_datetime two_tickers (pos 0) (at_second 15)
        ≡ done (success, some (pulled p)))
      × IsNewestUpTo (at_second 15) ticker_a.m_ticks p)
    ⊎ ((srv_pull_tick_by_datetime two_tickers (pos 0) (at_second 15) ≡ done (no_tickdata, none))
        × All (λ u. later u.m_datetime (at_second 15) ≡ true) ticker_a.m_ticks)
srv_pull_tick_by_datetime-newest_example =
    srv_pull_tick_by_datetime-newest two_tickers-IsValid 0 refl (at_second 15)
      ((refl, tt), (tt, tt))

srv_pull_tick_update-oldest_example :
    ((p : Tick) × (srv_pull_tick_update two_tickers (pos 0) (at_second 5)
        ≡ done (success, some (pulled p)))
      × IsOldestAfter (at_second 5) ticker_a.m_ticks p)
    ⊎ ((srv_pull_tick_update two_tickers (pos 0) (at_second 5) ≡ done (no_tickdata, none))
        × All (λ u. later (at_second 5) u.m_datetime ≡ true) ticker_a.m_ticks)
srv_pull_tick_update-oldest_example =
    srv_pull_tick_update-oldest two_tickers-IsValid 0 refl (at_second 5) ((refl, tt), (tt, tt))

srv_push_tick-IsTimely_example : IsTimely (at_second 10) one_tick
srv_push_tick-IsTimely_example =
    srv_push_tick-IsTimely (at_second 9) (at_second 10) one_ticker (pos 0) (9 ∷ []) 1 refl
      ((tt, tt), tt) pushes

unsubscribe-DropsFirst_example :
    (ts : Tickers) × (u : Ticker) × (srv_tick_unsubscribe two_tickers (pos 0) (pos 6)
      ≡ done (success, ts))
    × Holds ts 0 u
    × DropsFirst (pos 6) ticker_a.m_subscribers u.m_subscribers
    × (u.m_ticks ≡ ticker_a.m_ticks)
    × (u.m_ticker ≡ ticker_a.m_ticker)
    × ((j : ℕ) → 0 ≢ j → get_elem? ts.m_tickers j ≡ get_elem? two_tickers.m_tickers j)
unsubscribe-DropsFirst_example = unsubscribe-DropsFirst two_tickers-IsValid 0 refl (pos 6)

unsubscribe-subscribe_example :
    (srv_tick_subscribe two_tickers (pos 0) (pos 6) >>= λ r.
    srv_tick_unsubscribe r.1 (pos 0) (pos 6))
    ≡ done (success, two_tickers)
unsubscribe-subscribe_example = unsubscribe-subscribe two_tickers-IsValid 0 refl (pos 6)

negative-Faults_example : Faults two_tickers (negsuc 0)
negative-Faults_example = negative-Faults two_tickers 0

-- The second subscription of connection 5 stays.
unsubscribes_once :
    srv_tick_unsubscribe two_tickers (pos 0) (pos 5)
    ≡ done (
      success,
      record {
        m_tickers = record ticker_a { m_subscribers = pos 6 ∷ pos 5 ∷ [] } ∷ ticker_b ∷ [];
        m_ntickers = 2;
      },
    )
unfolding srv_tick_unsubscribe ticker_at put_ticker
unsubscribes_once = refl

-- No update is found once the newest tick is older than the time.
no_update : srv_pull_tick_update two_tickers (pos 0) (at_second 21) ≡ done (no_tickdata, none)
unfolding srv_pull_tick_update ticker_at
no_update = refl

-- A name of 20 bytes does not fit with its terminator.
long_name : srv_add_ticker two_tickers (cstring (replicate 20 65)) ≡ fault
unfolding srv_add_ticker strcpy
long_name = refl

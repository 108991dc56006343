-- ===== src/Srv/Types.antt =====
-- include/core_srv/core_srv_types.h and the structs of include/core_srv/core_srv_data.h.
-- A linked list of ticks or subscribers is a list, its head first. The two mutexes of a ticker and
-- the one of the tickers carry no data and are left out.
use arnovich_core.Base.{ℕ, Bool, ◌&&◌, ◌||◌, List, ℤ, ltb_ℤ, eqb_ℤ}

pub data SrvError : Type 0 where
  success unknown connection_error write_error read_error unknown_ticker no_tickdata : SrvError
  ticker_exists : SrvError

abbrev pub srv_ticker_len : ℕ
srv_ticker_len = 20

abbrev pub srv_buffer_len : ℕ
srv_buffer_len = 8000

-- struct timeval
pub record Timeval : Type 0 where
  pub tv_sec : ℤ
  pub tv_usec : ℤ

-- The comparison that the pull functions and the server write out: `a` is later than `b`.
abbrev pub later : Timeval → Timeval → Bool
later a b = ltb_ℤ b.tv_sec a.tv_sec || (eqb_ℤ a.tv_sec b.tv_sec && ltb_ℤ b.tv_usec a.tv_usec)

-- struct srv_tick, less its link
pub record Tick : Type 0 where
  pub m_datetime : Timeval
  pub m_data : List ℕ
  pub m_len : ℕ

-- struct srv_ticker: `m_ticker` is `m_info.m_ticker`, as far as it is written; a subscriber is its
-- connection
pub record Ticker : Type 0 where
  pub m_ticks : List Tick
  pub m_ticker : List ℕ
  pub m_subscribers : List ℤ

-- struct srv_tickers
pub record Tickers : Type 0 where
  pub m_tickers : List Ticker
  pub m_ntickers : ℕ

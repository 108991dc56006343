-- ===== src/Srv/Data/Free.antt =====
-- srv_data_free_tick and srv_data_free_tickers, and the guards on ids.
use arnovich_core.Base.{
  ℕ, zero, suc, ◌≤◌, ◌≡◌, refl, ◌↔◌, true, false, none, List, [], ◌∷◌, arith, ℤ, pos, negsuc,
  Outcome, done, fault, ◌>>=◌,
}
use arnovich_core.Srv.Types.{unknown_ticker, Timeval, Tick, Tickers}
use arnovich_core.Srv.Data.{
  srv_data_init_tick, srv_data_free_tick, free_loop, srv_data_free_tickers, ticker_at, past_end,
  srv_push_tick, srv_pull_tick, srv_pull_tick_by_datetime, srv_pull_tick_update, srv_tick_subscribe,
  srv_tick_unsubscribe,
}

-- srv_data_free_tick dereferences NULL on every list of ticks, the empty one too: its recursion has no
-- test for the end.
pub srv_data_free_tick_faults : (ticks : List Tick) → srv_data_free_tick ticks ≡ fault
unfolding srv_data_free_tick
srv_data_free_tick_faults [] = refl
srv_data_free_tick_faults (t ∷ ticks) = rw (srv_data_free_tick_faults ticks)

-- srv_data_free_tickers returns exactly for a store with no ticker; with one or more it reads the
-- array of tickers that it has freed.
pub srv_data_free_tickers_iff :
    (ts : Tickers) → (srv_data_free_tickers ts ≡ done tt) ↔ (ts.m_ntickers ≡ 0)
unfolding srv_data_free_tickers
srv_data_free_tickers_iff ts = go ts.m_ntickers
  where
    go : (n : ℕ) → (free_loop n ≡ done tt) ↔ (n ≡ 0)
    go zero = ((λ _. refl), (λ _. refl))
    go (suc n) = ((λ e. cc), (λ e. absurd (omega arith)))

-- What all operations on an id answer.
pub record Refuses (ts : Tickers) (id : ℤ) : Type 0 where
  pub push :
      (now : Timeval) (b : List ℕ) (len : ℕ)
      → srv_push_tick now ts id b len ≡ done (unknown_ticker, ts)
  pub pull : srv_pull_tick ts id ≡ done (unknown_ticker, none)
  pub by_datetime : (d : Timeval) → srv_pull_tick_by_datetime ts id d ≡ done (unknown_ticker, none)
  pub update : (d : Timeval) → srv_pull_tick_update ts id d ≡ done (unknown_ticker, none)
  pub subscribe : (c : ℤ) → srv_tick_subscribe ts id c ≡ done (unknown_ticker, ts)
  pub unsubscribe : (c : ℤ) → srv_tick_unsubscribe ts id c ≡ done (unknown_ticker, ts)

-- An id from the number of tickers on is refused with `unknown_ticker` by every operation on ids, and
-- the store stays as it is.
pub past_end-Refuses : (ts : Tickers) (k : ℕ) → ts.m_ntickers ≤ k → Refuses ts (pos k)
unfolding srv_push_tick srv_pull_tick srv_pull_tick_by_datetime srv_pull_tick_update
    srv_tick_subscribe srv_tick_unsubscribe
past_end-Refuses ts k h =
    let e : past_end ts (pos k) ≡ true = ground arith in
    record {
      push = λ now b len. rw e;
      pull = rw e;
      by_datetime = λ d. rw e;
      update = λ d. rw e;
      subscribe = λ c. rw e;
      unsubscribe = λ c. rw e;
    }

-- An id below 0 passes the guard of every operation, and the array is read below its start.
pub record Faults (ts : Tickers) (id : ℤ) : Type 0 where
  pub push : (now : Timeval) (b : List ℕ) (len : ℕ) → srv_push_tick now ts id b len ≡ fault
  pub pull : srv_pull_tick ts id ≡ fault
  pub by_datetime : (d : Timeval) → srv_pull_tick_by_datetime ts id d ≡ fault
  pub update : (d : Timeval) → srv_pull_tick_update ts id d ≡ fault
  pub subscribe : (c : ℤ) → srv_tick_subscribe ts id c ≡ fault
  pub unsubscribe : (c : ℤ) → srv_tick_unsubscribe ts id c ≡ fault

faults_after :
    {A B : Type 0} (m : Outcome A) (k : A → Outcome B) → ((a : A) → k a ≡ fault) → (m >>= k) ≡ fault
faults_after (done a) k h = h a
faults_after fault k h = refl

-- An id below 0 is not refused: every operation on ids reads outside the array of tickers.
pub negative-Faults : (ts : Tickers) (k : ℕ) → Faults ts (negsuc k)
unfolding srv_push_tick srv_pull_tick srv_pull_tick_by_datetime srv_pull_tick_update
    srv_tick_subscribe srv_tick_unsubscribe ticker_at
negative-Faults ts k =
    let e : past_end ts (negsuc k) ≡ false = ground arith in
    record {
      push = λ now b len. rw e (faults_after (srv_data_init_tick now b len) _ λ a. refl);
      pull = rw e;
      by_datetime = λ d. rw e;
      update = λ d. rw e;
      subscribe = λ c. rw e;
      unsubscribe = λ c. rw e;
    }

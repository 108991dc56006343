-- ===== src/Pylib/Examples.antt =====
-- The Python objects at a concrete interpreter: arguments are a number and a string.
use arnovich_core.Base.{
  ℕ, ◌+◌, ◌≡◌, refl, some, List, [], ◌∷◌, arith, ℤ, pos, pos_part, neg_part, sub_ℕ, ◌+ℤ◌, ◌*ℤ◌,
  ltb_ℤ,
}
use arnovich_core.Base.CString.{cstring}
use arnovich_core.Types.Double.{Double}
use arnovich_core.Srv.Types.{Timeval, Tickers}
use arnovich_core.Srv.Wire.{int_bytes, Command, command_code}
use arnovich_core.Srv.Data.{Pulled}
use arnovich_core.Srv.Data.Valid.{IsValid}
use arnovich_core.Srv.Io.{ret, write, crash}
use arnovich_core.Srv.Thread.{Thread}
use arnovich_core.Srv.Server.{serve_command}
use arnovich_core.Srv.Dialogue.{config, Steps}
use arnovich_core.Pylib.{
  Python, py_true, tick, Connection_push_tick, Connection_pull_tick, Connection_add_ticker,
  Connection_get_ticker,
}
use arnovich_core.Pylib.RoundTrip.{pull_tick-push_tick}
use arnovich_core.Pylib.Overread.{add_get_ticker-crash}

abbrev python : Python
python = record {
  Arguments = ℤ × List ℕ;
  parse_string = λ a. some (cstring (a.1));
  parse_int = λ a. some (a.0);
  parse_int_string = λ a. some (a.0, cstring (a.1));
}

abbrev seconds : Double
seconds = record {
  D = ℤ;
  of_int = λ i. i;
  to_int = some;
  plus = λ a b. a +ℤ b;
  minus = λ a b. sub_ℕ (pos_part a + neg_part b) (neg_part a + pos_part b);
  times = λ a b. a *ℤ b;
  fabs = λ a. pos (pos_part a + neg_part a);
  less = ltb_ℤ;
  zero_double = pos 0;
  compare_epsilon = pos 1;
  print = λ a. [];
}

abbrev name : List ℕ
name = 65 ∷ []

abbrev store : Tickers
store = record {
  m_tickers = record { m_ticks = []; m_ticker = cstring name; m_subscribers = pos 9 ∷ [] } ∷ [];
  m_ntickers = 1;
}

store-IsValid : IsValid store
store-IsValid = record {
  counted = refl;
  each = (record { ticks = tt; named = (name, ((λ e. omega arith), tt), refl, omega arith) }, tt);
}

abbrev now : Timeval
now = record { tv_sec = pos 43200; tv_usec = pos 5 }

abbrev thread : ℤ → Thread
thread c = record {
  connection = c;
  command = pos 0;
  ticker = [];
  id = pos 0;
  len = 0;
  datetime = now;
  last_pull = now;
}

abbrev nothing : Pulled
nothing = record { tickdata = []; len = 0; datetime = now }

pull_tick-push_tick_example :
    (ts' : Tickers) × (o' : List (ℤ × List ℕ)) × (after after' : Thread) × Steps
      (pos 3)
      (pos 4)
      now
      (config
        (Connection_push_tick python seconds (pos 3) (pos 0, 72 ∷ 105 ∷ []))
        (serve_command 0 (thread (pos 4)))
        []
        []
        store
        [])
      (config (ret py_true) (ret (some after)) [] [] ts' o')
    × Steps
        (pos 6)
        (pos 7)
        now
        (config
          (Connection_pull_tick python seconds (pos 6) (pos 0, []) nothing)
          (serve_command 0 (thread (pos 7)))
          []
          []
          ts'
          o')
        (config
          (ret (tick (record { contents = 72 ∷ 105 ∷ []; time = pos 43200 })))
          (ret (some after'))
          []
          []
          ts'
          o')
pull_tick-push_tick_example =
    pull_tick-push_tick python seconds (pos 0, 72 ∷ 105 ∷ []) (pos 0, []) (pos 3) (pos 6)
      (thread (pos 4)) (thread (pos 7)) 0 now now store [] 0 (72 ∷ 105 ∷ [])
      (record { m_ticks = []; m_ticker = cstring name; m_subscribers = pos 9 ∷ [] }) nothing refl
      refl ((λ e. omega arith), ((λ e. omega arith), tt)) store-IsValid refl ((λ e. cc), tt)
      ((λ e. cc), tt) (omega arith) (omega arith) (omega arith) (omega arith)

add_get_ticker-crash_example :
    (Connection_add_ticker python seconds (pos 3) (pos 0, name) (pos 0)
      ≡ write (pos 3) (int_bytes (command_code Command.add_ticker)) (λ _. crash))
    × (Connection_get_ticker python seconds (pos 3) (pos 0, name) (pos 0)
        ≡ write (pos 3) (int_bytes (command_code Command.get_ticker)) (λ _. crash))
add_get_ticker-crash_example =
    add_get_ticker-crash python seconds (pos 0, name) (pos 3) (pos 0) name refl (omega arith)

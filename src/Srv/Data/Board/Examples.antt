-- ===== src/Srv/Data/Board/Examples.antt =====
-- The store and its board run side by side.
use arnovich_core.Base.{◌≡◌, List, [], ◌∷◌, arith, pos, done}
use arnovich_core.Srv.Types.{Timeval, Tickers}
use arnovich_core.Srv.Data.{srv_data_init_tickers}
use arnovich_core.Srv.Data.Board.{
  Operation, add, push, pull, subscribe, unsubscribe, promised_run, actual_run, board,
}
use arnovich_core.Srv.Data.Board.Refines.{run-refines}

abbrev noon : Timeval
noon = record { tv_sec = pos 43200; tv_usec = pos 0 }

abbrev operations : List Operation
operations =
    add (65 ∷ [])
    ∷ push noon 0 (7 ∷ 8 ∷ [])
    ∷ subscribe 0 (pos 4)
    ∷ unsubscribe 0 (pos 5)
    ∷ pull 0
    ∷ push noon 1 (9 ∷ [])
    ∷ []

run-refines_example :
    (ts : Tickers) × (actual_run operations srv_data_init_tickers
      ≡ done ((promised_run operations []).0, ts))
    × (board ts ≡ (promised_run operations []).1)
run-refines_example =
    run-refines operations
      ((((λ e. omega arith), tt), omega arith), (tt, (tt, (tt, (tt, (tt, tt)))))) (omega arith)

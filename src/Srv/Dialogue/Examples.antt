-- ===== src/Srv/Dialogue/Examples.antt =====
-- The dialogues of a client and a server thread at concrete stores and data.
use arnovich_core.Base.{◌≡◌, refl, some, [], ◌∷◌, arith, pos, done}
use arnovich_core.Base.CString.{cstring}
use arnovich_core.Srv.Types.{SrvError, success, Timeval, Tick, Ticker, Tickers}
use arnovich_core.Srv.Wire.{error_code, Command, command_code}
use arnovich_core.Srv.Data.{
  srv_push_tick, srv_pull_tick, srv_data_init_tick, ticker_at, put_ticker, copy_out, Pulled,
}
use arnovich_core.Srv.Io.{ret}
use arnovich_core.Srv.Thread.{Thread}
use arnovich_core.Srv.Server.{serve_command}
use arnovich_core.Srv.Client.{srv_client_push_tick, srv_client_pull_tick}
use arnovich_core.Srv.Dialogue.{config, Steps}
use arnovich_core.Srv.Dialogue.Notify.{all_notified}
use arnovich_core.Srv.Dialogue.Push.{pushed, push_dialogue}
use arnovich_core.Srv.Dialogue.EmptyPart.{push_multiple_fails}
use arnovich_core.Srv.Dialogue.Pull.{pulled_by, pull_dialogue}
use arnovich_core.Srv.Dialogue.Confluence.Ends.{AlwaysEnds, push_always, pull_always}

abbrev pub noon : Timeval
noon = record { tv_sec = pos 43200; tv_usec = pos 5 }

abbrev pub no_data : Ticker
no_data = record { m_ticks = []; m_ticker = cstring (65 ∷ []); m_subscribers = [] }

abbrev pub noon_tick : Tick
noon_tick = record { m_datetime = noon; m_data = 7 ∷ 8 ∷ []; m_len = 2 }

abbrev pub with_data : Ticker
with_data = record no_data { m_ticks = noon_tick ∷ [] }

abbrev pub before : Tickers
before = record { m_tickers = no_data ∷ []; m_ntickers = 1 }

abbrev pub after : Tickers
after = record { m_tickers = with_data ∷ []; m_ntickers = 1 }

-- The same with a subscriber.
abbrev heard_before : Tickers
heard_before = record {
  m_tickers = record no_data { m_subscribers = pos 8 ∷ [] } ∷ [];
  m_ntickers = 1;
}

abbrev heard : Ticker
heard = record with_data { m_subscribers = pos 8 ∷ [] }

abbrev heard_after : Tickers
heard_after = record { m_tickers = heard ∷ []; m_ntickers = 1 }

abbrev pub out : Pulled
out = record { tickdata = []; len = 0; datetime = noon }

abbrev pub two_bytes : Pulled
two_bytes = record { tickdata = 7 ∷ 8 ∷ []; len = 2; datetime = noon }

abbrev pub thread : Thread
thread = record {
  connection = pos 4;
  command = pos 0;
  ticker = [];
  id = pos 0;
  len = 0;
  datetime = noon;
  last_pull = noon;
}

pushes : srv_push_tick noon heard_before (pos 0) (7 ∷ 8 ∷ []) 2 ≡ done (success, heard_after)
unfolding srv_push_tick srv_data_init_tick ticker_at put_ticker
pushes = refl

pulls : srv_pull_tick after (pos 0) ≡ done (success, some two_bytes)
unfolding srv_pull_tick ticker_at copy_out
pulls = refl

push_dialogue_example :
    Steps
      (pos 3)
      (pos 4)
      noon
      (config
        (srv_client_push_tick (pos 3) (pos 0) (7 ∷ 8 ∷ []) 2)
        (serve_command 0 thread)
        []
        []
        heard_before
        [])
      (config
        (ret (pos 0))
        (ret (some (pushed thread 0 2)))
        []
        []
        heard_after
        (all_notified (7 ∷ 8 ∷ []) noon (pos 8 ∷ []) []))
push_dialogue_example =
    push_dialogue (pos 3) thread 0 noon heard_before heard_after [] 0 (7 ∷ 8 ∷ []) heard
      (omega arith) (omega arith) (omega arith) pushes refl ((λ e. cc), tt)

push_multiple_fails_example :
    Steps
      (pos 3)
      (pos 4)
      noon
      (config (srv_client_push_tick (pos 3) (pos 0) [] 0) (serve_command 0 thread) [] [] before [])
      (config
        (ret (error_code SrvError.write_error))
        (ret
          (some (record thread { command = command_code Command.push_tick; id = pos 0; len = 0 })))
        []
        []
        before
        [])
push_multiple_fails_example =
    push_multiple_fails (pos 3) thread 0 noon before [] 0 [] refl (omega arith) (omega arith)

pull_dialogue_example :
    Steps
      (pos 3)
      (pos 4)
      noon
      (config (srv_client_pull_tick (pos 3) (pos 0) out) (serve_command 0 thread) [] [] after [])
      (config (ret (pos 0, two_bytes)) (ret (some (pulled_by thread 0 two_bytes))) [] [] after [])
pull_dialogue_example =
    pull_dialogue (pos 3) thread 0 noon after [] 0 (7 ∷ 8 ∷ []) noon out (omega arith) (omega arith)
      (omega arith, omega arith) (omega arith) pulls

push_always_example :
    AlwaysEnds
      (pos 3)
      (pos 4)
      noon
      (config
        (srv_client_push_tick (pos 3) (pos 0) (7 ∷ 8 ∷ []) 2)
        (serve_command 0 thread)
        []
        []
        heard_before
        [])
      (config
        (ret (pos 0))
        (ret (some (pushed thread 0 2)))
        []
        []
        heard_after
        (all_notified (7 ∷ 8 ∷ []) noon (pos 8 ∷ []) []))
push_always_example =
    push_always (pos 3) thread 0 noon heard_before heard_after [] 0 (7 ∷ 8 ∷ []) heard (omega arith)
      (omega arith) (omega arith) pushes refl ((λ e. cc), tt)

pull_always_example :
    AlwaysEnds
      (pos 3)
      (pos 4)
      noon
      (config (srv_client_pull_tick (pos 3) (pos 0) out) (serve_command 0 thread) [] [] after [])
      (config (ret (pos 0, two_bytes)) (ret (some (pulled_by thread 0 two_bytes))) [] [] after [])
pull_always_example =
    pull_always (pos 3) thread 0 noon after [] 0 (7 ∷ 8 ∷ []) noon out (omega arith) (omega arith)
      (omega arith, omega arith) (omega arith) pulls

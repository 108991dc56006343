-- ===== src/Srv/Dialogue/CommandExamples.antt =====
-- More dialogues at concrete stores: the commands without data, and the pulls by time and of an update.
use arnovich_core.Base.{◌≡◌, refl, some, [], ◌∷◌, arith, pos, done}
use arnovich_core.Srv.Types.{success, Timeval, Tickers}
use arnovich_core.Srv.Wire.{error_code, Command, command_code}
use arnovich_core.Srv.Data.{ticker_at, put_ticker, copy_out}
use arnovich_core.Srv.Io.{ret}
use arnovich_core.Srv.Thread.{Thread}
use arnovich_core.Srv.Server.{serve_command}
use arnovich_core.Srv.Dialogue.{config, Steps}
use arnovich_core.Base.CString.{strcpy, strcmp}
use arnovich_core.Srv.Data.{
  srv_add_ticker, srv_get_ticker, srv_pull_tick_by_datetime, srv_pull_tick_update,
  srv_tick_subscribe, srv_tick_unsubscribe,
}
use arnovich_core.Srv.Types.{unknown_ticker}
use arnovich_core.Srv.Client.{
  srv_client_add_ticker, srv_client_subscribe, srv_client_pull_tick_update,
}
use arnovich_core.Srv.Dialogue.PullLater.{update_dialogue}
use arnovich_core.Srv.Dialogue.Commands.{add_dialogue, subscribe_dialogue}
use arnovich_core.Base.{ℕ, List, replicate, ◌+ℤ◌}
use arnovich_core.Srv.Data.{get_loop}
use arnovich_core.Srv.Dialogue.Examples.{noon, no_data, before, after, out, two_bytes, thread}
use arnovich_core.Srv.Client.{srv_client_wait_for_tick}
use arnovich_core.Srv.Dialogue.Notify.{notified}
use arnovich_core.Srv.Dialogue.Wait.{delivered, wait_dialogue}

-- The name A in a buffer of 20 bytes.
abbrev buffer : List ℕ
buffer = 65 ∷ replicate 19 0

abbrev no_tickers : Tickers
no_tickers = record { m_tickers = []; m_ntickers = 0 }

abbrev morning : Timeval
morning = record { tv_sec = pos 30000; tv_usec = pos 0 }

abbrev early_thread : Thread
early_thread = record thread { last_pull = morning }

adds : srv_add_ticker no_tickers buffer ≡ done (success, 0, before)
unfolding srv_add_ticker strcpy
adds = refl

gets : srv_get_ticker before buffer ≡ done (success, some 0)
unfolding srv_get_ticker get_loop strcmp
gets = refl

abbrev subscribed : Tickers
subscribed = record {
  m_tickers = record no_data { m_subscribers = pos 4 ∷ [] } ∷ [];
  m_ntickers = 1;
}

subscribes : srv_tick_subscribe before (pos 0) (pos 4) ≡ done (success, subscribed)
unfolding srv_tick_subscribe ticker_at put_ticker
subscribes = refl

refuses : srv_tick_unsubscribe before (pos 1) (pos 4) ≡ done (unknown_ticker, before)
unfolding srv_tick_unsubscribe
refuses = refl

pulls_by_datetime : srv_pull_tick_by_datetime after (pos 0) noon ≡ done (success, some two_bytes)
unfolding srv_pull_tick_by_datetime ticker_at copy_out
pulls_by_datetime = refl

pulls_update :
    srv_pull_tick_update after (pos 0) (record { tv_sec = pos 30000; tv_usec = pos 1 })
    ≡ done (success, some two_bytes)
unfolding srv_pull_tick_update ticker_at copy_out
pulls_update = refl

add_dialogue_example :
    Steps
      (pos 3)
      (pos 4)
      noon
      (config
        (srv_client_add_ticker (pos 3) buffer (pos 9))
        (serve_command 0 thread)
        []
        []
        no_tickers
        [])
      (config
        (ret (pos 0, pos 0))
        (ret (
          some (record thread {
            command = command_code Command.add_ticker;
            ticker = buffer;
            id = pos 0;
          })))
        []
        []
        before
        [])
add_dialogue_example =
    add_dialogue (pos 3) noon thread 0 no_tickers [] buffer (pos 9) 0 before (omega arith)
      (omega arith) adds

subscribe_dialogue_example :
    Steps
      (pos 3)
      (pos 4)
      noon
      (config (srv_client_subscribe (pos 3) (pos 0)) (serve_command 0 thread) [] [] before [])
      (config
        (ret (error_code success))
        (ret
          (some (record thread { command = command_code Command.subscribe_to_ticker; id = pos 0 })))
        []
        []
        subscribed
        [])
subscribe_dialogue_example =
    subscribe_dialogue (pos 3) noon thread 0 before [] (pos 0) success subscribed (omega arith)
      subscribes

update_dialogue_example :
    Steps
      (pos 3)
      (pos 4)
      noon
      (config
        (srv_client_pull_tick_update (pos 3) (pos 0) out)
        (serve_command 0 early_thread)
        []
        []
        after
        [])
      (config
        (ret (pos 0, two_bytes))
        (ret (
          some (record early_thread {
            command = command_code Command.pull_tick_update;
            id = pos 0;
            len = 2;
            datetime = noon;
            last_pull = noon;
          })))
        []
        []
        after
        [])
unfolding ◌+ℤ◌
update_dialogue_example =
    update_dialogue (pos 3) noon after [] (7 ∷ 8 ∷ []) noon out (omega arith) (omega arith)
      (omega arith, omega arith) early_thread 0 0 (omega arith) pulls_update

wait_dialogue_example :
    Steps
      (pos 3)
      (pos 4)
      noon
      (config
        (srv_client_wait_for_tick (pos 3) out)
        (serve_command 0 thread)
        []
        (delivered (pos 8) (notified (7 ∷ 8 ∷ []) noon (pos 8) []))
        after
        [])
      (config (ret (pos 0, two_bytes)) (serve_command 0 thread) [] [] after [])
wait_dialogue_example =
    wait_dialogue (pos 3) (pos 4) noon (7 ∷ 8 ∷ []) after [] (serve_command 0 thread) (pos 8) noon
      out (omega arith) (omega arith) (omega arith, omega arith)

-- ===== src/Srv/Dialogue/Commands.antt =====
-- The commands that carry no data: to add and to look up a ticker, to subscribe and to unsubscribe. The
-- client's call and the server's handler run against each other.
use arnovich_core.Base.{
  ℕ, ◌*◌, ◌^◌, ◌≤◌, ◌<◌, ◌≡◌, Bool-cases, inl, inr, some, List, [], arith, ℤ, pos, eqb_ℤ,
  eq_of_eqb_ℤ, length, done,
}
use arnovich_core.Srv.Types.{SrvError, success, unknown, Timeval, Tickers, srv_ticker_len}
use arnovich_core.Srv.Wire.{int_bytes, bytes_int, error_code, Command, command_code}
use arnovich_core.Srv.Wire.Decode.{length-int_bytes, bytes_int-int_bytes, IsInt}
use arnovich_core.Srv.Data.{
  srv_add_ticker, srv_get_ticker, srv_tick_subscribe, srv_tick_unsubscribe,
}
use arnovich_core.Srv.Io.{ret, write_part, query_store, update_store}
use arnovich_core.Srv.Io.Buffer.{part, length-part, slice-part}
use arnovich_core.Srv.Thread.{Thread, error_rtn}
use arnovich_core.Srv.Server.{
  again, handle_add_ticker, handle_get_ticker, handle_subscribe, handle_unsubscribe, handle,
  serve_command,
}
use arnovich_core.Srv.Client.{
  read_status, name_to_id, srv_client_add_ticker, srv_client_get_ticker, srv_client_subscribe,
  srv_client_unsubscribe,
}
use arnovich_core.Srv.Dialogue.{config, server_stores, Steps, here, next, sent_up, sent_down}
use arnovich_core.Srv.Dialogue.Push.{status-success}

code-bytes : (err : SrvError) → bytes_int (int_bytes (error_code err)) ≡ error_code err
unfolding error_code
code-bytes err = bytes_int-int_bytes (error_code err) (fits err)
  where
    fits : (err : SrvError) → IsInt (error_code err)
    fits success = omega arith
    fits unknown = omega arith
    fits SrvError.connection_error = omega arith
    fits SrvError.write_error = omega arith
    fits SrvError.read_error = omega arith
    fits SrvError.unknown_ticker = omega arith
    fits SrvError.no_tickdata = omega arith
    fits SrvError.ticker_exists = omega arith

module _ (c : ℤ) (now : Timeval) (t : Thread) (ts : Tickers) (o : List (ℤ × List ℕ)) where
  -- The client returns the code that the server sends.
  status_reply :
      (err : SrvError)
      → Steps c t.connection now
          (config
            (read_status c (λ e. e) (ret (pos 0)))
            (again (error_rtn t.connection err (ret t) (ret t)))
            []
            []
            ts
            o)
          (config (ret (error_code err)) (ret (some t)) [] [] ts o)
  unfolding error_rtn read_status error_code
  status_reply err = elim (Bool-cases (eqb_ℤ (error_code err) (pos 0))) [
    | inl e ↦ sent_down (int_bytes (error_code err)) 4 _ _ (length-int_bytes _) (
        rw
          (
            length-int_bytes (error_code err),
            code-bytes err,
            e,
            eq_of_eqb_ℤ (error_code err) (pos 0) e,
          )
          here)
    | inr e ↦
        sent_down (int_bytes (error_code err)) 4 _ _ (length-int_bytes _)
          (rw (length-int_bytes (error_code err), code-bytes err, e) here)
  ]

module _ (c : ℤ) (now : Timeval) (t : Thread) (fill : ℕ) (ts : Tickers)
    (o : List (ℤ × List ℕ)) where
  -- The whole subscription: if srv_tick_subscribe returns a code, the client's call and one round of the
  -- server's thread run to their ends, for every id that an int holds: the client returns that code and
  -- the store is that of srv_tick_subscribe, for the thread's connection.
  pub subscribe_dialogue :
      (id : ℤ) (err : SrvError) (ts' : Tickers)
      → IsInt id
      → srv_tick_subscribe ts id t.connection ≡ done (err, ts')
      → Steps c t.connection now
          (config (srv_client_subscribe c id) (serve_command fill t) [] [] ts o)
          (config
            (ret (error_code err))
            (ret (some (record t { command = command_code Command.subscribe_to_ticker; id = id })))
            []
            []
            ts'
            o)
  unfolding srv_client_subscribe serve_command handle handle_subscribe command_code update_store
      error_code
  subscribe_dialogue id err ts' int run = sent_up (int_bytes (pos 8)) 4 _ _ (length-int_bytes _) (
      rw (length-int_bytes, bytes_int-int_bytes (pos 8) (omega arith))
        (sent_up (int_bytes id) 4 _ _ (length-int_bytes _) (
          rw (length-int_bytes id, bytes_int-int_bytes id int)
            (next (server_stores _ _ _ [] [] ts o)
              (rw run (status_reply c now (record t { command = pos 8; id = id }) ts' o err))))))

  -- The whole end of a subscription: if srv_tick_unsubscribe returns a code, the client's call and one
  -- round of the server's thread run to their ends, for every id that an int holds: the client returns
  -- that code and the store is that of srv_tick_unsubscribe, for the thread's connection.
  pub unsubscribe_dialogue :
      (id : ℤ) (err : SrvError) (ts' : Tickers)
      → IsInt id
      → srv_tick_unsubscribe ts id t.connection ≡ done (err, ts')
      → Steps c t.connection now
          (config (srv_client_unsubscribe c id) (serve_command fill t) [] [] ts o)
          (config
            (ret (error_code err))
            (ret
              (some (record t { command = command_code Command.unsubscribe_to_ticker; id = id })))
            []
            []
            ts'
            o)
  unfolding srv_client_unsubscribe serve_command handle handle_unsubscribe command_code update_store
      error_code
  unsubscribe_dialogue id err ts' int run = sent_up (int_bytes (pos 9)) 4 _ _ (length-int_bytes _) (
      rw (length-int_bytes, bytes_int-int_bytes (pos 9) (omega arith))
        (sent_up (int_bytes id) 4 _ _ (length-int_bytes _) (
          rw (length-int_bytes id, bytes_int-int_bytes id int)
            (next (server_stores _ _ _ [] [] ts o)
              (rw run (status_reply c now (record t { command = pos 9; id = id }) ts' o err))))))

  -- The whole addition: from a buffer of at least 20 bytes, if srv_add_ticker succeeds on the first 20
  -- and the new id fits an int, the client's call and one round of the server's thread run to their
  -- ends: the client returns success and the new id, and the store is that of srv_add_ticker.
  pub add_dialogue :
      (buffer : List ℕ) (old : ℤ) (i : ℕ) (ts' : Tickers)
      → srv_ticker_len ≤ length buffer
      → 2 * i < 2 ^ 32
      → srv_add_ticker ts (part buffer 0 srv_ticker_len) ≡ done (success, i, ts')
      → Steps c t.connection now
          (config (srv_client_add_ticker c buffer old) (serve_command fill t) [] [] ts o)
          (config
            (ret (pos 0, pos i))
            (ret (
              some (record t {
                command = command_code Command.add_ticker;
                ticker = part buffer 0 srv_ticker_len;
                id = pos i;
              })))
            []
            []
            ts'
            o)
  unfolding srv_client_add_ticker name_to_id serve_command handle handle_add_ticker command_code
      update_store error_code write_part error_rtn read_status
  add_dialogue buffer old i ts' long int run =
      sent_up (int_bytes (pos 2)) 4 _ _ (length-int_bytes _) (
        rw
          (
            length-int_bytes,
            bytes_int-int_bytes (pos 2) (omega arith),
            slice-part buffer 0 srv_ticker_len (omega arith),
          )
          (sent_up (part buffer 0 srv_ticker_len) srv_ticker_len _ _
            (length-part buffer 0 srv_ticker_len (omega arith))
            (rw (length-part buffer 0 srv_ticker_len (omega arith)) (
              next (server_stores _ _ _ [] [] ts o) (
                rw run (
                  sent_down (int_bytes (pos 0)) 4 _ _ (length-int_bytes _) (
                    rw (length-int_bytes (pos 0), status-success)
                      (sent_down (int_bytes (pos i)) 4 _ _ (length-int_bytes _) (
                        rw (length-int_bytes (pos i), bytes_int-int_bytes (pos i) int) here)))))))))

  -- The whole look-up of a name that is known: from a buffer of at least 20 bytes, if srv_get_ticker
  -- finds an id for the first 20 and it fits an int, the client's call and one round of the server's
  -- thread run to their ends: the client returns success and that id, and the store is as before.
  pub get_dialogue :
      (buffer : List ℕ) (old : ℤ) (i : ℕ)
      → srv_ticker_len ≤ length buffer
      → 2 * i < 2 ^ 32
      → srv_get_ticker ts (part buffer 0 srv_ticker_len) ≡ done (success, some i)
      → Steps c t.connection now
          (config (srv_client_get_ticker c buffer old) (serve_command fill t) [] [] ts o)
          (config
            (ret (pos 0, pos i))
            (ret (
              some (record t {
                command = command_code Command.get_ticker;
                ticker = part buffer 0 srv_ticker_len;
                id = pos i;
              })))
            []
            []
            ts
            o)
  unfolding srv_client_get_ticker name_to_id serve_command handle handle_get_ticker command_code
      query_store error_code write_part error_rtn read_status
  get_dialogue buffer old i long int run = sent_up (int_bytes (pos 3)) 4 _ _ (length-int_bytes _) (
      rw
        (
          length-int_bytes,
          bytes_int-int_bytes (pos 3) (omega arith),
          slice-part buffer 0 srv_ticker_len (omega arith),
        )
        (sent_up (part buffer 0 srv_ticker_len) srv_ticker_len _ _
          (length-part buffer 0 srv_ticker_len (omega arith))
          (rw (length-part buffer 0 srv_ticker_len (omega arith)) (
            next (server_stores _ _ _ [] [] ts o) (
              rw run (
                sent_down (int_bytes (pos 0)) 4 _ _ (length-int_bytes _) (
                  rw (length-int_bytes (pos 0), status-success)
                    (sent_down (int_bytes (pos i)) 4 _ _ (length-int_bytes _)
                      (rw (length-int_bytes (pos i), bytes_int-int_bytes (pos i) int) here)))))))))

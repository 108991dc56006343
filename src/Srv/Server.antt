-- ===== src/Srv/Server.antt =====
-- The server thread of src/lib/core_srv/core_srv_server.c: one function for each command. A `break`
-- that leaves the switch is `ret` of the thread's variables, and the thread reads the next command.
use arnovich_core.Base.{
  ℕ, zero, suc, ◌%◌, Bool, Option, none, some, List, [], ◌∷◌, not, if◌then◌else◌, ℤ, pos, ◌+ℤ◌,
  eqb_ℤ, replicate, Outcome, done, fault,
}
use arnovich_core.Srv.Types.{
  SrvError, success, Timeval, later, Tickers, srv_ticker_len, srv_buffer_len,
}
use arnovich_core.Srv.Wire.{size_bytes, timeval_bytes, error_code, Command, command_code}
use arnovich_core.Srv.Data.{
  srv_add_ticker, srv_get_ticker, srv_push_tick, srv_pull_tick, srv_pull_tick_by_datetime,
  srv_pull_tick_update, srv_tick_subscribe, srv_tick_unsubscribe, Pulled, ticker_at,
}
use arnovich_core.Srv.Thread.{
  Thread, unless_closed, error_rtn, chunk_count, read_chunk, write_chunk, receive_chunks,
  send_chunks, send_acknowledged,
}
use arnovich_core.Types.Matrix.{rounds}
use arnovich_core.Srv.Io.{
  Io, ret, crash, clock, ◌>>=◌, ◌>>◌, read_into, read_int, read_size, read_timeval, write_bytes,
  write_int, update_store, query_store,
}

-- srv_add_ticker as an operation on the store.
abbrev pub add_result : Outcome (SrvError × ℕ × Tickers) → Outcome ((SrvError × ℕ) × Tickers)
add_result (done (err, id, s)) = done ((err, id), s)
add_result fault = fault

unfoldable pub handle_add_ticker : Thread → Io Thread
handle_add_ticker t = do
  (nelem, ticker) ← read_into t.connection srv_ticker_len (λ bs. bs) t.ticker
  let t₁ = record t { ticker = ticker }
  unless_closed nelem (ret t₁) (do
    (err, id) ← update_store (λ s. add_result (srv_add_ticker s ticker))
    let t₂ = record t₁ { id = pos id }
    error_rtn t.connection err (ret t₂) (do write_int t.connection (pos id); ret t₂))

abbrev found_id : Option ℕ → ℤ → ℤ
found_id none old = old
found_id (some id) old = pos id

unfoldable pub handle_get_ticker : Thread → Io Thread
handle_get_ticker t = do
  (nelem, ticker) ← read_into t.connection srv_ticker_len (λ bs. bs) t.ticker
  let t₁ = record t { ticker = ticker }
  unless_closed nelem (ret t₁) (do
    (err, id) ← query_store (λ s. srv_get_ticker s ticker)
    let t₂ = record t₁ { id = found_id id t₁.id }
    error_rtn t.connection err (ret t₂) (do write_int t.connection t₂.id; ret t₂))

-- The loop over the subscribers. A `break` in the inner loop leaves that loop alone.
unfoldable pub notify_loop : List ℕ → ℕ → Timeval → List ℤ → Io (Unit {0})
notify_loop tickdata len datetime [] = ret tt
notify_loop tickdata len datetime (subscr ∷ rest) = do
  nelem ← write_int subscr (command_code Command.notify_subscriber)
  unless_closed nelem (ret tt) (do
    nelem ← write_bytes subscr (size_bytes len)
    unless_closed nelem (ret tt) (do
      nelem ← write_chunk subscr tickdata (chunk_count len) (len % srv_buffer_len)
      unless_closed nelem (ret tt) (do
        send_chunks subscr tickdata (rounds (chunk_count len))
        nelem ← write_bytes subscr (timeval_bytes datetime)
        unless_closed nelem (ret tt) (notify_loop tickdata len datetime rest))))

-- The part of the push that follows the transfer of the data.
unfoldable pub push_received : Thread → List ℕ → Io Thread
push_received t tickdata = clock (λ now. do
  rtn ← update_store (λ s. srv_push_tick now s t.id tickdata t.len)
  error_rtn t.connection rtn (ret t) (do
    ticker ← query_store (λ s. ticker_at s t.id)
    notify_loop tickdata t.len t.datetime ticker.m_subscribers
    ret (record t { command = command_code Command.notify_subscriber })))

-- The transfer of the data into fresh memory of the length that the client has sent; `fill` is the
-- byte that fresh memory happens to hold.
unfoldable pub push_data : ℕ → Thread → Io Thread
push_data fill t = do
  (nelem, tickdata) ←
      read_chunk t.connection (replicate t.len fill) (chunk_count t.len) (t.len % srv_buffer_len)
  unless_closed nelem (ret t) (do
    write_int t.connection (error_code success)
    tickdata' ← receive_chunks t.connection tickdata (rounds (chunk_count t.len))
    push_received t tickdata')

unfoldable pub handle_push_tick : ℕ → Thread → Io Thread
handle_push_tick fill t = do
  (nelem, id) ← read_int t.connection t.id
  let t₁ = record t { id = id }
  unless_closed nelem (ret t₁) (do
    (nelem, len) ← read_size t.connection t.len
    let t₂ = record t₁ { len = len }
    unless_closed nelem (ret t₂) (push_data fill t₂))

-- What a pull that succeeds has written through its pointers.
abbrev pub pulled_out : Option Pulled → Io Pulled
pulled_out none = crash
pulled_out (some p) = ret p

-- The reply of a pull that has found a tick: the length, then the data with an acknowledgement for each
-- chunk, then the time.
unfoldable pub send_acknowledged_tick : Thread → Pulled → Io Thread
send_acknowledged_tick t p = do
  nelem ← write_bytes t.connection (size_bytes p.len)
  unless_closed nelem (ret t) (do
    nelem ← write_chunk t.connection p.tickdata (chunk_count p.len) (p.len % srv_buffer_len)
    unless_closed nelem (ret t) (do
      (nelem, err) ← read_int t.connection (error_code success)
      unless_closed nelem (ret t) (
          if not (eqb_ℤ err (pos 0)) then ret t else do
            send_acknowledged t.connection p.tickdata (rounds (chunk_count p.len)) err
            nelem ← write_bytes t.connection (timeval_bytes p.datetime)
            unless_closed nelem (ret t) (ret (record t { last_pull = p.datetime })))))

unfoldable pub pull_tick_of : Thread → Io Thread
pull_tick_of t = do
  (rtn, out) ← query_store (λ s. srv_pull_tick s t.id)
  error_rtn t.connection rtn (ret t) (do
    p ← pulled_out out
    send_acknowledged_tick (record t { len = p.len; datetime = p.datetime }) p)

unfoldable pub handle_pull_tick : Thread → Io Thread
handle_pull_tick t = do
  (nelem, id) ← read_int t.connection t.id
  let t₁ = record t { id = id }
  unless_closed nelem (ret t₁) (pull_tick_of t₁)

-- The reply of the two pulls that do not wait for acknowledgements: the length, the data and the time.
-- `finish` is what the thread's variables become once all is sent.
unfoldable pub send_pulled : Thread → Pulled → (Thread → Thread) → Io Thread
send_pulled t p finish = do
  nelem ← write_bytes t.connection (size_bytes p.len)
  unless_closed nelem (ret t) (do
    nelem ← write_chunk t.connection p.tickdata (chunk_count p.len) (p.len % srv_buffer_len)
    unless_closed nelem (ret t) (do
      send_chunks t.connection p.tickdata (rounds (chunk_count p.len))
      nelem ← write_bytes t.connection (timeval_bytes p.datetime)
      unless_closed nelem (ret t) (ret (finish t))))

abbrev pub raise_last_pull : Thread → Thread
raise_last_pull t = if later t.datetime t.last_pull then record t { last_pull = t.datetime } else t

unfoldable pub handle_pull_tick_by_datetime : Thread → Io Thread
handle_pull_tick_by_datetime t = do
  (nelem, id) ← read_int t.connection t.id
  let t₁ = record t { id = id }
  unless_closed nelem (ret t₁) (do
    (nelem, datetime) ← read_timeval t.connection t.datetime
    let t₂ = record t₁ { datetime = datetime }
    unless_closed nelem (ret t₂) (do
      (rtn, out) ← query_store (λ s. srv_pull_tick_by_datetime s id datetime)
      error_rtn t.connection rtn (ret t₂) (do
        p ← pulled_out out
        send_pulled (record t₂ { len = p.len; datetime = p.datetime }) p raise_last_pull)))

-- The time that an update asks for: one microsecond after the last pull, with no carry.
abbrev pub after_last_pull : Timeval → Timeval
after_last_pull d = record d { tv_usec = d.tv_usec +ℤ pos 1 }

unfoldable pub handle_pull_tick_update : Thread → Io Thread
handle_pull_tick_update t = do
  (nelem, id) ← read_int t.connection t.id
  let t₁ = record t { id = id }
  unless_closed nelem (ret t₁) (do
    let datetime = after_last_pull t.last_pull
    let t₂ = record t₁ { datetime = datetime }
    (rtn, out) ← query_store (λ s. srv_pull_tick_update s id datetime)
    error_rtn t.connection rtn (ret t₂) (do
      p ← pulled_out out
      send_pulled (record t₂ { len = p.len; datetime = p.datetime }) p
          (λ u. record u { last_pull = u.datetime })))

unfoldable pub handle_subscribe : Thread → Io Thread
handle_subscribe t = do
  (nelem, id) ← read_int t.connection t.id
  let t₁ = record t { id = id }
  unless_closed nelem (ret t₁) (do
    rtn ← update_store (λ s. srv_tick_subscribe s id t.connection)
    error_rtn t.connection rtn (ret t₁) (ret t₁))

unfoldable pub handle_unsubscribe : Thread → Io Thread
handle_unsubscribe t = do
  (nelem, id) ← read_int t.connection t.id
  let t₁ = record t { id = id }
  unless_closed nelem (ret t₁) (do
    rtn ← update_store (λ s. srv_tick_unsubscribe s id t.connection)
    error_rtn t.connection rtn (ret t₁) (ret t₁))

abbrev pub is : Thread → Command → Bool
is t c = eqb_ℤ t.command (command_code c)

abbrev pub again : Io Thread → Io (Option Thread)
again m = do u ← m; ret (some u)

-- The switch. `none` means that the thread returns.
unfoldable pub handle : ℕ → Thread → Io (Option Thread)
handle fill t =
    if is t Command.open_connection
    then ret (some t)
    else if is t Command.close_connection
    then ret none
    else if is t Command.add_ticker
    then again (handle_add_ticker t)
    else if is t Command.get_ticker
    then again (handle_get_ticker t)
    else if is t Command.push_tick
    then again (handle_push_tick fill t)
    else if is t Command.pull_tick
    then again (handle_pull_tick t)
    else if is t Command.pull_tick_by_datetime
    then again (handle_pull_tick_by_datetime t)
    else if is t Command.pull_tick_update
    then again (handle_pull_tick_update t)
    else if is t Command.subscribe_to_ticker
    then again (handle_subscribe t)
    else if is t Command.unsubscribe_to_ticker
    then again (handle_unsubscribe t)
    else ret (some t)

-- One round of the thread's loop: a command is read and handled.
unfoldable pub serve_command : ℕ → Thread → Io (Option Thread)
serve_command fill t = do
  (nelem, command) ← read_int t.connection t.command
  unless_closed nelem (ret none) (handle fill (record t { command = command }))

-- The thread's loop for a number of rounds: `none` once it has returned.
unfoldable pub srv_run_server_thread : ℕ → ℕ → Thread → Io (Option Thread)
srv_run_server_thread fill zero t = ret (some t)
srv_run_server_thread fill (suc rounds) t = serve_command fill t >>= λ o. elim o [
  | none ↦ ret none
  | some u ↦ srv_run_server_thread fill rounds u
]

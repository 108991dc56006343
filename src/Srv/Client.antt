-- ===== src/Srv/Client.antt =====
-- src/lib/core_srv/core_srv_client.c: the calls of a client. Each returns the code of its SRV_ERROR,
-- with what it has written through its pointers. The results of write that the source ignores are
-- ignored here. `nelem` is a size_t, so that `nelem <= 0` is a test for 0.
use arnovich_core.Base.{
  ℕ, zero, suc, ◌*◌, ◌/◌, ◌%◌, Bool, true, false, List, ◌==◌, if◌then◌else◌, ℤ, pos, negsuc, eqb_ℤ,
  replicate,
}
use arnovich_core.Srv.Types.{SrvError, success, Timeval, srv_ticker_len, srv_buffer_len}
use arnovich_core.Srv.Wire.{size_bytes, timeval_bytes, error_code, Command, command_code}
use arnovich_core.Srv.Thread.{unless_closed}
use arnovich_core.Srv.Data.{Pulled}
use arnovich_core.Srv.Io.{
  Io, ret, ◌>>=◌, ◌>>◌, read_int, read_size, read_timeval, write_bytes, write_int, read_part,
  write_part,
}

abbrev pub code : SrvError → ℤ
code err = error_code err

pub data SocketType : Type 0 where
  local_pipes tcp_ip other : SocketType

-- What the system answers to `socket` and `connect`: negative results are errors.
pub record Network : Type 0 where
  pub socket : ℤ
  pub connect : ℤ

abbrev pub is_negative : ℤ → Bool
is_negative (pos n) = false
is_negative (negsuc n) = true

unfoldable pub open_connection : Network → Io ℤ
open_connection n =
    if is_negative n.socket
    then ret (code SrvError.connection_error)
    else if is_negative n.connect
    then ret (code SrvError.connection_error)
    else do
      r ← write_int n.socket (command_code Command.open_connection)
      ret (if r == 4 then code success else code SrvError.write_error)

unfoldable pub srv_client_connect : Network → SocketType → Io ℤ
srv_client_connect n SocketType.other = ret (code SrvError.unknown)
srv_client_connect n SocketType.local_pipes = open_connection n
srv_client_connect n SocketType.tcp_ip = open_connection n

unfoldable pub srv_client_close_connection : ℤ → Io (Unit {0})
srv_client_close_connection connection = do
  write_int connection (command_code Command.close_connection)
  ret tt

-- The return code of the server: 0 bytes mean that it closed the connection.
unfoldable pub read_status : {A : Type 0} → ℤ → (ℤ → A) → Io A → Io A
read_status connection stop go = do
  (nelem, err) ← read_int connection (code success)
  unless_closed nelem (ret (stop (code SrvError.read_error)))
      (if eqb_ℤ err (code success) then go else ret (stop err))

-- srv_client_add_ticker and srv_client_get_ticker send a name and read an id. The name is read from
-- a buffer of 20 bytes at least.
unfoldable pub name_to_id : Command → ℤ → List ℕ → ℤ → Io (ℤ × ℤ)
name_to_id command connection ticker id = do
  write_int connection (command_code command)
  write_part connection ticker 0 srv_ticker_len
  read_status connection (λ err. (err, id))
      (do
        (nelem, id') ← read_int connection id
        unless_closed nelem (ret (code SrvError.read_error, id')) (ret (code success, id')))

unfoldable pub srv_client_add_ticker : ℤ → List ℕ → ℤ → Io (ℤ × ℤ)
srv_client_add_ticker = name_to_id Command.add_ticker

unfoldable pub srv_client_get_ticker : ℤ → List ℕ → ℤ → Io (ℤ × ℤ)
srv_client_get_ticker = name_to_id Command.get_ticker

-- for(; i>0; --i) of the push: `go` follows the loop.
unfoldable pub push_chunks : ℤ → List ℕ → ℕ → Io ℤ → Io ℤ
push_chunks connection tickdata zero go = go
push_chunks connection tickdata (suc i) go = do
  nelem ← write_part connection tickdata (srv_buffer_len * i) srv_buffer_len
  unless_closed nelem (ret (code SrvError.write_error)) (do
    (_, err) ← read_int connection (code success)
    if eqb_ℤ err (code success) then push_chunks connection tickdata i go else ret err)

-- What follows the command.
unfoldable pub push_body : ℤ → ℤ → List ℕ → ℕ → Io ℤ
push_body connection id tickdata len = do
  write_int connection id
  write_bytes connection (size_bytes len)
  nelem ←
      write_part connection tickdata (srv_buffer_len * (len / srv_buffer_len))
        (len % srv_buffer_len)
  unless_closed nelem (ret (code SrvError.write_error)) (do
    (_, err) ← read_int connection (code success)
    if eqb_ℤ err (code success)
        then push_chunks connection tickdata (len / srv_buffer_len)
            (read_status connection (λ err. err) (ret (code success)))
        else ret err)

unfoldable pub srv_client_push_tick : ℤ → ℤ → List ℕ → ℕ → Io ℤ
srv_client_push_tick connection id tickdata len = do
  write_int connection (command_code Command.push_tick)
  push_body connection id tickdata len

-- err = SUCCESS; write(...) where a pull acknowledges.
abbrev pub acknowledge : Bool → ℤ → Io (ℤ × Pulled) → Io (ℤ × Pulled)
acknowledge false connection go = go
acknowledge true connection go = do write_int connection (code success); go

-- for(; i>0; --i) of a pull: chunks are read into the buffer, the last one first, and acknowledged if
-- `ack` says so. `go` follows the loop with the buffer.
unfoldable pub read_chunks :
    Bool → ℤ → (List ℕ → ℤ × Pulled) → (List ℕ → Io (ℤ × Pulled)) → List ℕ → ℕ → Io (ℤ × Pulled)
read_chunks ack connection stop go tickdata zero = go tickdata
read_chunks ack connection stop go tickdata (suc i) = do
  (nelem, tickdata') ← read_part connection tickdata (srv_buffer_len * i) srv_buffer_len
  unless_closed nelem (ret (stop tickdata'))
      (acknowledge ack connection (read_chunks ack connection stop go tickdata' i))

-- The time that follows the chunks.
unfoldable pub read_time : ℤ → Pulled → Io (ℤ × Pulled)
read_time connection out = do
  (nelem, datetime) ← read_timeval connection out.datetime
  let out' = record out { datetime = datetime }
  unless_closed nelem (ret (code SrvError.read_error, out')) (ret (code success, out'))

-- The data of `out.len` bytes, read into a zeroed buffer, and the time.
unfoldable pub read_body : Bool → ℤ → Pulled → Io (ℤ × Pulled)
read_body ack connection out = do
  (nelem, tickdata) ←
      read_part connection (replicate out.len 0) (srv_buffer_len * (out.len / srv_buffer_len))
        (out.len % srv_buffer_len)
  unless_closed nelem (ret (code SrvError.read_error, record out { tickdata = tickdata })) (
      acknowledge ack connection (
        read_chunks ack connection (λ d. (code SrvError.read_error, record out { tickdata = d }))
          (λ d. read_time connection (record out { tickdata = d })) tickdata
          (out.len / srv_buffer_len)))

-- The end of each pull and of the wait: the length, the data and the time. `out` is what the pointers
-- hold before.
unfoldable pub read_tick : Bool → ℤ → Pulled → Io (ℤ × Pulled)
read_tick ack connection out = do
  (nelem, len) ← read_size connection out.len
  let out' = record out { len = len }
  unless_closed nelem (ret (code SrvError.read_error, out')) (read_body ack connection out')

unfoldable pub srv_client_pull_tick : ℤ → ℤ → Pulled → Io (ℤ × Pulled)
srv_client_pull_tick connection id out = do
  write_int connection (command_code Command.pull_tick)
  write_int connection id
  read_status connection (λ err. (err, out)) (read_tick true connection out)

unfoldable pub srv_client_pull_tick_by_datetime : ℤ → ℤ → Timeval → Pulled → Io (ℤ × Pulled)
srv_client_pull_tick_by_datetime connection id datetime out = do
  write_int connection (command_code Command.pull_tick_by_datetime)
  write_int connection id
  write_bytes connection (timeval_bytes datetime)
  read_status connection (λ err. (err, out)) (read_tick false connection out)

unfoldable pub srv_client_pull_tick_update : ℤ → ℤ → Pulled → Io (ℤ × Pulled)
srv_client_pull_tick_update connection id out = do
  write_int connection (command_code Command.pull_tick_update)
  write_int connection id
  read_status connection (λ err. (err, out)) (read_tick false connection out)

unfoldable pub srv_client_subscribe : ℤ → ℤ → Io ℤ
srv_client_subscribe connection id = do
  write_int connection (command_code Command.subscribe_to_ticker)
  write_int connection id
  read_status connection (λ err. err) (ret (code success))

unfoldable pub srv_client_unsubscribe : ℤ → ℤ → Io ℤ
srv_client_unsubscribe connection id = do
  write_int connection (command_code Command.unsubscribe_to_ticker)
  write_int connection id
  read_status connection (λ err. err) (ret (code success))

unfoldable pub srv_client_wait_for_tick : ℤ → Pulled → Io (ℤ × Pulled)
srv_client_wait_for_tick connection out = do
  (nelem, command) ← read_int connection (command_code Command.invalid)
  unless_closed nelem (ret (code SrvError.read_error, out)) (
      if eqb_ℤ command (command_code Command.notify_subscriber)
      then read_tick false connection out
      else ret (code SrvError.unknown, out))

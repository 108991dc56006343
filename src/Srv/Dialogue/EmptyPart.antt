-- ===== src/Srv/Dialogue/EmptyPart.antt =====
-- A push of data whose length is a multiple of the buffer size, 0 included.
use arnovich_core.Base.{
  ℕ, ◌+◌, ◌*◌, ◌/◌, ◌%◌, ◌^◌, ◌<◌, ◌≡◌, refl, some, List, [], arith, ℤ, pos, length, replicate,
}
use arnovich_core.Srv.Types.{SrvError, Timeval, Tickers, srv_buffer_len}
use arnovich_core.Srv.Wire.{int_bytes, size_bytes, error_code, Command, command_code}
use arnovich_core.Srv.Wire.Decode.{
  length-int_bytes, length-size_bytes, bytes_int-int_bytes, bytes_size-size_bytes,
}
use arnovich_core.Srv.Io.{ret, read_part, write_part}
use arnovich_core.Srv.Io.Buffer.{slice-part, splice-Agrees, Agrees-end}
use arnovich_core.Srv.Thread.{Thread, overflow_len, chunk_count-small, int_offset-small}
use arnovich_core.Srv.Server.{push_data, handle_push_tick, serve_command}
use arnovich_core.Srv.Client.{push_body, srv_client_push_tick}
use arnovich_core.Srv.Dialogue.{config, Steps, here, sent_up}
use arnovich_core.Srv.Dialogue.Push.{handle_push}

-- Of data shorter than 2147488000 bytes whose length is a multiple of 8000, to an id that an int holds:
-- the write of the 0 bytes that exceed the multiple answers 0, which both sides take for a closed
-- connection; the client returns SRV_ERROR_WRITE_ERROR, the server goes on to the next command, and the
-- store is as before.
pub push_multiple_fails :
    (c : ℤ) (t : Thread) (fill : ℕ) (now : Timeval) (ts : Tickers) (o : List (ℤ × List ℕ)) (i : ℕ)
    (xs : List ℕ)
    → length xs % srv_buffer_len ≡ 0
    → length xs < overflow_len
    → 2 * i < 2 ^ 32
    → Steps c t.connection now
        (config (srv_client_push_tick c (pos i) xs (length xs)) (serve_command fill t) [] [] ts o)
        (config
          (ret (error_code SrvError.write_error))
          (ret (
            some
              (record t { command = command_code Command.push_tick; id = pos i; len = length xs })))
          []
          []
          ts
          o)
unfolding srv_client_push_tick serve_command push_body handle_push_tick
push_multiple_fails c t fill now ts o i xs multiple small int =
    let off = srv_buffer_len * (length xs / srv_buffer_len) in
    let (b, run, w) =
      splice-Agrees xs (replicate (length xs) fill) off 0 (omega arith)
        (Agrees-end xs fill (off + 0) (omega arith)) in
    sent_up (int_bytes (command_code Command.push_tick)) 4 _ _ (length-int_bytes _) (
      rw
        (
          length-int_bytes,
          bytes_int-int_bytes (command_code Command.push_tick) (unfold command_code in omega arith),
          handle_push,
        )
        (sent_up (int_bytes (pos i)) 4 _ _ (length-int_bytes _) (
          rw (length-int_bytes (pos i), bytes_int-int_bytes (pos i) int)
            (sent_up (size_bytes (length xs)) 8 _ _ (length-size_bytes _) (
              rw (length-size_bytes (length xs), bytes_size-size_bytes (length xs) (omega arith))
                (unfold push_data write_part read_part in
                  rw
                    (
                      multiple,
                      chunk_count-small (length xs) small,
                      int_offset-small (length xs / srv_buffer_len) (omega arith),
                      slice-part xs (srv_buffer_len * (length xs / srv_buffer_len)) 0 (omega arith),
                    )
                    (sent_up [] 0 _ _ refl (rw run here))))))))

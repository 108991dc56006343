-- ===== src/Srv/Dialogue/PullLater.antt =====
-- The pull by time and the pull of an update: the client's call and the server's handler run against
-- each other. Their chunks are not acknowledged.
use arnovich_core.Base.{
  ℕ, zero, suc, ◌+◌, ◌*◌, ◌/◌, ◌%◌, ◌^◌, ◌≤◌, ◌<◌, ◌≡◌, ◌≢◌, false, some, List, [], arith, ne→==, ℤ,
  pos, length, replicate, done,
}
use arnovich_core.Srv.Types.{success, Timeval, Tickers, srv_buffer_len}
use arnovich_core.Srv.Wire.{int_bytes, size_bytes, timeval_bytes, error_code, Command, command_code}
use arnovich_core.Srv.Wire.Decode.{
  length-int_bytes, length-size_bytes, bytes_int-int_bytes, bytes_size-size_bytes, IsTime,
  length-timeval_bytes, bytes_timeval-timeval_bytes,
}
use arnovich_core.Srv.Data.{srv_pull_tick_by_datetime, srv_pull_tick_update, Pulled}
use arnovich_core.Srv.Io.{Io, ret, ◌>>◌, bind_assoc, read_part, write_part, query_store}
use arnovich_core.Srv.Io.Buffer.{
  part, length-part, slice-part, Agrees, splice-Agrees, Agrees-all, Agrees-end,
}
use arnovich_core.Srv.Thread.{
  Thread, error_rtn, send_chunks, overflow_len, chunk_count-small, int_offset-small,
}
use arnovich_core.Srv.Server.{
  again, handle_pull_tick_by_datetime, handle_pull_tick_update, send_pulled, raise_last_pull,
  after_last_pull, handle, serve_command,
}
use arnovich_core.Srv.Client.{
  read_status, read_chunks, read_tick, read_body, read_time, srv_client_pull_tick_by_datetime,
  srv_client_pull_tick_update,
}
use arnovich_core.Srv.Dialogue.{
  Config, config, server_stores, Steps, here, next, sent_up, sent_down,
}
use arnovich_core.Srv.Dialogue.Push.{status-success}

module _ {B : Type 0} (c s : ℤ) (now : Timeval) (xs : List ℕ) (ts : Tickers)
    (o : List (ℤ × List ℕ)) where
  -- The chunks from `i` down leave the whole data in the client's buffer.
  read_chunks-send_chunks :
      (i : ℕ) (b : List ℕ) (stop : List ℕ → ℤ × Pulled) (go : List ℕ → Io (ℤ × Pulled)) (m : Io B)
      {z : Config (ℤ × Pulled) B}
      → srv_buffer_len * i ≤ length xs
      → Agrees xs b (srv_buffer_len * i)
      → length xs < overflow_len
      → Steps c s now (config (go xs) m [] [] ts o) z
      → Steps c s now
          (config (read_chunks false c stop go b i) (send_chunks s xs i >> m) [] [] ts o)
          z
  unfolding read_chunks send_chunks write_part read_part
  read_chunks-send_chunks zero b stop go m h w small rest = rw (Agrees-all xs b w) rest
  read_chunks-send_chunks (suc i) b stop go m h w small rest =
      let off = srv_buffer_len * i in
      let fits : off + srv_buffer_len ≤ length xs = omega arith in
      let e : off + srv_buffer_len ≡ srv_buffer_len * suc i = omega arith in
      let (b', run, w') = splice-Agrees xs b off srv_buffer_len fits (rw e w) in
      let l = length-part xs off srv_buffer_len fits in
      rw (int_offset-small i (omega arith), slice-part xs off srv_buffer_len fits)
        (sent_down (part xs off srv_buffer_len) srv_buffer_len _ _ l
          (rw (run, l) (read_chunks-send_chunks i b' stop go m (omega arith) w' small rest)))

-- What is pulled.
abbrev pub found : List ℕ → Timeval → Pulled
found xs d = record { tickdata = xs; len = length xs; datetime = d }

module _ (c : ℤ) (now : Timeval) (ts : Tickers) (o : List (ℤ × List ℕ)) (xs : List ℕ) (d : Timeval)
    (out : Pulled) (partial : length xs % srv_buffer_len ≢ 0) (small : length xs < overflow_len)
    (time : IsTime d) where
  -- The length, the data and the time.
  read_tick-send_pulled :
      (t : Thread) (finish : Thread → Thread)
      → Steps c t.connection now
          (config (read_tick false c out) (again (send_pulled t (found xs d) finish)) [] [] ts o)
          (config (ret (pos 0, found xs d)) (ret (some (finish t))) [] [] ts o)
  unfolding read_tick send_pulled write_part read_part error_code
  read_tick-send_pulled t finish =
      let n = length xs % srv_buffer_len in
      let off = srv_buffer_len * (length xs / srv_buffer_len) in
      let e : off + n ≡ length xs = omega arith in
      let (b, run, w) =
        splice-Agrees xs (replicate (length xs) 0) off n (omega arith)
          (Agrees-end xs 0 (off + n) e) in
      let l = length-part xs off n (omega arith) in
      sent_down (size_bytes (length xs)) 8 _ _ (length-size_bytes _) (
        rw (length-size_bytes (length xs), bytes_size-size_bytes (length xs) (omega arith))
          (unfold read_body in
            rw
              (
                chunk_count-small (length xs) small,
                int_offset-small (length xs / srv_buffer_len) (omega arith),
                slice-part xs off n (omega arith),
              )
              (sent_down (part xs off n) n _ _ l (
                rw (run, l, ne→== n 0 partial)
                  (rw (bind_assoc (send_chunks t.connection xs (length xs / srv_buffer_len))) (
                    read_chunks-send_chunks c t.connection now xs ts o (length xs / srv_buffer_len)
                      b _ _ _ (omega arith) w small
                      (unfold read_time in
                        sent_down (timeval_bytes d) 16 _ _ (length-timeval_bytes d) (
                          rw (length-timeval_bytes d, bytes_timeval-timeval_bytes d time)
                            here))))))))

  -- Success, and the tick.
  found_reply :
      (t : Thread) (finish : Thread → Thread)
      → Steps c t.connection now
          (config
            (read_status c (λ err. (err, out)) (read_tick false c out))
            (again (
              error_rtn t.connection success
                (ret t)
                (send_pulled (record t { len = length xs; datetime = d }) (found xs d) finish)))
            []
            []
            ts
            o)
          (config
            (ret (pos 0, found xs d))
            (ret (some (finish (record t { len = length xs; datetime = d }))))
            []
            []
            ts
            o)
  unfolding error_rtn read_status error_code
  found_reply t finish = sent_down (int_bytes (pos 0)) 4 _ _ (length-int_bytes _) (
      rw (length-int_bytes (pos 0), status-success)
        (read_tick-send_pulled (record t { len = length xs; datetime = d }) finish))

  -- The whole pull by time: if srv_pull_tick_by_datetime finds a tick whose data is no multiple of 8000
  -- bytes long and shorter than 2147488000 bytes, and all values fit their types, then the client's
  -- call and one round of the server's thread run to their ends: the client returns success with the
  -- tick, and the thread remembers the tick's time as its last pull if it is later than the one before.
  pub by_datetime_dialogue :
      (t : Thread) (fill i : ℕ) (at : Timeval)
      → IsTime at
      → 2 * i < 2 ^ 32
      → srv_pull_tick_by_datetime ts (pos i) at ≡ done (success, some (found xs d))
      → Steps c t.connection now
          (config
            (srv_client_pull_tick_by_datetime c (pos i) at out)
            (serve_command fill t)
            []
            []
            ts
            o)
          (config
            (ret (pos 0, found xs d))
            (ret (
              some (
                raise_last_pull (record t {
                  command = command_code Command.pull_tick_by_datetime;
                  id = pos i;
                  len = length xs;
                  datetime = d;
                }))))
            []
            []
            ts
            o)
  unfolding srv_client_pull_tick_by_datetime serve_command handle handle_pull_tick_by_datetime
      command_code query_store
  by_datetime_dialogue t fill i at timely int run =
      sent_up (int_bytes (pos 6)) 4 _ _ (length-int_bytes _) (
        rw (length-int_bytes, bytes_int-int_bytes (pos 6) (omega arith))
          (sent_up (int_bytes (pos i)) 4 _ _ (length-int_bytes _) (
            rw (length-int_bytes (pos i), bytes_int-int_bytes (pos i) int)
              (sent_up (timeval_bytes at) 16 _ _ (length-timeval_bytes at) (
                rw (length-timeval_bytes at, bytes_timeval-timeval_bytes at timely)
                  (next (server_stores _ _ _ [] [] ts o) (
                    rw run (
                      found_reply (record t { command = pos 6; id = pos i; datetime = at })
                        raise_last_pull))))))))

  -- The whole pull of an update: if srv_pull_tick_update, asked one microsecond after the thread's last
  -- pull, finds a tick whose data is no multiple of 8000 bytes long and shorter than 2147488000 bytes,
  -- and all values fit their types, then the client's call and one round of the server's thread run to
  -- their ends: the client returns success with the tick, and the thread remembers the tick's time as
  -- its last pull.
  pub update_dialogue :
      (t : Thread) (fill i : ℕ)
      → 2 * i < 2 ^ 32
      → srv_pull_tick_update ts (pos i) (after_last_pull t.last_pull)
        ≡ done (success, some (found xs d))
      → Steps c t.connection now
          (config (srv_client_pull_tick_update c (pos i) out) (serve_command fill t) [] [] ts o)
          (config
            (ret (pos 0, found xs d))
            (ret (
              some (record t {
                command = command_code Command.pull_tick_update;
                id = pos i;
                len = length xs;
                datetime = d;
                last_pull = d;
              })))
            []
            []
            ts
            o)
  unfolding srv_client_pull_tick_update serve_command handle handle_pull_tick_update command_code
      query_store
  update_dialogue t fill i int run = sent_up (int_bytes (pos 7)) 4 _ _ (length-int_bytes _) (
      rw (length-int_bytes, bytes_int-int_bytes (pos 7) (omega arith))
        (sent_up (int_bytes (pos i)) 4 _ _ (length-int_bytes _) (
          rw (length-int_bytes (pos i), bytes_int-int_bytes (pos i) int)
            (next (server_stores _ _ _ [] [] ts o) (
              rw run (
                found_reply
                  (record t { command = pos 7; id = pos i; datetime = after_last_pull t.last_pull })
                  (λ u. record u { last_pull = u.datetime })))))))

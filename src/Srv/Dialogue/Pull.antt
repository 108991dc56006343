-- ===== src/Srv/Dialogue/Pull.antt =====
-- A pull: the client's call and the server's handler run against each other.
use arnovich_core.Base.{
  ℕ, zero, suc, ◌+◌, ◌*◌, ◌/◌, ◌%◌, ◌^◌, ◌≤◌, ◌<◌, ◌≡◌, refl, ◌≢◌, true, some, List, [], arith,
  ne→==, ℤ, pos, length, replicate, done,
}
use arnovich_core.Srv.Types.{success, Timeval, Tickers, srv_buffer_len}
use arnovich_core.Srv.Wire.{int_bytes, size_bytes, timeval_bytes, error_code, Command, command_code}
use arnovich_core.Srv.Wire.Decode.{
  length-int_bytes, length-size_bytes, bytes_int-int_bytes, bytes_size-size_bytes, IsTime,
  length-timeval_bytes, bytes_timeval-timeval_bytes,
}
use arnovich_core.Srv.Data.{srv_pull_tick, Pulled}
use arnovich_core.Srv.Io.{Io, ret, ◌>>◌, bind_assoc, read_part, write_part, query_store}
use arnovich_core.Srv.Io.Buffer.{
  part, length-part, slice-part, Agrees, splice-Agrees, Agrees-all, Agrees-end,
}
use arnovich_core.Srv.Thread.{
  Thread, error_rtn, send_acknowledged, overflow_len, chunk_count-small, int_offset-small,
}
use arnovich_core.Srv.Server.{
  again, handle_pull_tick, pull_tick_of, send_acknowledged_tick, handle, serve_command,
}
use arnovich_core.Srv.Client.{
  read_status, read_chunks, read_tick, read_body, read_time, srv_client_pull_tick,
}
use arnovich_core.Srv.Dialogue.{
  Config, config, server_stores, Steps, here, next, sent_up, sent_down,
}
use arnovich_core.Srv.Dialogue.Push.{status-success, with_command}

module _ {B : Type 0} (c s : ℤ) (now : Timeval) (xs : List ℕ) (ts : Tickers)
    (o : List (ℤ × List ℕ)) where
  -- The chunks from `i` down, each acknowledged, leave the whole data in the client's buffer.
  read_chunks-send_acknowledged :
      (i : ℕ) (b : List ℕ) (stop : List ℕ → ℤ × Pulled) (go : List ℕ → Io (ℤ × Pulled)) (m : Io B)
      {z : Config (ℤ × Pulled) B}
      → srv_buffer_len * i ≤ length xs
      → Agrees xs b (srv_buffer_len * i)
      → length xs < overflow_len
      → Steps c s now (config (go xs) m [] [] ts o) z
      → Steps c s now
          (config
            (read_chunks true c stop go b i)
            (send_acknowledged s xs i (pos 0) >> m)
            []
            []
            ts
            o)
          z
  unfolding read_chunks send_acknowledged write_part read_part error_code
  read_chunks-send_acknowledged zero b stop go m h w small rest = rw (Agrees-all xs b w) rest
  read_chunks-send_acknowledged (suc i) b stop go m h w small rest =
      let off = srv_buffer_len * i in
      let fits : off + srv_buffer_len ≤ length xs = omega arith in
      let e : off + srv_buffer_len ≡ srv_buffer_len * suc i = omega arith in
      let (b', run, w') = splice-Agrees xs b off srv_buffer_len fits (rw e w) in
      let l = length-part xs off srv_buffer_len fits in
      rw (int_offset-small i (omega arith), slice-part xs off srv_buffer_len fits)
        (sent_down (part xs off srv_buffer_len) srv_buffer_len _ _ l (
          rw (run, l)
            (sent_up (int_bytes (pos 0)) 4 _ _ (length-int_bytes _) (
              rw (length-int_bytes (pos 0), status-success)
                (read_chunks-send_acknowledged i b' stop go m (omega arith) w' small rest)))))

-- A thread once it has sent the tick `p` for the ticker `i`.
abbrev pub pulled_by : Thread → ℕ → Pulled → Thread
pulled_by t i p = record t {
  command = command_code Command.pull_tick;
  id = pos i;
  len = p.len;
  datetime = p.datetime;
  last_pull = p.datetime;
}

module _ (c : ℤ) (now : Timeval) (ts : Tickers) (o : List (ℤ × List ℕ)) (xs : List ℕ) (d : Timeval)
    (out : Pulled) (partial : length xs % srv_buffer_len ≢ 0) (small : length xs < overflow_len)
    (time : IsTime d) where
  -- The length, the data and the time.
  tick_transfer :
      (t : Thread)
      → Steps c t.connection now
          (config
            (read_tick true c out)
            (again
              (send_acknowledged_tick t (record { tickdata = xs; len = length xs; datetime = d })))
            []
            []
            ts
            o)
          (config
            (ret (pos 0, record { tickdata = xs; len = length xs; datetime = d }))
            (ret (some (record t { last_pull = d })))
            []
            []
            ts
            o)
  unfolding read_tick send_acknowledged_tick write_part read_part error_code
  tick_transfer t =
      let n = length xs % srv_buffer_len in
      let off = srv_buffer_len * (length xs / srv_buffer_len) in
      let e : off + n ≡ length xs = omega arith in
      let (b, run, w) =
        splice-Agrees xs (replicate (length xs) 0) off n (omega arith)
          (Agrees-end xs 0 (off + n) e) in
      let l = length-part xs off n (omega arith) in
      sent_down (size_bytes (length xs)) 8 _ _ (length-size_bytes _) (
        rw (length-size_bytes (length xs), bytes_size-size_bytes (length xs) (omega arith))
          (unfold read_body in
            rw
              (
                chunk_count-small (length xs) small,
                int_offset-small (length xs / srv_buffer_len) (omega arith),
                slice-part xs off n (omega arith),
              )
              (sent_down (part xs off n) n _ _ l (
                rw (run, l, ne→== n 0 partial)
                  (sent_up (int_bytes (pos 0)) 4 _ _ (length-int_bytes _) (
                    rw (length-int_bytes (pos 0), status-success)
                      (rw
                        (bind_assoc
                          (send_acknowledged t.connection xs (length xs / srv_buffer_len) (pos 0)))
                        (read_chunks-send_acknowledged c t.connection now xs ts o
                          (length xs / srv_buffer_len) b _ _ _ (omega arith) w small
                          (unfold read_time in
                            sent_down (timeval_bytes d) 16 _ _ (length-timeval_bytes d) (
                              rw (length-timeval_bytes d, bytes_timeval-timeval_bytes d time)
                                here))))))))))

  -- What the server answers once it has the id.
  pull_reply :
      (t : Thread) (i : ℕ)
      → srv_pull_tick ts (pos i)
        ≡ done (success, some (record { tickdata = xs; len = length xs; datetime = d }))
      → Steps c t.connection now
          (config
            (read_status c (λ err. (err, out)) (read_tick true c out))
            (again (pull_tick_of (record t { id = pos i })))
            []
            []
            ts
            o)
          (config
            (ret (pos 0, record { tickdata = xs; len = length xs; datetime = d }))
            (ret (some (record t { id = pos i; len = length xs; datetime = d; last_pull = d })))
            []
            []
            ts
            o)
  unfolding pull_tick_of query_store error_rtn read_status error_code
  pull_reply t i run = next (server_stores _ _ _ [] [] ts o) (
      rw run (
        sent_down (int_bytes (pos 0)) 4 _ _ (length-int_bytes _) (
          rw (length-int_bytes (pos 0), status-success)
            (tick_transfer (record t { id = pos i; len = length xs; datetime = d })))))

handle_pull :
    (fill : ℕ) (t : Thread)
    → handle fill (with_command Command.pull_tick t)
      ≡ again (handle_pull_tick (with_command Command.pull_tick t))
unfolding handle command_code
handle_pull fill t = refl

-- The whole pull: if srv_pull_tick finds a tick whose data is no multiple of 8000 bytes long and
-- shorter than 2147488000 bytes, its time fits a struct timeval, and the id fits an int, then the
-- client's call and one round of the server's thread run to their ends: the client returns success with
-- the data, the length and the time of the tick, the thread remembers that time as its last pull and
-- goes on to the next command, both streams are empty and the store is as before.
pub pull_dialogue :
    (c : ℤ) (t : Thread) (fill : ℕ) (now : Timeval) (ts : Tickers) (o : List (ℤ × List ℕ)) (i : ℕ)
    (xs : List ℕ) (d : Timeval) (out : Pulled)
    → length xs % srv_buffer_len ≢ 0
    → length xs < overflow_len
    → IsTime d
    → 2 * i < 2 ^ 32
    → srv_pull_tick ts (pos i)
      ≡ done (success, some (record { tickdata = xs; len = length xs; datetime = d }))
    → Steps c t.connection now
        (config (srv_client_pull_tick c (pos i) out) (serve_command fill t) [] [] ts o)
        (config
          (ret (pos 0, record { tickdata = xs; len = length xs; datetime = d }))
          (ret (some (pulled_by t i (record { tickdata = xs; len = length xs; datetime = d }))))
          []
          []
          ts
          o)
unfolding srv_client_pull_tick serve_command handle_pull_tick
pull_dialogue c t fill now ts o i xs d out partial small time int run =
    sent_up (int_bytes (command_code Command.pull_tick)) 4 _ _ (length-int_bytes _) (
      rw
        (
          length-int_bytes,
          bytes_int-int_bytes (command_code Command.pull_tick) (unfold command_code in omega arith),
          handle_pull,
        )
        (sent_up (int_bytes (pos i)) 4 _ _ (length-int_bytes _) (
          rw (length-int_bytes (pos i), bytes_int-int_bytes (pos i) int)
            (pull_reply c now ts o xs d out partial small time (with_command Command.pull_tick t) i
              run))))

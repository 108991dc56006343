-- ===== src/Srv/Dialogue/Push.antt =====
-- A push: the client's call and the server's handler run against each other.
use arnovich_core.Base.{
  ℕ, zero, suc, ◌+◌, ◌*◌, ◌/◌, ◌%◌, ◌^◌, ◌≤◌, ◌<◌, ◌≡◌, refl, ◌≢◌, Option, some, List, [], arith,
  ne→==, ℤ, pos, length, replicate, done, All,
}
use arnovich_core.Srv.Types.{success, Timeval, Ticker, Tickers, srv_buffer_len}
use arnovich_core.Srv.Wire.{int_bytes, bytes_int, size_bytes, error_code, Command, command_code}
use arnovich_core.Srv.Wire.Decode.{
  length-int_bytes, length-size_bytes, bytes_int-int_bytes, bytes_size-size_bytes,
}
use arnovich_core.Srv.Data.{srv_push_tick, ticker_at}
use arnovich_core.Srv.Data.Valid.{Holds}
use arnovich_core.Srv.Io.{
  Io, ret, ◌>>=◌, bind_assoc, read_part, write_part, update_store, query_store,
}
use arnovich_core.Srv.Io.Buffer.{
  part, length-part, slice-part, Agrees, splice-Agrees, Agrees-all, Agrees-end,
}
use arnovich_core.Srv.Thread.{
  Thread, error_rtn, receive_chunks, overflow_len, chunk_count-small, int_offset-small,
}
use arnovich_core.Srv.Server.{
  push_data, handle_push_tick, push_received, again, notify_loop, handle, serve_command,
}
use arnovich_core.Srv.Client.{push_chunks, push_body, srv_client_push_tick, read_status}
use arnovich_core.Srv.Dialogue.{
  Config, config, server_stores, server_clocks, Steps, here, next, sent_up, sent_down,
}
use arnovich_core.Srv.Dialogue.Notify.{all_notified, notify_loop-all_notified}

pub status-success : bytes_int (int_bytes (error_code success)) ≡ pos 0
unfolding error_code
status-success = bytes_int-int_bytes (pos 0) (omega arith)

module _ {B : Type 0} (c s : ℤ) (now : Timeval) (xs : List ℕ) (ts : Tickers)
    (o : List (ℤ × List ℕ)) where
  -- The chunks from `i` down, with their acknowledgements, leave the whole data in the server's buffer.
  push_chunks-receive_chunks :
      (i : ℕ) (b : List ℕ) (go : Io ℤ) (g : List ℕ → Io B) {z : Config ℤ B}
      → srv_buffer_len * i ≤ length xs
      → Agrees xs b (srv_buffer_len * i)
      → length xs < overflow_len
      → Steps c s now (config go (g xs) [] [] ts o) z
      → Steps c s now (config (push_chunks c xs i go) (receive_chunks s b i >>= g) [] [] ts o) z
  unfolding push_chunks receive_chunks write_part read_part error_code
  push_chunks-receive_chunks zero b go g h w small rest = rw (Agrees-all xs b w) rest
  push_chunks-receive_chunks (suc i) b go g h w small rest =
      let off = srv_buffer_len * i in
      let fits : off + srv_buffer_len ≤ length xs = omega arith in
      let e : off + srv_buffer_len ≡ srv_buffer_len * suc i = omega arith in
      let (b', run, w') = splice-Agrees xs b off srv_buffer_len fits (rw e w) in
      let l = length-part xs off srv_buffer_len fits in
      rw (int_offset-small i (omega arith), slice-part xs off srv_buffer_len fits)
        (sent_up (part xs off srv_buffer_len) srv_buffer_len _ _ l (
          rw (run, l)
            (sent_down (int_bytes (pos 0)) 4 _ _ (length-int_bytes _) (
              rw status-success
                (push_chunks-receive_chunks i b' go g (omega arith) w' small rest)))))

abbrev pub with_command : Command → Thread → Thread
with_command k t = record t { command = command_code k }

pub handle_push :
    (fill : ℕ) (t : Thread)
    → handle fill (with_command Command.push_tick t)
      ≡ again (handle_push_tick fill (with_command Command.push_tick t))
unfolding handle command_code
handle_push fill t = refl

-- A thread once it has pushed `len` bytes to the ticker `i`.
abbrev pub pushed : Thread → ℕ → ℕ → Thread
pushed t i len = record t {
  command = command_code Command.notify_subscriber;
  id = pos i;
  len = len;
}

module _ (c : ℤ) (now : Timeval) (o : List (ℤ × List ℕ)) where
  -- Once all the data is there: the tick is stored, and the client gets its answer.
  push_end :
      (t : Thread) (i : ℕ) (xs : List ℕ) (ts ts' : Tickers) (u : Ticker)
      → srv_push_tick now ts (pos i) xs (length xs) ≡ done (success, ts')
      → Holds ts' i u
      → length xs % srv_buffer_len ≢ 0
      → length xs < overflow_len
      → All (λ fd. fd ≢ t.connection) u.m_subscribers
      → Steps c t.connection now
          (config
            (read_status c (λ err. err) (ret (pos 0)))
            (again (push_received (record t { id = pos i; len = length xs }) xs))
            []
            []
            ts
            o)
          (config
            (ret (pos 0))
            (ret (some (pushed t i (length xs))))
            []
            []
            ts'
            (all_notified xs t.datetime u.m_subscribers o))
  unfolding push_received update_store query_store ticker_at read_status error_code error_rtn
  push_end t i xs ts ts' u run at partial small others = next (server_clocks _ _ [] [] ts o) (
      next (server_stores _ _ _ [] [] ts o) (
        rw run (
          sent_down (int_bytes (pos 0)) 4 _ _ (length-int_bytes _) (
            rw (length-int_bytes (pos 0), status-success)
              (next (server_stores _ _ _ [] [] ts' o) (
                rw (at, bind_assoc (notify_loop xs (length xs) t.datetime u.m_subscribers))
                  (notify_loop-all_notified (ret (pos 0)) xs t.datetime u.m_subscribers _ o partial
                    small others here)))))))

module _ (c : ℤ) (t : Thread) (fill : ℕ) (now : Timeval) {ts : Tickers}
    (o : List (ℤ × List ℕ)) where
  -- The first part of the data, which is the last and shortest chunk, and the chunks before it.
  push_transfer :
      (i : ℕ) (xs : List ℕ) {z : Config ℤ (Option Thread)}
      → length xs % srv_buffer_len ≢ 0
      → length xs < overflow_len
      → 2 * i < 2 ^ 32
      → Steps c t.connection now
          (config
            (read_status c (λ err. err) (ret (pos 0)))
            (again (push_received (record t { id = pos i; len = length xs }) xs))
            []
            []
            ts
            o)
          z
      → Steps c t.connection now
          (config (push_body c (pos i) xs (length xs)) (again (handle_push_tick fill t)) [] [] ts o)
          z
  unfolding push_body handle_push_tick write_part read_part error_code
  push_transfer i xs {z} partial small int rest =
      let n = length xs % srv_buffer_len in
      let off = srv_buffer_len * (length xs / srv_buffer_len) in
      let e : off + n ≡ length xs = omega arith in
      let (b, run, w) =
        splice-Agrees xs (replicate (length xs) fill) off n (omega arith)
          (Agrees-end xs fill (off + n) e) in
      let l = length-part xs off n (omega arith) in
      sent_up (int_bytes (pos i)) 4 _ _ (length-int_bytes _) (
        rw (length-int_bytes (pos i), bytes_int-int_bytes (pos i) int)
          (sent_up (size_bytes (length xs)) 8 _ _ (length-size_bytes _) (
            rw (length-size_bytes (length xs), bytes_size-size_bytes (length xs) (omega arith))
              (unfold push_data in
                rw
                  (
                    chunk_count-small (length xs) small,
                    int_offset-small (length xs / srv_buffer_len) (omega arith),
                    slice-part xs off n (omega arith),
                  )
                  (sent_up (part xs off n) n _ _ l (
                    rw (run, l, ne→== n 0 partial)
                      (sent_down (int_bytes (pos 0)) 4 _ _ (length-int_bytes _) (
                        rw
                          (
                            status-success,
                            bind_assoc (receive_chunks t.connection b (length xs / srv_buffer_len)),
                          )
                          (push_chunks-receive_chunks c t.connection now xs ts o
                            (length xs / srv_buffer_len) b _
                            (λ d.
                              again (push_received (record t { id = pos i; len = length xs }) d))
                            (omega arith) w small rest)))))))))

-- The whole push: if the data is no multiple of 8000 bytes long and is shorter than 2147488000 bytes,
-- where the server's products of ints overflow, and the id is that of a ticker, fits an int, and the
-- thread's own connection is none of the ticker's subscribers, then the client's call and one round of
-- the server's thread run to their ends: the client returns success, the thread goes on to the next
-- command, both streams are empty, each subscriber is sent the very data with the time that the
-- thread's variable `datetime` had, and the store is that of srv_push_tick with the very data.
pub push_dialogue :
    (c : ℤ) (t : Thread) (fill : ℕ) (now : Timeval) (ts ts' : Tickers) (o : List (ℤ × List ℕ))
    (i : ℕ) (xs : List ℕ) (u : Ticker)
    → length xs % srv_buffer_len ≢ 0
    → length xs < overflow_len
    → 2 * i < 2 ^ 32
    → srv_push_tick now ts (pos i) xs (length xs) ≡ done (success, ts')
    → Holds ts' i u
    → All (λ fd. fd ≢ t.connection) u.m_subscribers
    → Steps c t.connection now
        (config (srv_client_push_tick c (pos i) xs (length xs)) (serve_command fill t) [] [] ts o)
        (config
          (ret (pos 0))
          (ret (some (pushed t i (length xs))))
          []
          []
          ts'
          (all_notified xs t.datetime u.m_subscribers o))
unfolding srv_client_push_tick serve_command
push_dialogue c t fill now ts ts' o i xs u partial small int run at others =
    sent_up (int_bytes (command_code Command.push_tick)) 4 _ _ (length-int_bytes _) (
      rw
        (
          length-int_bytes,
          bytes_int-int_bytes (command_code Command.push_tick) (unfold command_code in omega arith),
          handle_push,
        )
        (push_transfer c (with_command Command.push_tick t) fill now o i xs partial small int (
          push_end c now o (with_command Command.push_tick t) i xs ts ts' u run at partial small
            others)))

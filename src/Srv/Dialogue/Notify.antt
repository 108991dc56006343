-- ===== src/Srv/Dialogue/Notify.antt =====
-- What a push sends to the subscribers of its ticker.
use arnovich_core.Base.{
  ℕ, zero, suc, ◌+◌, ◌*◌, ◌/◌, ◌%◌, ◌≤◌, ◌<◌, ◌≡◌, ◌≢◌, List, [], ◌∷◌, arith, ne→==, ℤ, length, All,
}
use arnovich_core.Srv.Types.{Timeval, Tickers, srv_buffer_len}
use arnovich_core.Srv.Wire.{int_bytes, size_bytes, timeval_bytes, Command, command_code}
use arnovich_core.Srv.Wire.Decode.{length-int_bytes, length-size_bytes, length-timeval_bytes}
use arnovich_core.Srv.Io.{Io, write, ◌>>=◌, bind_assoc, write_part}
use arnovich_core.Srv.Io.Buffer.{part, length-part, slice-part}
use arnovich_core.Srv.Thread.{send_chunks, overflow_len, chunk_count-small, int_offset-small}
use arnovich_core.Srv.Server.{notify_loop}
use arnovich_core.Srv.Dialogue.{Config, config, server_sends, Steps, next}

-- What is sent, the last first: the chunks of `xs` below `i`, the last one first, after `o`.
abbrev pub chunks_sent : ℤ → List ℕ → ℕ → List (ℤ × List ℕ) → List (ℤ × List ℕ)
chunks_sent fd xs zero o = o
chunks_sent fd xs (suc i) o =
    chunks_sent fd xs i ((fd, part xs (srv_buffer_len * i) srv_buffer_len) ∷ o)

-- A notification: the command, the length, the bytes that exceed the chunks, the chunks, and a time.
abbrev pub notified : List ℕ → Timeval → ℤ → List (ℤ × List ℕ) → List (ℤ × List ℕ)
notified xs d fd o =
    (fd, timeval_bytes d)
    ∷ chunks_sent fd xs (length xs / srv_buffer_len) (
        (fd, part xs (srv_buffer_len * (length xs / srv_buffer_len)) (length xs % srv_buffer_len))
        ∷ (fd, size_bytes (length xs))
        ∷ (fd, int_bytes (command_code Command.notify_subscriber))
        ∷ o)

-- A notification to each of the subscribers, in their order.
abbrev pub all_notified : List ℕ → Timeval → List ℤ → List (ℤ × List ℕ) → List (ℤ × List ℕ)
all_notified xs d [] o = o
all_notified xs d (fd ∷ subscribers) o = all_notified xs d subscribers (notified xs d fd o)

module _ {A B : Type 0} {c s : ℤ} {now : Timeval} {ts : Tickers} (m : Io A) {z : Config A B} where
  sends :
      (fd : ℤ) (bs : List ℕ) (n : ℕ) (k : ℕ → Io B) (o : List (ℤ × List ℕ))
      → fd ≢ s
      → length bs ≡ n
      → Steps c s now (config m (k n) [] [] ts ((fd, bs) ∷ o)) z
      → Steps c s now (config m (write fd bs k) [] [] ts o) z
  sends fd bs n k o other e rest = next (server_sends fd bs m k [] [] ts o other) (rw e rest)

  send_chunks-chunks_sent :
      (fd : ℤ) (xs : List ℕ) (i : ℕ) (g : Unit {0} → Io B) (o : List (ℤ × List ℕ))
      → fd ≢ s
      → srv_buffer_len * i ≤ length xs
      → length xs < overflow_len
      → Steps c s now (config m (g tt) [] [] ts (chunks_sent fd xs i o)) z
      → Steps c s now (config m (send_chunks fd xs i >>= g) [] [] ts o) z
  unfolding send_chunks write_part
  send_chunks-chunks_sent fd xs zero g o other fits small rest = rest
  send_chunks-chunks_sent fd xs (suc i) g o other fits small rest =
      let off = srv_buffer_len * i in
      let room : off + srv_buffer_len ≤ length xs = omega arith in
      let l = length-part xs off srv_buffer_len room in
      rw (int_offset-small i (omega arith), slice-part xs off srv_buffer_len room)
        (sends fd (part xs off srv_buffer_len) srv_buffer_len _ o other l
          (send_chunks-chunks_sent fd xs i g _ other (omega arith) small rest))

  -- The loop over the subscribers sends each of them its notification.
  pub notify_loop-all_notified :
      (xs : List ℕ) (d : Timeval) (subscribers : List ℤ) (g : Unit {0} → Io B)
      (o : List (ℤ × List ℕ))
      → length xs % srv_buffer_len ≢ 0
      → length xs < overflow_len
      → All (λ fd. fd ≢ s) subscribers
      → Steps c s now (config m (g tt) [] [] ts (all_notified xs d subscribers o)) z
      → Steps c s now (config m (notify_loop xs (length xs) d subscribers >>= g) [] [] ts o) z
  unfolding notify_loop write_part
  notify_loop-all_notified xs d [] g o partial small others rest = rest
  notify_loop-all_notified xs d (fd ∷ subscribers) g o partial small (other, others) rest =
      let n = length xs % srv_buffer_len in
      let off = srv_buffer_len * (length xs / srv_buffer_len) in
      let room : off + n ≤ length xs = omega arith in
      sends fd (int_bytes (command_code Command.notify_subscriber)) 4 _ o other (length-int_bytes _)
        (sends fd (size_bytes (length xs)) 8 _ _ other (length-size_bytes _) (
          rw
            (
              chunk_count-small (length xs) small,
              int_offset-small (length xs / srv_buffer_len) (omega arith),
              slice-part xs off n room,
            )
            (sends fd (part xs off n) n _ _ other (length-part xs off n room) (
              rw (ne→== n 0 partial, bind_assoc (send_chunks fd xs (length xs / srv_buffer_len)))
                (send_chunks-chunks_sent fd xs (length xs / srv_buffer_len) _ _ other (omega arith)
                  small
                  (sends fd (timeval_bytes d) 16 _ _ other (length-timeval_bytes d)
                    (notify_loop-all_notified xs d subscribers g _ partial small others rest)))))))

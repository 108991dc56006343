-- ===== src/Srv/Dialogue/Wait.antt =====
-- A subscriber that waits for a tick reads the notification of a push.
use arnovich_core.Base.{
  ℕ, zero, suc, ◌+◌, ◌*◌, ◌/◌, ◌%◌, ◌^◌, ◌≤◌, ◌<◌, ◌≡◌, refl, sym, ◌∙◌, ◌≢◌, false, List, [], ◌∷◌,
  ◌++◌, append_assoc, append-nil, arith, ne→==, ℤ, pos, eqb_ℤ, eqb_ℤ_refl, if◌then◌else◌, length,
  replicate,
}
use mathlib.Core.Path.{subst}
use arnovich_core.Srv.Types.{Timeval, Tickers, srv_buffer_len}
use arnovich_core.Srv.Wire.{int_bytes, size_bytes, timeval_bytes, error_code, Command, command_code}
use arnovich_core.Srv.Wire.Decode.{
  length-int_bytes, length-size_bytes, length-timeval_bytes, bytes_int-int_bytes,
  bytes_size-size_bytes, bytes_timeval-timeval_bytes, IsTime,
}
use arnovich_core.Srv.Data.{Pulled}
use arnovich_core.Srv.Io.{Io, ret, read, Received, got, read_part}
use arnovich_core.Srv.Io.Buffer.{part, length-part, Agrees, splice-Agrees, Agrees-all, Agrees-end}
use arnovich_core.Srv.Client.{
  read_chunks, read_tick, read_body, read_time, srv_client_wait_for_tick,
}
use arnovich_core.Srv.Dialogue.{Config, config, client_reads, Steps, here, next}
use arnovich_core.Srv.Dialogue.Notify.{chunks_sent, notified}

-- The bytes that have been sent to `fd`, the first first.
abbrev pub delivered : ℤ → List (ℤ × List ℕ) → List ℕ
delivered fd [] = []
delivered fd ((to, bs) ∷ o) = if eqb_ℤ to fd then delivered fd o ++ bs else delivered fd o

-- The chunks below `i`, the last one first, and what follows them.
abbrev chunk_bytes : List ℕ → ℕ → List ℕ → List ℕ
chunk_bytes xs zero rest = rest
chunk_bytes xs (suc i) rest = part xs (srv_buffer_len * i) srv_buffer_len ++ chunk_bytes xs i rest

-- A notification and what follows it.
abbrev pub notification : List ℕ → Timeval → List ℕ → List ℕ
notification xs d rest =
    int_bytes (command_code Command.notify_subscriber)
    ++ (size_bytes (length xs)
        ++ (part xs (srv_buffer_len * (length xs / srv_buffer_len)) (length xs % srv_buffer_len)
            ++ chunk_bytes xs (length xs / srv_buffer_len) (timeval_bytes d ++ rest)))

delivered-chunks_sent :
    (fd : ℤ) (xs : List ℕ) (i : ℕ) (o : List (ℤ × List ℕ)) (rest : List ℕ)
    → delivered fd (chunks_sent fd xs i o) ++ rest ≡ delivered fd o ++ chunk_bytes xs i rest
delivered-chunks_sent fd xs zero o rest = refl
delivered-chunks_sent fd xs (suc i) o rest =
    delivered-chunks_sent fd xs i _ rest ∙ rw (eqb_ℤ_refl fd) (append_assoc (delivered fd o) _ _)

-- A notification is the bytes that notify_loop sends.
delivered-notified :
    (fd : ℤ) (xs : List ℕ) (d : Timeval) (o : List (ℤ × List ℕ)) (rest : List ℕ)
    → delivered fd (notified xs d fd o) ++ rest ≡ delivered fd o ++ notification xs d rest
delivered-notified fd xs d o rest =
    rw (eqb_ℤ_refl fd, append_assoc, delivered-chunks_sent, eqb_ℤ_refl fd) (simp append_assoc refl)

module _ {A B : Type 0} {c s : ℤ} {now : Timeval} {ts : Tickers} {o : List (ℤ × List ℕ)}
    {z : Config A B} (m : Io B) where
  receives :
      (bs : List ℕ) (n : ℕ) (rest : List ℕ) (k : Received → Io A)
      → length bs ≡ n
      → Steps c s now (config (k (got bs)) m [] rest ts o) z
      → Steps c s now (config (read c n k) m [] (bs ++ rest) ts o) z
  receives bs n rest k e run =
      subst (λ n. Steps c s now (config (read c n k) m [] (bs ++ rest) ts o) z) e
        (next (client_reads bs k m [] rest ts o) run)

module _ {B : Type 0} (c s : ℤ) (now : Timeval) (xs : List ℕ) (ts : Tickers) (o : List (ℤ × List ℕ))
    (m : Io B) where
  read_chunks-chunk_bytes :
      (i : ℕ) (b : List ℕ) (stop : List ℕ → ℤ × Pulled) (go : List ℕ → Io (ℤ × Pulled))
      (rest : List ℕ) {z : Config (ℤ × Pulled) B}
      → srv_buffer_len * i ≤ length xs
      → Agrees xs b (srv_buffer_len * i)
      → Steps c s now (config (go xs) m [] rest ts o) z
      → Steps c s now (config (read_chunks false c stop go b i) m [] (chunk_bytes xs i rest) ts o) z
  unfolding read_chunks read_part
  read_chunks-chunk_bytes zero b stop go rest h w run = rw (Agrees-all xs b w) run
  read_chunks-chunk_bytes (suc i) b stop go rest h w run =
      let off = srv_buffer_len * i in
      let fits : off + srv_buffer_len ≤ length xs = omega arith in
      let e : off + srv_buffer_len ≡ srv_buffer_len * suc i = omega arith in
      let (b', done_at, w') = splice-Agrees xs b off srv_buffer_len fits (rw e w) in
      let l = length-part xs off srv_buffer_len fits in
      receives m (part xs off srv_buffer_len) srv_buffer_len _ _ l
        (rw (done_at, l) (read_chunks-chunk_bytes i b' stop go rest (omega arith) w' run))

  -- A client that waits, and to which a notification of data whose length is no multiple of 8000 is on
  -- its way, returns success with the data, its length and the time of the notification, and leaves
  -- what follows the notification.
  wait_notification :
      (d : Timeval) (out : Pulled) (rest : List ℕ)
      → length xs % srv_buffer_len ≢ 0
      → length xs < 2 ^ 64
      → IsTime d
      → Steps c s now (config (srv_client_wait_for_tick c out) m [] (notification xs d rest) ts o) (
          config
            (ret (pos 0, record { tickdata = xs; len = length xs; datetime = d }))
            m
            []
            rest
            ts
            o)
  unfolding srv_client_wait_for_tick read_tick read_part error_code command_code
  wait_notification d out rest partial small time =
      let n = length xs % srv_buffer_len in
      let off = srv_buffer_len * (length xs / srv_buffer_len) in
      let e : off + n ≡ length xs = omega arith in
      let (b, run, w) =
        splice-Agrees xs (replicate (length xs) 0) off n (omega arith)
          (Agrees-end xs 0 (off + n) e) in
      let l = length-part xs off n (omega arith) in
      receives m (int_bytes (pos 10)) 4 _ _ (length-int_bytes _) (
        rw (length-int_bytes (pos 10), bytes_int-int_bytes (pos 10) (omega arith))
          (receives m (size_bytes (length xs)) 8 _ _ (length-size_bytes _) (
            rw (length-size_bytes (length xs), bytes_size-size_bytes (length xs) small)
              (unfold read_body in
                receives m (part xs off n) n _ _ l (
                  rw (run, l, ne→== n 0 partial)
                    (read_chunks-chunk_bytes (length xs / srv_buffer_len) b _ _ _ (omega arith) w (
                      unfold read_time in
                      receives m (timeval_bytes d) 16 _ _ (length-timeval_bytes d) (
                        rw (length-timeval_bytes d, bytes_timeval-timeval_bytes d time) here))))))))

  -- A client that waits, and to which a notification of data whose length is no multiple of 8000 is on
  -- its way as the server sends it to a subscriber, returns success with the data, its length and the
  -- time of the notification, and leaves nothing on the way.
  pub wait_dialogue :
      (fd : ℤ) (d : Timeval) (out : Pulled)
      → length xs % srv_buffer_len ≢ 0
      → length xs < 2 ^ 64
      → IsTime d
      → Steps c s now
          (config (srv_client_wait_for_tick c out) m [] (delivered fd (notified xs d fd [])) ts o)
          (config
            (ret (pos 0, record { tickdata = xs; len = length xs; datetime = d }))
            m
            []
            []
            ts
            o)
  wait_dialogue fd d out partial small time =
      let e : delivered fd (notified xs d fd []) ≡ notification xs d [] =
        sym (append-nil (delivered fd (notified xs d fd []))) ∙ delivered-notified fd xs d [] [] in
      rw e (wait_notification d out [] partial small time)

-- ===== src/Srv/Dialogue.antt =====
-- A client and a server thread that run against each other, over two streams of bytes.
pub mod Notify
pub mod Wait
pub mod Push
pub mod EmptyPart
pub mod Pull
pub mod PullLater
pub mod Commands
pub mod Taken
pub mod Moves
pub mod Confluence
mod Examples
mod CommandExamples
use arnovich_core.Base.{ℕ, ◌≡◌, ◌≢◌, List, [], ◌∷◌, ◌++◌, append-nil, ℤ, length, sym}
use mathlib.Core.Path.{subst}
use arnovich_core.Srv.Types.{Timeval, Tickers}
use arnovich_core.Srv.Io.{Io, read, write, store, clock, Received, got}

-- What is left of each program, the bytes on their way up to the server and down to the client, the
-- store, and what the server has sent on other connections, the last first.
pub data Config (A B : Type 0) : Type 0 where
  config :
      (client : Io A) (server : Io B) (up down : List ℕ) (tickers : Tickers)
      → List (ℤ × List ℕ)
      → Config A B

-- One step of either program: `c` is the client's name of the connection and `s` the server's. A
-- write succeeds at once with all its bytes; a read waits until all the bytes it asks for are there.
-- `now` is what the clock shows throughout.
pub data Step {A B : Type 0} (c s : ℤ) (now : Timeval) : Config A B → Config A B → Type 0 where
  client_writes :
      (bs : List ℕ) (k : ℕ → Io A) (m : Io B) (up down : List ℕ) (ts : Tickers)
      (o : List (ℤ × List ℕ))
      → Step c s now
          (config (write c bs k) m up down ts o)
          (config (k (length bs)) m (up ++ bs) down ts o)
  client_reads :
      (bs : List ℕ) (k : Received → Io A) (m : Io B) (up down : List ℕ) (ts : Tickers)
      (o : List (ℤ × List ℕ))
      → Step c s now
          (config (read c (length bs) k) m up (bs ++ down) ts o)
          (config (k (got bs)) m up down ts o)
  server_writes :
      (bs : List ℕ) (m : Io A) (k : ℕ → Io B) (up down : List ℕ) (ts : Tickers)
      (o : List (ℤ × List ℕ))
      → Step c s now
          (config m (write s bs k) up down ts o)
          (config m (k (length bs)) up (down ++ bs) ts o)
  server_reads :
      (bs : List ℕ) (m : Io A) (k : Received → Io B) (up down : List ℕ) (ts : Tickers)
      (o : List (ℤ × List ℕ))
      → Step c s now
          (config m (read s (length bs) k) (bs ++ up) down ts o)
          (config m (k (got bs)) up down ts o)
  server_sends :
      (fd : ℤ) (bs : List ℕ) (m : Io A) (k : ℕ → Io B) (up down : List ℕ) (ts : Tickers)
      (o : List (ℤ × List ℕ))
      → fd ≢ s
      → Step c s now
          (config m (write fd bs k) up down ts o)
          (config m (k (length bs)) up down ts ((fd, bs) ∷ o))
  server_stores :
      (f : Tickers → Tickers) (m : Io A) (k : Tickers → Io B) (up down : List ℕ) (ts : Tickers)
      (o : List (ℤ × List ℕ))
      → Step c s now (config m (store f k) up down ts o) (config m (k ts) up down (f ts) o)
  server_clocks :
      (m : Io A) (k : Timeval → Io B) (up down : List ℕ) (ts : Tickers) (o : List (ℤ × List ℕ))
      → Step c s now (config m (clock k) up down ts o) (config m (k now) up down ts o)

-- An execution.
pub data Steps {A B : Type 0} (c s : ℤ) (now : Timeval) : Config A B → Config A B → Type 0 where
  here : {x : Config A B} → Steps c s now x x
  next : {x y z : Config A B} → Step c s now x y → Steps c s now y z → Steps c s now x z

-- With the streams empty, a write at one end and the read at the other that fits it make an exchange.
module _ {A B : Type 0} {c s : ℤ} {now : Timeval} {ts : Tickers} {o : List (ℤ × List ℕ)}
    {z : Config A B} where
  pub sent_up :
      (bs : List ℕ) (n : ℕ) (k : ℕ → Io A) (g : Received → Io B)
      → length bs ≡ n
      → Steps c s now (config (k n) (g (got bs)) [] [] ts o) z
      → Steps c s now (config (write c bs k) (read s n g) [] [] ts o) z
  sent_up bs n k g e rest =
      subst
        (λ n.
          Steps c s now (config (k n) (g (got bs)) [] [] ts o) z
          → Steps c s now (config (write c bs k) (read s n g) [] [] ts o) z)
        e
        (λ r. next (client_writes bs k _ [] [] ts o) (
          subst (λ up. Steps c s now (config (k (length bs)) (read s (length bs) g) up [] ts o) z)
            (append-nil bs) (next (server_reads bs _ g [] [] ts o) r)))
        rest

  pub sent_down :
      (bs : List ℕ) (n : ℕ) (k : Received → Io A) (g : ℕ → Io B)
      → length bs ≡ n
      → Steps c s now (config (k (got bs)) (g n) [] [] ts o) z
      → Steps c s now (config (read c n k) (write s bs g) [] [] ts o) z
  sent_down bs n k g e rest =
      subst
        (λ n.
          Steps c s now (config (k (got bs)) (g n) [] [] ts o) z
          → Steps c s now (config (read c n k) (write s bs g) [] [] ts o) z)
        e
        (λ r. next (server_writes bs _ g [] [] ts o) (
          subst
            (λ down. Steps c s now (config (read c (length bs) k) (g (length bs)) [] down ts o) z)
            (append-nil bs) (next (client_reads bs k _ [] [] ts o) r)))
        rest

-- ===== src/Pylib/RoundTrip.antt =====
-- A string that is pushed from Python and pulled again (src/pylib/core_srv.c).
use arnovich_core.Base.{
  ℕ, ◌+◌, ◌*◌, ◌%◌, ◌^◌, ◌<◌, ◌≡◌, refl, sym, ap, ◌≢◌, some, List, [], ◌∷◌, ◌++◌, ℤ, pos, length,
  length-append, take, All, done,
}
use mathlib.Core.Path.{subst}
use arnovich_core.Base.CString.{cstring, IsText}
use arnovich_core.Base.CString.Order.{strlen-text}
use arnovich_core.Types.Double.{Double}
use arnovich_core.Srv.Types.{Timeval, Ticker, Tickers, srv_buffer_len}
use arnovich_core.Srv.Wire.{error_code}
use arnovich_core.Srv.Data.{Pulled}
use arnovich_core.Srv.Data.Valid.{IsValid, Holds}
use arnovich_core.Srv.Data.Push.{srv_pull_tick-push}
use arnovich_core.Srv.Io.{Io, ret, ◌>>=◌}
use arnovich_core.Srv.Thread.{Thread, overflow_len}
use arnovich_core.Srv.Server.{serve_command}
use arnovich_core.Srv.Dialogue.{
  Config, config, Step, client_writes, client_reads, server_writes, server_reads, server_sends,
  server_stores, server_clocks, Steps, here, next,
}
use arnovich_core.Srv.Dialogue.Push.{pushed, push_dialogue}
use arnovich_core.Srv.Dialogue.Pull.{pulled_by, pull_dialogue}
use arnovich_core.Srv.Wire.Decode.{IsTime}
use arnovich_core.Srv.Dialogue.Notify.{all_notified}
use arnovich_core.Srv.Client.{srv_client_pull_tick}
use arnovich_core.Pylib.{
  true_result, Tick_new, Python, py_true, tick, tick_result, py_string, Connection_push_tick,
  Connection_pull_tick,
}

-- What follows the client's call does not change its steps.
abbrev then_client : {A A' B : Type 0} → (A → Io A') → Config A B → Config A' B
then_client f (config m k up down ts o) = config (m >>= f) k up down ts o

Step-then_client :
    {A A' B : Type 0} (f : A → Io A') {c s : ℤ} {now : Timeval} {x y : Config A B}
    → Step c s now x y
    → Step c s now (then_client f x) (then_client f y)
Step-then_client f (client_writes bs k m up down ts o) =
    client_writes bs (λ n. k n >>= f) m up down ts o
Step-then_client f (client_reads bs k m up down ts o) =
    client_reads bs (λ r. k r >>= f) m up down ts o
Step-then_client f (server_writes bs m k up down ts o) = server_writes bs (m >>= f) k up down ts o
Step-then_client f (server_reads bs m k up down ts o) = server_reads bs (m >>= f) k up down ts o
Step-then_client f (server_sends fd bs m k up down ts o d) =
    server_sends fd bs (m >>= f) k up down ts o d
Step-then_client f (server_stores g m k up down ts o) = server_stores g (m >>= f) k up down ts o
Step-then_client f (server_clocks m k up down ts o) = server_clocks (m >>= f) k up down ts o

Steps-then_client :
    {A A' B : Type 0} (f : A → Io A') {c s : ℤ} {now : Timeval} {x y : Config A B}
    → Steps c s now x y
    → Steps c s now (then_client f x) (then_client f y)
Steps-then_client f here = here
Steps-then_client f (next st r) = next (Step-then_client f st) (Steps-then_client f r)

take-append_all : {A : Type 0} (xs ys : List A) → take (length xs) (xs ++ ys) ≡ xs
take-append_all [] ys = refl
take-append_all (x ∷ xs) ys = ap (λ t. x ∷ t) (take-append_all xs ys)

py_string-cstring : (s : List ℕ) → IsText s → py_string (cstring s) ≡ done s
unfolding py_string
py_string-cstring s text =
    rw (strlen-text s [] text) (ap (λ t. done t) (take-append_all s (0 ∷ [])))

length-cstring : (s : List ℕ) → length s + 1 ≡ length (cstring s)
length-cstring s = sym (length-append s (0 ∷ []))

tick_result-success :
    (P : Python) (F : Double) (s : List ℕ) (d : Timeval)
    → IsText s
    → tick_result P F
        (pos 0, record { tickdata = cstring s; len = length (cstring s); datetime = d })
      ≡ ret (tick (record { contents = s; time = F.of_int d.tv_sec }))
unfolding tick_result error_code Tick_new
tick_result-success P F s d text = rw (py_string-cstring s text) refl

-- A string of Python is pushed to a ticker of a well-formed store through one connection, and then the
-- ticker is pulled through a connection that is the same or another. If the string with its terminator
-- is no multiple of 8000 bytes long and shorter than 2147488000 bytes, the id fits an int, the clock
-- fits a struct timeval, and neither of the two connections has subscribed, so that no notification is
-- on its way to them, then both calls and the server's threads run to their ends: the push returns
-- True, and the pull a tick with the very string and the seconds of the push.
pub pull_tick-push_tick :
    (P : Python) (F : Double) (args args' : P.Arguments) (c c' : ℤ) (t t' : Thread) (fill : ℕ)
    (now now' : Timeval) (ts : Tickers) (o : List (ℤ × List ℕ)) (i : ℕ) (s : List ℕ) (u : Ticker)
    (out : Pulled)
    → P.parse_int_string args ≡ some (pos i, cstring s)
    → P.parse_int args' ≡ some (pos i)
    → IsText s
    → IsValid ts
    → Holds ts i u
    → All (λ fd. fd ≢ t.connection) u.m_subscribers
    → All (λ fd. fd ≢ t'.connection) u.m_subscribers
    → (length s + 1) % srv_buffer_len ≢ 0
    → length s + 1 < overflow_len
    → 2 * i < 2 ^ 32
    → IsTime now
    → (ts' : Tickers) × (o' : List (ℤ × List ℕ)) × (after after' : Thread) × Steps c t.connection
        now
        (config (Connection_push_tick P F c args) (serve_command fill t) [] [] ts o)
        (config (ret py_true) (ret (some after)) [] [] ts' o')
      × Steps c' t'.connection now'
          (config (Connection_pull_tick P F c' args' out) (serve_command fill t') [] [] ts' o')
          (config
            (ret (tick (record { contents = s; time = F.of_int now.tv_sec })))
            (ret (some after'))
            []
            []
            ts'
            o')
unfolding Connection_push_tick Connection_pull_tick error_code
pull_tick-push_tick P F args args' c c' t t' fill now now' ts o i s u out a a' text v at others _
      partial small int time =
    let xs = cstring s in
    let len = length-cstring s in
    let partial' : length xs % srv_buffer_len ≢ 0 =
      subst (λ n. n % srv_buffer_len ≢ 0) len partial in
    let small' : length xs < overflow_len = subst (λ n. n < overflow_len) len small in
    let (ts', pushes, pulls, (w, at', _, _, heard), _, _) = srv_pull_tick-push v i at now xs in
    let others' : All (λ fd. fd ≢ t.connection) w.m_subscribers =
      subst (All (λ fd. fd ≢ t.connection)) (sym heard) others in
    let push = push_dialogue c t fill now ts ts' o i xs w partial' small' int pushes at' others' in
    let pull =
      pull_dialogue c' t' fill now' ts' (all_notified xs t.datetime w.m_subscribers o) i xs now out
        partial' small' time int pulls in
    let o' = all_notified xs t.datetime w.m_subscribers o in
    let after' = pulled_by t' i (record { tickdata = xs; len = length xs; datetime = now }) in
    (
      ts',
      all_notified xs t.datetime w.m_subscribers o,
      pushed t i (length xs),
      pulled_by t' i (record { tickdata = xs; len = length xs; datetime = now }),
      rw a (rw (strlen-text s [] text) (rw len (Steps-then_client (true_result P F) push))),
      rw a' (
          subst
            (λ m.
              Steps c' t'.connection now'
                (config (srv_client_pull_tick c' (pos i) out >>= tick_result P F)
                  (serve_command fill t') [] [] ts' o')
                (config m (ret (some after')) [] [] ts' o'))
            (tick_result-success P F s now text) (Steps-then_client (tick_result P F) pull)),
    )

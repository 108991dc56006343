-- ===== src/Srv/Listener.antt =====
-- src/lib/core_srv/core_srv_server.c: srv_run_server, which sets up the socket and starts a thread for
-- each connection. What the system answers is the record Host; a negative answer is an error.
pub mod Threads
mod Examples
use arnovich_core.Base.{
  ℕ, Bool, true, false, Option, none, some, List, [], ◌∷◌, if◌then◌else◌, ℤ, pos, negsuc, Outcome,
  done, fault, ◌>>=◌, access,
}
use arnovich_core.Srv.Types.{SrvError, unknown, success}
use arnovich_core.Srv.Client.{SocketType, is_negative}

-- `tcp` and `localhost` are what getprotobyname and gethostbyname find, `none` being NULL; the source
-- reads both through the pointer. `accepts` are the answers of accept, in their order.
pub record Host : Type 0 where
  pub tcp : Option ℤ
  pub localhost : Option (List ℕ)
  pub socket : ℤ
  pub bind : ℤ
  pub listen : ℤ
  pub accepts : List ℤ

-- The connections that threads were started for, whether the socket is closed, and the code that is
-- returned; `none` while the server waits in accept.
pub record Served : Type 0 where
  pub started : List ℤ
  pub closed : Bool
  pub code : Option SrvError

abbrev fails : Bool → Served
fails closed = record { started = []; closed = closed; code = some unknown }

-- while(1): the answers of accept until one is an error.
unfoldable pub accept_loop : List ℤ → Served
accept_loop [] = record { started = []; closed = false; code = none }
accept_loop (ns ∷ later) =
    let rest = accept_loop later in
    if is_negative ns then fails true else record rest { started = ns ∷ rest.started }

-- From the call of socket on.
unfoldable pub listen_on : Host → Served
unfolding accept_loop
listen_on host =
    if is_negative host.socket
    then fails false
    else if is_negative host.bind
    then fails true
    else if is_negative host.listen
    then fails true
    else accept_loop host.accepts

unfoldable pub srv_run_server : SocketType → Host → Outcome Served
unfolding listen_on
srv_run_server SocketType.local_pipes host = done (listen_on host)
srv_run_server SocketType.tcp_ip host = do
  protocol ← access host.tcp
  address ← access host.localhost
  done (listen_on host)
srv_run_server SocketType.other host = done (fails false)

-- The exit code of main in src/bin/core_srv_run.c.
abbrev is_success : SrvError → Bool
is_success SrvError.success = true
is_success _ = false

unfoldable pub main : Host → Outcome (Option ℕ)
unfolding srv_run_server
main host = srv_run_server SocketType.local_pipes host >>= λ s. elim s.code [
  | none ↦ done none
  | some rtn ↦ done (some (if is_success rtn then 1 else 0))
]

-- ===== src/Pylib.antt =====
-- src/pylib/core_srv.c: the Python objects Connection and Tick over the calls of the client. What the
-- interpreter finds in the arguments of a call is a parameter, the record Python.
pub mod RoundTrip
pub mod Overread
mod Examples
use arnovich_core.Base.{
  ℕ, ◌+◌, Option, none, some, List, [], if◌then◌else◌, ℤ, eqb_ℤ, take, Outcome, done,
}
use arnovich_core.Base as B
use arnovich_core.Base.CString.{strlen}
use arnovich_core.Types.Double.{Double}
use arnovich_core.Srv.Types.{success, Timeval}
use arnovich_core.Srv.Data.{Pulled}
use arnovich_core.Srv.Io.{Io, ret, ◌>>=◌, lift}
use arnovich_core.Srv.Client.{
  code, Network, SocketType, srv_client_connect, srv_client_close_connection, srv_client_add_ticker,
  srv_client_get_ticker, srv_client_push_tick, srv_client_pull_tick, srv_client_pull_tick_update,
  srv_client_subscribe, srv_client_unsubscribe, srv_client_wait_for_tick,
}

-- PyArg_ParseTuple with the formats "s", "i" and "is": `none` where the arguments do not fit. A string is
-- the buffer of a C string.
pub record Python : Type 1 where
  pub Arguments : Type 0
  pub parse_string : Arguments → Option (List ℕ)
  pub parse_int : Arguments → Option ℤ
  pub parse_int_string : Arguments → Option (ℤ × List ℕ)

-- What srv_seterror reports: that the arguments do not fit, or that the call failed.
pub data Message : Type 0 where
  bad_input could_not : Message

-- struct Tick: a Python string, and seconds.
pub record TickObject (D : Type 0) : Type 0 where
  pub contents : List ℕ
  pub time : D

-- What a method returns; `null` after an error is set.
pub data Result (D : Type 0) : Type 0 where
  number : ℤ → Result D
  py_true : Result D
  tick : TickObject D → Result D
  null : Message → Result D

-- PyString_FromString: the bytes before the terminator.
unfoldable pub py_string : List ℕ → Outcome (List ℕ)
py_string s = B.◌>>=◌ (strlen s) (λ n. done (take n s))

module _ (P : Python) (F : Double) where
  unfoldable pub Tick_new : TickObject F.D
  Tick_new = record { contents = []; time = F.zero_double }

  -- The end of the pulls and of the wait.
  unfoldable pub tick_result : ℤ × Pulled → Io (Result F.D)
  unfolding py_string Tick_new
  tick_result (rtn, out) =
      if eqb_ℤ rtn (code success)
      then (do
        s ← lift (py_string out.tickdata)
        ret (tick (record Tick_new { contents = s; time = F.of_int out.datetime.tv_sec })))
      else ret (null could_not)

  abbrev id_result : ℤ × ℤ → Io (Result F.D)
  id_result (rtn, id) = if eqb_ℤ rtn (code success) then ret (number id) else ret (null could_not)

  abbrev pub true_result : ℤ → Io (Result F.D)
  true_result rtn = if eqb_ℤ rtn (code success) then ret py_true else ret (null could_not)

  abbrev with_input : {A : Type 0} → Option A → (A → Io (Result F.D)) → Io (Result F.D)
  with_input none go = ret (null bad_input)
  with_input (some a) go = go a

  -- `id` is what the variable holds that is not initialised.
  unfoldable pub Connection_add_ticker : ℤ → P.Arguments → ℤ → Io (Result F.D)
  Connection_add_ticker self args id =
      with_input (P.parse_string args)
        (λ ticker. srv_client_add_ticker self ticker id >>= id_result)

  unfoldable pub Connection_get_ticker : ℤ → P.Arguments → ℤ → Io (Result F.D)
  Connection_get_ticker self args id =
      with_input (P.parse_string args)
        (λ ticker. srv_client_get_ticker self ticker id >>= id_result)

  unfoldable pub Connection_push_tick : ℤ → P.Arguments → Io (Result F.D)
  Connection_push_tick self args = with_input (P.parse_int_string args) (λ (id, tickdata). do
    n ← lift (strlen tickdata)
    srv_client_push_tick self id tickdata (n + 1) >>= true_result)

  -- `out` is what the variables hold that are not initialised.
  unfoldable pub Connection_pull_tick : ℤ → P.Arguments → Pulled → Io (Result F.D)
  unfolding tick_result
  Connection_pull_tick self args out =
      with_input (P.parse_int args) (λ id. srv_client_pull_tick self id out >>= tick_result)

  unfoldable pub Connection_pull_tick_update : ℤ → P.Arguments → Pulled → Io (Result F.D)
  unfolding tick_result
  Connection_pull_tick_update self args out =
      with_input (P.parse_int args) (λ id. srv_client_pull_tick_update self id out >>= tick_result)

  unfoldable pub Connection_subscribe : ℤ → P.Arguments → Io (Result F.D)
  Connection_subscribe self args =
      with_input (P.parse_int args) (λ id. srv_client_subscribe self id >>= true_result)

  unfoldable pub Connection_unsubscribe : ℤ → P.Arguments → Io (Result F.D)
  Connection_unsubscribe self args =
      with_input (P.parse_int args) (λ id. srv_client_unsubscribe self id >>= true_result)

  unfoldable pub Connection_wait_for_update : ℤ → P.Arguments → Pulled → Io (Result F.D)
  unfolding tick_result
  Connection_wait_for_update self args out =
      with_input (P.parse_int args) (λ id. srv_client_wait_for_tick self out >>= tick_result)

-- The new object is its connection.
unfoldable pub Connection_new : Network → Io (Option ℤ)
Connection_new n = srv_client_connect n SocketType.local_pipes >>= λ rtn.
    if eqb_ℤ rtn (code success) then ret (some n.socket) else ret none

unfoldable pub Connection_dealloc : ℤ → Io (Unit {0})
Connection_dealloc self = srv_client_close_connection self

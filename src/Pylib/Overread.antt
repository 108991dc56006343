-- ===== src/Pylib/Overread.antt =====
-- The names that Python passes (src/pylib/core_srv.c) and the client writes (core_srv_client.c).
use arnovich_core.Base.{
  ℕ, ◌<◌, ◌≡◌, refl, some, List, [], ◌∷◌, arith, ℤ, length, length-append, leb, false,
}
use arnovich_core.Base.CString.{cstring}
use arnovich_core.Types.Double.{Double}
use arnovich_core.Srv.Types.{srv_ticker_len}
use arnovich_core.Srv.Wire.{int_bytes, Command, command_code}
use arnovich_core.Srv.Io.{crash, write, write_part}
use arnovich_core.Srv.Client.{srv_client_add_ticker, srv_client_get_ticker, name_to_id}
use arnovich_core.Pylib.{Python, Connection_add_ticker, Connection_get_ticker}

module _ (P : Python) (F : Double) (args : P.Arguments) (self id : ℤ) (s : List ℕ)
    (parsed : P.parse_string args ≡ some (cstring s)) (short : length s < 19) where
  past_the_name : leb srv_ticker_len (length (cstring s)) ≡ false
  past_the_name = ground (arith, length-append s (0 ∷ []))

  -- The client writes 20 bytes of the string of Python: of a name of less than 19 bytes it reads past the
  -- end, once the command is written, whether the ticker is added or looked up.
  pub add_get_ticker-crash :
      (Connection_add_ticker P F self args id
        ≡ write self (int_bytes (command_code Command.add_ticker)) (λ _. crash))
      × (Connection_get_ticker P F self args id
          ≡ write self (int_bytes (command_code Command.get_ticker)) (λ _. crash))
  unfolding Connection_add_ticker Connection_get_ticker srv_client_add_ticker srv_client_get_ticker
      name_to_id write_part
  add_get_ticker-crash = (rw parsed (rw past_the_name refl), rw parsed (rw past_the_name refl))

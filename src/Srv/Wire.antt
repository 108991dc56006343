-- ===== src/Srv/Wire.antt =====
-- How the values that are sent lie in memory: `int` has 4 bytes, `size_t` 8, `struct timeval` two
-- fields of 8, all little-endian, negative numbers in two's complement (the LINUX64 build).
pub mod Decode
use arnovich_core.Base.{
  ℕ, zero, suc, ◌+◌, ◌-◌, ◌*◌, ◌/◌, ◌%◌, ◌^◌, ◌≤◌, ◌<◌, compare, Ordering, ◌≡◌, refl, sym, ap, ◌∙◌,
  ◌≢◌, ◌↔◌, ◌⊎◌, inl, inr, Bool, true, false, not, ◌&&◌, ◌||◌, Option, none, some, List, [], ◌∷◌,
  ◌++◌, map, append_assoc, append-nil, arith, ltb, leb, ◌==◌, if◌then◌else◌, ltb→lt, lt→ltb, le→ltb,
  ==_iff, ne→==, Bool-cases, ℤ, pos, negsuc, pos_part, neg_part, ◌+ℤ◌, ◌*ℤ◌, ltb_ℤ, leb_ℤ, eqb_ℤ,
  eq_of_eqb_ℤ, eqb_ℤ_refl, length, get_elem?, set, take, drop, replicate, length-append, length-set,
  length-take, length-drop, length-replicate, take-append-drop, take-all, get_elem?-set_self,
  get_elem?-set_ne, get_elem?-lt_length, get_elem?-of_lt, set-set, set-get_elem?,
  get_elem?-append_left, get_elem?-append_last, All, All-append, All-set, All-get_elem?, Outcome,
  done, fault, ◌>>=◌, ◌>>◌, access, >>=-eq-done,
}
use arnovich_core.Srv.Types.{
  SrvError, success, unknown, connection_error, write_error, read_error, unknown_ticker,
  no_tickdata, ticker_exists, Timeval,
}

-- The lowest `w` bytes of a number.
unfoldable pub to_bytes : ℕ → ℕ → List ℕ
to_bytes zero n = []
to_bytes (suc w) n = (n % 256) ∷ to_bytes w (n / 256)

unfoldable pub of_bytes : List ℕ → ℕ
of_bytes [] = 0
of_bytes (b ∷ bs) = b + 256 * of_bytes bs

-- A signed number by its value modulo `m`, and back.
unfoldable pub to_word : ℕ → ℤ → ℕ
to_word m (pos n) = n % m
to_word m (negsuc n) = m - 1 - n % m

unfoldable pub of_word : ℕ → ℕ → ℤ
of_word m n = if ltb (2 * n) m then pos n else negsuc (m - 1 - n)

unfoldable pub int_bytes : ℤ → List ℕ
unfolding to_bytes to_word
int_bytes z = to_bytes 4 (to_word (2 ^ 32) z)

unfoldable pub bytes_int : List ℕ → ℤ
unfolding of_bytes of_word
bytes_int bs = of_word (2 ^ 32) (of_bytes bs)

unfoldable pub size_bytes : ℕ → List ℕ
unfolding to_bytes
size_bytes n = to_bytes 8 n

unfoldable pub bytes_size : List ℕ → ℕ
unfolding of_bytes
bytes_size bs = of_bytes bs

unfoldable pub timeval_bytes : Timeval → List ℕ
unfolding to_bytes to_word
timeval_bytes t = to_bytes 8 (to_word (2 ^ 64) t.tv_sec) ++ to_bytes 8 (to_word (2 ^ 64) t.tv_usec)

unfoldable pub bytes_timeval : List ℕ → Timeval
unfolding of_bytes of_word
bytes_timeval bs = record {
  tv_sec = of_word (2 ^ 64) (of_bytes (take 8 bs));
  tv_usec = of_word (2 ^ 64) (of_bytes (drop 8 bs));
}

-- The values of the enumeration SRV_ERROR.
unfoldable pub error_code : SrvError → ℤ
error_code success = pos 0
error_code unknown = pos 1
error_code connection_error = pos 2
error_code write_error = pos 3
error_code read_error = pos 4
error_code unknown_ticker = pos 5
error_code no_tickdata = pos 6
error_code ticker_exists = pos 7

-- The values of the enumeration SRV_COMMANDS.
pub data Command : Type 0 where
  invalid open_connection close_connection add_ticker get_ticker push_tick pull_tick : Command
  pull_tick_by_datetime pull_tick_update subscribe_to_ticker unsubscribe_to_ticker : Command
  notify_subscriber : Command

unfoldable pub command_code : Command → ℤ
command_code invalid = negsuc 0
command_code open_connection = pos 0
command_code close_connection = pos 1
command_code add_ticker = pos 2
command_code get_ticker = pos 3
command_code push_tick = pos 4
command_code pull_tick = pos 5
command_code pull_tick_by_datetime = pos 6
command_code pull_tick_update = pos 7
command_code subscribe_to_ticker = pos 8
command_code unsubscribe_to_ticker = pos 9
command_code notify_subscriber = pos 10

-- ===== src/Srv/Thread.antt =====
-- The variables of a server thread, the macros _ERROR and _ERROR_RTN of
-- src/lib/core_srv/core_srv_server.c, and its loops over the chunks of a tick.
use arnovich_core.Base.{
  ℕ, zero, suc, ◌*◌, ◌/◌, ◌^◌, ◌<◌, ◌≡◌, arith, List, ltb, ◌==◌, if◌then◌else◌, ℤ, pos, negsuc,
  eqb_ℤ, Outcome, done, fault,
}
use arnovich_core.Srv.Types.{SrvError, success, Timeval, srv_buffer_len}
use arnovich_core.Srv.Wire.{error_code}
use arnovich_core.Srv.Io.{Io, ret, ◌>>=◌, ◌>>◌, read_int, write_int, lift, read_part, write_part}
use arnovich_core.Types.Variant.{int_of_size}

-- The variables of the thread that live from one command to the next. `tickdata` and `err` are
-- always set before they are used.
pub record Thread : Type 0 where
  pub connection : ℤ
  pub command : ℤ
  pub ticker : List ℕ
  pub id : ℤ
  pub len : ℕ
  pub datetime : Timeval
  pub last_pull : Timeval

-- _ERROR: `nelem < 0` is false of a size_t, so that only 0 breaks.
abbrev pub unless_closed : {A : Type 0} → ℕ → Io A → Io A → Io A
unless_closed nelem stop go = if nelem == 0 then stop else go

-- _ERROR_RTN: the code is sent, and the command goes on only if it is `success`.
unfoldable pub error_rtn : {A : Type 0} → ℤ → SrvError → Io A → Io A → Io A
error_rtn connection err stop go = do
  nelem ← write_int connection (error_code err)
  unless_closed nelem stop (if eqb_ℤ (error_code err) (pos 0) then go else stop)

-- `i` is an int: i=len/SRV_BUFFER_LEN converts a size_t.
unfoldable pub chunk_count : ℕ → ℤ
chunk_count len = int_of_size (len / srv_buffer_len)

-- SRV_BUFFER_LEN*i is a product of ints, which overflows at 2 ^ 31; one below 0 points before the data.
unfoldable pub int_offset : ℤ → Outcome ℕ
int_offset (pos i) = if ltb (srv_buffer_len * i) (2 ^ 31) then done (srv_buffer_len * i) else fault
int_offset (negsuc i) = fault

-- read and write at SRV_BUFFER_LEN*i in the data.
abbrev pub read_chunk : ℤ → List ℕ → ℤ → ℕ → Io (ℕ × List ℕ)
read_chunk connection tickdata i count =
    lift (int_offset i) >>= λ off. read_part connection tickdata off count

abbrev pub write_chunk : ℤ → List ℕ → ℤ → ℕ → Io ℕ
write_chunk connection tickdata i count =
    lift (int_offset i) >>= λ off. write_part connection tickdata off count

-- for(; i>0; --i), with `suc i` for the `i` of the source: the chunks of 8000 bytes, the last one first,
-- each acknowledged.
unfoldable pub receive_chunks : ℤ → List ℕ → ℕ → Io (List ℕ)
receive_chunks connection tickdata zero = ret tickdata
receive_chunks connection tickdata (suc i) = do
  (nelem, tickdata') ← read_chunk connection tickdata (pos i) srv_buffer_len
  unless_closed nelem (ret tickdata')
      (do write_int connection (error_code success); receive_chunks connection tickdata' i)

-- The same with no acknowledgement, for a sender; a write of 0 bytes ends the loop.
unfoldable pub send_chunks : ℤ → List ℕ → ℕ → Io (Unit {0})
send_chunks connection tickdata zero = ret tt
send_chunks connection tickdata (suc i) = do
  nelem ← write_chunk connection tickdata (pos i) srv_buffer_len
  unless_closed nelem (ret tt) (send_chunks connection tickdata i)

-- for(; i>0; --i) of the pull: each chunk is acknowledged by the client, and an error code ends the loop.
unfoldable pub send_acknowledged : ℤ → List ℕ → ℕ → ℤ → Io (Unit {0})
send_acknowledged connection tickdata zero err = ret tt
send_acknowledged connection tickdata (suc i) err = do
  nelem ← write_chunk connection tickdata (pos i) srv_buffer_len
  unless_closed nelem (ret tt) (do
    (nelem, err') ← read_int connection err
    unless_closed nelem (ret tt)
        (if eqb_ℤ err' (pos 0) then send_acknowledged connection tickdata i err' else ret tt))

-- Lengths from here on make SRV_BUFFER_LEN*i overflow: i is 268436 or more.
abbrev pub overflow_len : ℕ
overflow_len = 2147488000

-- Below it, the count of the chunks and the products are what they are among the numbers.
pub chunk_count-small :
    (len : ℕ) → len < overflow_len → chunk_count len ≡ pos (len / srv_buffer_len)
unfolding chunk_count int_of_size
chunk_count-small len small = ground arith

pub int_offset-small :
    (i : ℕ) → srv_buffer_len * i < 2 ^ 31 → int_offset (pos i) ≡ done (srv_buffer_len * i)
unfolding int_offset
int_offset-small i small = ground arith

-- ===== src/Srv/Io.antt =====
-- Programs that read and write connections and use the shared store. `read` and `write` are the
-- system calls: the environment answers with what came, and with the count that was written. A read
-- answers with all the bytes that it asks for, with the end of the stream, or with an error.
pub mod Buffer
use arnovich_core.Base.{
  ℕ, zero, suc, ◌+◌, ◌-◌, ◌*◌, ◌/◌, ◌%◌, ◌^◌, ◌≤◌, ◌<◌, compare, Ordering, ◌≡◌, refl, sym, ap, ◌∙◌,
  ◌≢◌, ◌↔◌, ◌⊎◌, inl, inr, Bool, true, false, not, ◌&&◌, ◌||◌, Option, none, some, List, [], ◌∷◌,
  ◌++◌, map, append_assoc, append-nil, arith, ltb, leb, ◌==◌, if◌then◌else◌, ltb→lt, lt→ltb, le→ltb,
  ==_iff, ne→==, Bool-cases, ℤ, pos, negsuc, pos_part, neg_part, ◌+ℤ◌, ◌*ℤ◌, ltb_ℤ, leb_ℤ, eqb_ℤ,
  eq_of_eqb_ℤ, eqb_ℤ_refl, length, get_elem?, set, take, drop, replicate, length-append, length-set,
  length-take, length-drop, length-replicate, take-append-drop, take-all, get_elem?-set_self,
  get_elem?-set_ne, get_elem?-lt_length, get_elem?-of_lt, set-set, set-get_elem?,
  get_elem?-append_left, get_elem?-append_last, All, All-append, All-set, All-get_elem?, access,
  Outcome, done, fault,
}
use mathlib.Core.Path.{fun_ext}
use arnovich_core.Srv.Types.{Timeval, Tickers}
use arnovich_core.Srv.Wire.{
  int_bytes, bytes_int, size_bytes, bytes_size, timeval_bytes, bytes_timeval,
}

-- What a `read` answers.
pub data Received : Type 0 where
  got : List ℕ → Received
  closed : Received
  failed : Received

pub data Io (A : Type 0) : Type 0 where
  ret : A → Io A
  crash : Io A
  read : (fd : ℤ) (count : ℕ) → (Received → Io A) → Io A
  write : (fd : ℤ) (bytes : List ℕ) → (ℕ → Io A) → Io A
  -- the store is replaced by `f` of it, and the program goes on with what it was
  store : (f : Tickers → Tickers) → (Tickers → Io A) → Io A
  -- gettimeofday
  clock : (Timeval → Io A) → Io A

infixl 5 ◌>>=◌ ◌>>◌
abbrev pub ◌>>=◌ : {A B : Type 0} → Io A → (A → Io B) → Io B
ret a >>= f = f a
crash >>= f = crash
read fd n k >>= f = read fd n (λ r. k r >>= f)
write fd bs k >>= f = write fd bs (λ n. k n >>= f)
store g k >>= f = store g (λ s. k s >>= f)
clock k >>= f = clock (λ t. k t >>= f)

abbrev pub ◌>>◌ : {A B : Type 0} → Io A → Io B → Io B
m >> n = m >>= λ _. n

pub bind_assoc :
    {A B C : Type 0} (m : Io A) (f : A → Io B) (g : B → Io C)
    → ((m >>= f) >>= g) ≡ (m >>= λ a. f a >>= g)
bind_assoc (ret a) f g = refl
bind_assoc crash f g = refl
bind_assoc (read fd n k) f g = ap (read fd n) (fun_ext λ r. bind_assoc (k r) f g)
bind_assoc (write fd bs k) f g = ap (write fd bs) (fun_ext λ n. bind_assoc (k n) f g)
bind_assoc (store h k) f g = ap (store h) (fun_ext λ s. bind_assoc (k s) f g)
bind_assoc (clock k) f g = ap clock (fun_ext λ t. bind_assoc (k t) f g)

-- `nelem` is a size_t, so that the -1 of an error is the largest number.
abbrev pub minus_one : ℕ
minus_one = 2 ^ 64 - 1

-- What `nelem` and the variable hold after a read: the variable keeps its value if nothing came.
abbrev pub received : {A : Type 0} → (List ℕ → A) → A → Received → ℕ × A
received decode old (got bs) = (length bs, decode bs)
received decode old closed = (0, old)
received decode old failed = (minus_one, old)

abbrev pub read_into : {A : Type 0} → ℤ → ℕ → (List ℕ → A) → A → Io (ℕ × A)
read_into fd count decode old = read fd count (λ r. ret (received decode old r))

abbrev pub read_int : ℤ → ℤ → Io (ℕ × ℤ)
read_int fd old = read_into fd 4 bytes_int old

abbrev pub read_size : ℤ → ℕ → Io (ℕ × ℕ)
read_size fd old = read_into fd 8 bytes_size old

abbrev pub read_timeval : ℤ → Timeval → Io (ℕ × Timeval)
read_timeval fd old = read_into fd 16 bytes_timeval old

abbrev pub write_bytes : ℤ → List ℕ → Io ℕ
write_bytes fd bs = write fd bs ret

abbrev pub write_int : ℤ → ℤ → Io ℕ
write_int fd z = write_bytes fd (int_bytes z)

-- Undefined behaviour ends the program.
abbrev pub lift : {A : Type 0} → Outcome A → Io A
lift (done a) = ret a
lift fault = crash

-- An operation on the store, which holds its lock throughout.
abbrev new_store : {A : Type 0} → Tickers → Outcome (A × Tickers) → Tickers
new_store s (done (_, s')) = s'
new_store s fault = s

abbrev answer : {A : Type 0} → Outcome (A × Tickers) → Io A
answer (done (a, _)) = ret a
answer fault = crash

unfoldable pub update_store : {A : Type 0} → (Tickers → Outcome (A × Tickers)) → Io A
update_store op = store (λ s. new_store s (op s)) (λ s. answer (op s))

unfoldable pub query_store : {A : Type 0} → (Tickers → Outcome A) → Io A
query_store op = store (λ s. s) (λ s. lift (op s))

-- `buffer[off .. off + n]`, the source of a write.
unfoldable pub slice : List ℕ → ℕ → ℕ → Outcome (List ℕ)
slice buffer off n =
    if leb (off + n) (length buffer) then done (take n (drop off buffer)) else fault

-- The buffer with some bytes written from `off` on.
unfoldable pub splice : List ℕ → ℕ → List ℕ → Outcome (List ℕ)
splice buffer off bs =
    if leb (off + length bs) (length buffer)
    then done (take off buffer ++ (bs ++ drop (off + length bs) buffer))
    else fault

-- A read into a buffer from `off` on.
abbrev pub fill_from : List ℕ → ℕ → Received → Io (ℕ × List ℕ)
fill_from buffer off (got bs) = lift (splice buffer off bs) >>= λ b. ret (length bs, b)
fill_from buffer off closed = ret (0, buffer)
fill_from buffer off failed = ret (minus_one, buffer)

unfoldable pub read_part : ℤ → List ℕ → ℕ → ℕ → Io (ℕ × List ℕ)
read_part fd buffer off count = read fd count (λ r. fill_from buffer off r)

unfoldable pub write_part : ℤ → List ℕ → ℕ → ℕ → Io ℕ
unfolding slice
write_part fd buffer off count = lift (slice buffer off count) >>= λ bs. write_bytes fd bs

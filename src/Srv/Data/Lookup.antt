-- ===== src/Srv/Data/Lookup.antt =====
-- srv_get_ticker and srv_add_ticker: names and ids.
use arnovich_core.Base.{
  ℕ, zero, suc, ◌+◌, ◌^◌, ◌≤◌, ◌<◌, Ordering, ◌≡◌, refl, ap, ◌∙◌, ◌≢◌, ◌⊎◌, inl, inr, false, Option,
  none, some, List, [], ◌∷◌, ◌++◌, arith, if◌then◌else◌, length, get_elem?, All, Outcome, done,
  fault, ◌>>=◌,
}
use native.Mathlib.Nat.{zero-add}
use native.Mathlib.Numerals.{add-one}
use arnovich_core.Base.CString.{strcmp, cstring, IsText}
use arnovich_core.Base.CString.Order.{order, strcmp-order, strcpy-text, order_refl, eq_of_order}
use arnovich_core.Srv.Types.{SrvError, success, unknown, srv_ticker_len, Ticker, Tickers}
use arnovich_core.Srv.Data.{get_loop, srv_get_ticker, srv_add_ticker}
use arnovich_core.Base.CString.{is_eq}
use arnovich_core.Srv.Data.Valid.{
  IsName, TickerIsValid, IsValid, memcpy-length, new_ticker, next_count-small,
}

-- What the search for the string `s` among the tickers `xs` answers, if they have the ids from `i` on.
pub data Answer (s : List ℕ) (i : ℕ) (xs : List Ticker) (err : SrvError) (id : Option ℕ)
    : Type 0 where
  found :
      (k : ℕ) (t : Ticker)
      → get_elem? xs k ≡ some t
      → t.m_ticker ≡ cstring s
      → ((j : ℕ) (u : Ticker) → get_elem? xs j ≡ some u → u.m_ticker ≡ cstring s → k ≤ j)
      → err ≡ success
      → id ≡ some (i + k)
      → Answer s i xs err id
  absent :
      ((j : ℕ) (u : Ticker) → get_elem? xs j ≡ some u → u.m_ticker ≢ cstring s)
      → err ≡ unknown
      → id ≡ none
      → Answer s i xs err id

-- The name of a ticker is a given string, or compares as different from it.
compare_name :
    (s rest : List ℕ) (t : Ticker)
    → IsText s
    → IsName t.m_ticker
    → ((strcmp (s ++ 0 ∷ rest) t.m_ticker ≡ done Ordering.eq) × (t.m_ticker ≡ cstring s))
      ⊎ ((sign : Ordering) × (strcmp (s ++ 0 ∷ rest) t.m_ticker ≡ done sign)
          × (is_eq sign ≡ false)
          × (t.m_ticker ≢ cstring s))
compare_name s rest t text (u, text', e, _) = go (order s u) refl
  where
    run : strcmp (s ++ 0 ∷ rest) t.m_ticker ≡ done (order s u)
    run = rw e (strcmp-order s u rest [] text text')

    same_run : t.m_ticker ≡ cstring s → strcmp (s ++ 0 ∷ rest) t.m_ticker ≡ done Ordering.eq
    same_run p = rw (p, strcmp-order s s rest [] text text, order_refl s)

    go :
        (o : Ordering)
        → order s u ≡ o
        → ((strcmp (s ++ 0 ∷ rest) t.m_ticker ≡ done Ordering.eq) × (t.m_ticker ≡ cstring s))
          ⊎ ((sign : Ordering) × (strcmp (s ++ 0 ∷ rest) t.m_ticker ≡ done sign)
              × (is_eq sign ≡ false)
              × (t.m_ticker ≢ cstring s))
    go Ordering.eq q = inl (rw q at run, rw (eq_of_order s u q) e)
    go Ordering.lt q = inr (Ordering.lt, rw q at run, refl, λ p. cc (run, q, same_run p))
    go Ordering.gt q = inr (Ordering.gt, rw q at run, refl, λ p. cc (run, q, same_run p))

module _ (s : List ℕ) (t : Ticker) (differs : t.m_ticker ≢ cstring s) where
  no_name :
      (xs : List Ticker)
      → ((j : ℕ) (u : Ticker) → get_elem? xs j ≡ some u → u.m_ticker ≢ cstring s)
      → (j : ℕ) (u : Ticker) → get_elem? (t ∷ xs) j ≡ some u
      → u.m_ticker ≢ cstring s
  no_name xs h zero u e = λ p. differs (cc)
  no_name xs h (suc j) u e = h j u e

  first_name :
      (xs : List Ticker) (k : ℕ)
      → ((j : ℕ) (u : Ticker) → get_elem? xs j ≡ some u → u.m_ticker ≡ cstring s → k ≤ j)
      → (j : ℕ) (u : Ticker) → get_elem? (t ∷ xs) j ≡ some u
      → u.m_ticker ≡ cstring s
      → suc k ≤ j
  first_name xs k h zero u e p = absurd (differs (cc))
  first_name xs k h (suc j) u e p = omega (arith, h j u e p)

  Answer-cons :
      {i : ℕ} {xs : List Ticker} {err : SrvError} {id : Option ℕ}
      → Answer s (i + 1) xs err id
      → Answer s i (t ∷ xs) err id
  Answer-cons {xs} (found k u at named first e e') =
      found (suc k) u at named (first_name xs k first) e (e' ∙ ap some (omega arith))
  Answer-cons {xs} (absent none_named e e') = absent (no_name xs none_named) e e'

get_loop-Answer :
    (s rest : List ℕ)
    → IsText s
    → (n i : ℕ) (xs : List Ticker) → n ≡ length xs
    → All TickerIsValid xs
    → (err : SrvError) × (id : Option ℕ) × (get_loop (s ++ 0 ∷ rest) n i xs ≡ done (err, id))
      × Answer s i xs err id
unfolding get_loop
get_loop-Answer s rest text zero i [] e v =
    (unknown, none, refl, absent (λ j u h. absurd (cc)) refl refl)
get_loop-Answer s rest text zero i (t ∷ xs) e v = absurd (omega arith)
get_loop-Answer s rest text (suc n) i [] e v = absurd (omega arith)
get_loop-Answer s rest text (suc n) i (t ∷ xs) e v = elim (compare_name s rest t text v.0.named) [
  | inl (run, same) ↦ (
    success,
    some i,
    rw run,
    found 0 t refl same (λ j u at p. omega arith) refl (ap some (omega arith)),
  )
  | inr (sign, run, ne, differs) ↦
      let (err, id, later_run, answer) =
        get_loop-Answer s rest text n (i + 1) xs (omega arith) v.1 in
      (err, id, rw (run, ne) later_run, Answer-cons s t differs answer)
]

pub append_answer : List ℕ → List ℕ → ℕ → SrvError × Option ℕ → Outcome (SrvError × Option ℕ)
append_answer b name i (err, some k) = done (err, some k)
append_answer b name i (err, none) =
    strcmp b name >>= λ sign. if is_eq sign then done (success, some i) else done (unknown, none)

get_loop-append :
    (b : List ℕ) (n i : ℕ) (xs : List Ticker) (x : Ticker)
    → n ≡ length xs
    → get_loop b (suc n) i (xs ++ x ∷ [])
      ≡ (get_loop b n i xs >>= append_answer b x.m_ticker (i + n))
unfolding get_loop append_answer
get_loop-append b zero i [] x e = ground arith
get_loop-append b zero i (t ∷ xs) x e = absurd (omega arith)
get_loop-append b (suc n) i [] x e = absurd (omega arith)
get_loop-append b (suc n) i (t ∷ xs) x e = ground (arith, get_loop-append b n (i + 1) xs x)

module _ {ts : Tickers} (v : IsValid ts) where
  -- In a well-formed store srv_get_ticker returns, for every string: the least id with that name,
  -- or `unknown` if no ticker has it.
  pub srv_get_ticker-Answer :
      (s rest : List ℕ)
      → IsText s
      → (err : SrvError) × (id : Option ℕ) × (srv_get_ticker ts (s ++ 0 ∷ rest) ≡ done (err, id))
        × Answer s 0 ts.m_tickers err id
  unfolding srv_get_ticker
  srv_get_ticker-Answer s rest text =
      get_loop-Answer s rest text ts.m_ntickers 0 ts.m_tickers v.counted v.each

-- What the search for `u` answers once a ticker `s` is added with the id `n`: as before if `u` was
-- there, else the new id if `u` is `s`.
abbrev pub after_add : (s u : List ℕ) (n : ℕ) → SrvError × Option ℕ → Outcome (SrvError × Option ℕ)
after_add s u n (err, some k) = done (err, some k)
after_add s u n (err, none) =
    if is_eq (order u s) then done (success, some n) else done (unknown, none)

append_answer-text :
    (s u rest : List ℕ) (n : ℕ)
    → IsText s
    → IsText u
    → (r : Outcome (SrvError × Option ℕ))
    → (r >>= append_answer (u ++ 0 ∷ rest) (cstring s) n) ≡ (r >>= after_add s u n)
unfolding append_answer
append_answer-text s u rest n h k fault = refl
append_answer-text s u rest n h k (done (err, some i)) = refl
append_answer-text s u rest n h k (done (err, none)) = rw (strcmp-order u s rest [] k h)

-- Adding a string of at most 19 bytes to a well-formed store of fewer than 2 ^ 31 - 1 tickers, past
-- which the counter overflows, succeeds with the next id, and then srv_get_ticker gives every name that
-- was known its old id, the added name the new id if it was not known, and no other name an id.
pub srv_get_ticker-add :
    {ts : Tickers} (v : IsValid ts) (s rest : List ℕ)
    → IsText s
    → length s < srv_ticker_len
    → ts.m_ntickers + 1 < 2 ^ 31
    → (ts' : Tickers) × (srv_add_ticker ts (s ++ 0 ∷ rest) ≡ done (success, ts.m_ntickers, ts'))
      × ((u q : List ℕ)
          → IsText u
          → srv_get_ticker ts' (u ++ 0 ∷ q)
            ≡ (srv_get_ticker ts (u ++ 0 ∷ q) >>= after_add s u ts.m_ntickers))
unfolding srv_get_ticker srv_add_ticker
srv_get_ticker-add {ts} v s rest text fits room = (
  record { m_tickers = ts.m_tickers ++ new_ticker s ∷ []; m_ntickers = ts.m_ntickers + 1 },
  rw (
    next_count-small ts.m_ntickers room,
    memcpy-length ts.m_tickers ts.m_ntickers v.counted,
    strcpy-text srv_ticker_len s rest text fits,
  ),
  λ u q h. simp add-one (
      get_loop-append (u ++ 0 ∷ q) ts.m_ntickers 0 ts.m_tickers (new_ticker s) v.counted
      ∙ simp zero-add (append_answer-text s u q ts.m_ntickers text h _)),
)

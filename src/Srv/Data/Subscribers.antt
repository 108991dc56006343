-- ===== src/Srv/Data/Subscribers.antt =====
-- srv_tick_subscribe and srv_tick_unsubscribe.
use arnovich_core.Base.{
  ℕ, ◌≡◌, refl, ap, ◌∙◌, ◌≢◌, inl, inr, List, [], ◌∷◌, ◌++◌, Bool-cases, ℤ, pos, eqb_ℤ, eq_of_eqb_ℤ,
  eqb_ℤ_refl, get_elem?, get_elem?-set_ne, set-set, set-get_elem?, All, done, ◌>>=◌,
}
use arnovich_core.Srv.Types.{success, Ticker, Tickers}
use arnovich_core.Srv.Data.{put_ticker, srv_tick_subscribe, unlink, srv_tick_unsubscribe}
use arnovich_core.Srv.Data.Valid.{
  TickerIsValid, IsValid, Holds, not_past_end, ticker_at-Holds, Holds-IsValid, put_ticker-IsValid,
  Holds-put_ticker,
}

-- `c` is none of the connections.
abbrev pub NotIn : ℤ → List ℤ → Type 0
NotIn c cs = All (λ d. d ≢ c) cs

-- `after` is `before` less its first `c`, if there is one.
pub data DropsFirst (c : ℤ) (before after : List ℤ) : Type 0 where
  drops :
      (front back : List ℤ)
      → before ≡ front ++ c ∷ back
      → NotIn c front
      → after ≡ front ++ back
      → DropsFirst c before after
  keeps : NotIn c before → after ≡ before → DropsFirst c before after

DropsFirst-cons :
    (c d : ℤ) (before after : List ℤ)
    → d ≢ c
    → DropsFirst c before after
    → DropsFirst c (d ∷ before) (d ∷ after)
DropsFirst-cons c d before after ne (drops front back e out e') =
    drops (d ∷ front) back (ap (λ xs. d ∷ xs) e) (ne, out) (ap (λ xs. d ∷ xs) e')
DropsFirst-cons c d before after ne (keeps out e) = keeps (ne, out) (ap (λ xs. d ∷ xs) e)

pub unlink-DropsFirst : (c : ℤ) (cs : List ℤ) → DropsFirst c cs (unlink c cs)
unfolding unlink
unlink-DropsFirst c [] = keeps tt refl
unlink-DropsFirst c (d ∷ cs) = elim (Bool-cases (eqb_ℤ d c)) [
  | inl e ↦ drops [] cs (ap (λ x. x ∷ cs) (eq_of_eqb_ℤ d c e)) tt (rw e)
  | inr e ↦
      rw e (
        DropsFirst-cons c d cs (unlink c cs) (λ p. cc (eqb_ℤ_refl c, e, p))
          (unlink-DropsFirst c cs))
]

abbrev pub with_subscribers : List ℤ → Ticker → Ticker
with_subscribers cs t = record t { m_subscribers = cs }

put_ticker-put_ticker :
    (ts : Tickers) (i : ℕ) (t u w : Ticker)
    → put_ticker (put_ticker ts (pos i) u) (pos i) w ≡ put_ticker ts (pos i) w
unfolding put_ticker
put_ticker-put_ticker ts i t u w =
    ap (λ xs. record ts { m_tickers = xs }) (set-set ts.m_tickers i u w)

put_ticker_self : (ts : Tickers) (i : ℕ) (t : Ticker) → Holds ts i t → put_ticker ts (pos i) t ≡ ts
unfolding put_ticker
put_ticker_self ts i t h =
    ap (λ xs. record ts { m_tickers = xs }) (set-get_elem? ts.m_tickers i t h)

module _ {ts : Tickers} (v : IsValid ts) (i : ℕ) {t : Ticker} (at : Holds ts i t) (c : ℤ) where
  pub subscribe-with :
      srv_tick_subscribe ts (pos i) c
      ≡ done (success, put_ticker ts (pos i) (with_subscribers (c ∷ t.m_subscribers) t))
  unfolding srv_tick_subscribe
  subscribe-with = rw (not_past_end v i at, ticker_at-Holds v i at)

  pub unsubscribe-with :
      srv_tick_unsubscribe ts (pos i) c
      ≡ done (success, put_ticker ts (pos i) (with_subscribers (unlink c t.m_subscribers) t))
  unfolding srv_tick_unsubscribe
  unsubscribe-with = rw (not_past_end v i at, ticker_at-Holds v i at)

  -- Unsubscribing a connection from an existing ticker succeeds, and takes the first entry of that
  -- connection, if there is one, out of the ticker's subscribers; the other subscribers keep their
  -- order, and the ticker's ticks and name and the other tickers are as before.
  pub unsubscribe-DropsFirst :
      (ts' : Tickers) × (u : Ticker) × (srv_tick_unsubscribe ts (pos i) c ≡ done (success, ts'))
      × Holds ts' i u
      × DropsFirst c t.m_subscribers u.m_subscribers
      × (u.m_ticks ≡ t.m_ticks)
      × (u.m_ticker ≡ t.m_ticker)
      × ((j : ℕ) → i ≢ j → get_elem? ts'.m_tickers j ≡ get_elem? ts.m_tickers j)
  unfolding put_ticker
  unsubscribe-DropsFirst =
      let u : Ticker = with_subscribers (unlink c t.m_subscribers) t in
      (
        put_ticker ts (pos i) u,
        u,
        unsubscribe-with,
        Holds-put_ticker v i at u,
        unlink-DropsFirst c t.m_subscribers,
        refl,
        refl,
        λ j ne. get_elem?-set_ne ts.m_tickers i j u ne,
      )

unlink-cons : (c : ℤ) (cs : List ℤ) → unlink c (c ∷ cs) ≡ cs
unfolding unlink
unlink-cons c cs = rw (eqb_ℤ_refl c)

-- Subscribing a connection to an existing ticker and unsubscribing it again gives the store back.
pub unsubscribe-subscribe :
    {ts : Tickers} (v : IsValid ts) (i : ℕ) {t : Ticker} (at : Holds ts i t) (c : ℤ)
    → (srv_tick_subscribe ts (pos i) c >>= λ r. srv_tick_unsubscribe r.1 (pos i) c)
      ≡ done (success, ts)
unsubscribe-subscribe {ts} v i {t} at c =
    let u : Ticker = with_subscribers (c ∷ t.m_subscribers) t in
    let w : TickerIsValid u = record {
      ticks = (Holds-IsValid v i at).ticks;
      named = (Holds-IsValid v i at).named;
    } in
    rw (subscribe-with v i at c) (
      unsubscribe-with (put_ticker-IsValid v i at u w) i (Holds-put_ticker v i at u) c
      ∙ rw (
        unlink-cons c t.m_subscribers,
        put_ticker-put_ticker ts i t u t,
        put_ticker_self ts i t at,
      ))

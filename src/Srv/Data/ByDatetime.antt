-- ===== src/Srv/Data/ByDatetime.antt =====
-- srv_pull_tick_by_datetime: which tick it returns.
use arnovich_core.Base.{
  ℕ, ◌≡◌, refl, ◌⊎◌, inl, inr, true, false, none, some, List, [], ◌∷◌, Bool-cases, pos, All, done,
}
use arnovich_core.Srv.Types.{success, no_tickdata, Timeval, later, Tick, Ticker, Tickers}
use arnovich_core.Srv.Data.{skip_later, pull_before, srv_pull_tick_by_datetime}
use arnovich_core.Srv.Data.Valid.{
  TickIsValid, IsValid, Holds, not_past_end, ticker_at-Holds, Holds-IsValid,
}
use arnovich_core.Srv.Data.Timeline.{
  later_refl, In, IsOrdered, pulled, In-TickIsValid, copy_out-TickIsValid, All-map,
}

-- `p` is the newest of the ticks that are not later than `datetime`.
pub record IsNewestUpTo (datetime : Timeval) (ticks : List Tick) (p : Tick) : Type 0 where
  pub member : In p ticks
  pub not_later : later p.m_datetime datetime ≡ false
  pub newest :
      All
        (λ u. (later u.m_datetime datetime ≡ true) ⊎ (later u.m_datetime p.m_datetime ≡ false))
        ticks

-- The loop of srv_pull_tick_by_datetime stops at the newest tick up to the time, or at the end.
skip_later-newest :
    (datetime : Timeval) (ticks : List Tick)
    → IsOrdered ticks
    → ((p : Tick) × (rest : List Tick) × (skip_later datetime ticks ≡ p ∷ rest)
        × IsNewestUpTo datetime ticks p)
      ⊎ ((skip_later datetime ticks ≡ []) × All (λ u. later u.m_datetime datetime ≡ true) ticks)
unfolding skip_later
skip_later-newest datetime [] h = inr (refl, tt)
skip_later-newest datetime (t ∷ ticks) h = elim (Bool-cases (later t.m_datetime datetime)) [
  | inl e ↦ elim (skip_later-newest datetime ticks h.1) [
    | inl (p, rest, run, n) ↦ inl (
      p,
      rest,
      rw e run,
      record { member = inr n.member; not_later = n.not_later; newest = (inl e, n.newest) },
    )
    | inr (run, every) ↦ inr (rw e run, (e, every))
  ]
  | inr e ↦ inl (
    t,
    ticks,
    rw e,
    record {
      member = inl refl;
      not_later = e;
      newest = (
        inr (later_refl t.m_datetime),
        All-map (λ u. later u.m_datetime t.m_datetime ≡ false) _ (λ u w. inr w) ticks h.0,
      );
    },
  )
]

module _ {ts : Tickers} (v : IsValid ts) (i : ℕ) {t : Ticker} (at : Holds ts i t) where
  -- If the ticks of an existing ticker are in order, srv_pull_tick_by_datetime returns all of the
  -- newest tick that is not later than the time; it answers `no_tickdata` only if every tick is later.
  pub srv_pull_tick_by_datetime-newest :
      (datetime : Timeval)
      → IsOrdered t.m_ticks
      → ((p : Tick) × (srv_pull_tick_by_datetime ts (pos i) datetime
            ≡ done (success, some (pulled p)))
          × IsNewestUpTo datetime t.m_ticks p)
        ⊎ ((srv_pull_tick_by_datetime ts (pos i) datetime ≡ done (no_tickdata, none))
            × All (λ u. later u.m_datetime datetime ≡ true) t.m_ticks)
  unfolding srv_pull_tick_by_datetime
  srv_pull_tick_by_datetime-newest datetime h =
      rw (not_past_end v i at, ticker_at-Holds v i at)
        (by_datetime t.m_ticks h (Holds-IsValid v i at).ticks)
    where
      by_datetime :
          (ticks : List Tick)
          → IsOrdered ticks
          → All TickIsValid ticks
          → ((p : Tick) × (pull_before datetime ticks ≡ done (success, some (pulled p)))
              × IsNewestUpTo datetime ticks p)
            ⊎ ((pull_before datetime ticks ≡ done (no_tickdata, none))
                × All (λ u. later u.m_datetime datetime ≡ true) ticks)
      by_datetime [] h w = inr (refl, tt)
      by_datetime (x ∷ xs) h w = elim (skip_later-newest datetime (x ∷ xs) h) [
        | inl (p, rest, run, n) ↦
            inl (p, rw run (copy_out-TickIsValid p (In-TickIsValid p (x ∷ xs) w n.member)), n)
        | inr (run, every) ↦ inr (rw run, every)
      ]

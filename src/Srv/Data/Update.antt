-- ===== src/Srv/Data/Update.antt =====
-- srv_pull_tick_update: which tick it returns.
use arnovich_core.Base.{
  ℕ, ◌≡◌, refl, ◌⊎◌, inl, inr, true, false, none, some, List, [], ◌∷◌, arith, Bool-cases, pos, All,
  done,
}
use arnovich_core.Srv.Types.{success, no_tickdata, Timeval, later, Tick, Ticker, Tickers}
use arnovich_core.Srv.Data.{copy_out, oldest_later, pull_after, srv_pull_tick_update}
use arnovich_core.Srv.Data.Valid.{
  TickIsValid, IsValid, Holds, not_past_end, ticker_at-Holds, Holds-IsValid,
}
use arnovich_core.Srv.Data.Timeline.{
  later_trans, later_refl, later_asym, In, NotBefore, IsOrdered, pulled, In-TickIsValid,
  copy_out-TickIsValid, All-map, NotBefore-In,
}

-- `p` is the oldest of the ticks later than `datetime`; if there is none, it is a tick that is not
-- earlier than `datetime`.
pub record IsOldestAfter (datetime : Timeval) (ticks : List Tick) (p : Tick) : Type 0 where
  pub member : In p ticks
  pub not_earlier : later datetime p.m_datetime ≡ false
  pub oldest :
      All
        (λ u. (later u.m_datetime datetime ≡ false) ⊎ (later p.m_datetime u.m_datetime ≡ false))
        ticks
  pub strict :
      (later p.m_datetime datetime ≡ true) ⊎ All (λ u. later u.m_datetime datetime ≡ false) ticks

later_of : (a b c : Timeval) → later a b ≡ true → later c b ≡ false → later a c ≡ true
later_of a b c h k = ground arith

none_later :
    (datetime : Timeval) (t : Tick) (ticks : List Tick)
    → later t.m_datetime datetime ≡ false
    → NotBefore ticks t
    → All (λ u. later u.m_datetime datetime ≡ false) ticks
none_later datetime t ticks e h =
    All-map (λ u. later u.m_datetime t.m_datetime ≡ false) _
      (λ u w. later_trans u.m_datetime t.m_datetime datetime w e) ticks h

strict_first :
    (datetime : Timeval) (t : Tick) (ticks : List Tick)
    → All (λ u. later u.m_datetime datetime ≡ false) ticks
    → (later t.m_datetime datetime ≡ true)
      ⊎ All (λ u. later u.m_datetime datetime ≡ false) (t ∷ ticks)
strict_first datetime t ticks h = elim (Bool-cases (later t.m_datetime datetime)) [
  | inl e ↦ inl e
  | inr e ↦ inr (e, h)
]

not_later_tail :
    (datetime : Timeval) (t : Tick) (ticks : List Tick)
    → later t.m_datetime datetime ≡ false
    → NotBefore ticks t
    → (p : Tick)
    → All
        (λ u. (later u.m_datetime datetime ≡ false) ⊎ (later p.m_datetime u.m_datetime ≡ false))
        ticks
not_later_tail datetime t ticks e h p =
    All-map (λ u. later u.m_datetime t.m_datetime ≡ false) _
      (λ u w. inl (later_trans u.m_datetime t.m_datetime datetime w e)) ticks h

oldest_later-IsOldestAfter :
    (datetime : Timeval) (t : Tick) (ticks : List Tick)
    → IsOrdered (t ∷ ticks)
    → later datetime t.m_datetime ≡ false
    → IsOldestAfter datetime (t ∷ ticks) (oldest_later datetime t ticks)
unfolding oldest_later
oldest_later-IsOldestAfter datetime t [] h e = record {
  member = inl refl;
  not_earlier = e;
  oldest = (inr (later_refl t.m_datetime), tt);
  strict = strict_first datetime t [] tt;
}
oldest_later-IsOldestAfter datetime t (u ∷ us) h e =
    elim (Bool-cases (later u.m_datetime datetime)) [
      | inl l ↦
          let o =
            oldest_later-IsOldestAfter datetime u us h.1 (later_asym u.m_datetime datetime l) in
          rw l record {
            member = inr o.member;
            not_earlier = o.not_earlier;
            oldest = (inr (NotBefore-In t _ (u ∷ us) h.0 o.member), o.oldest);
            strict = elim o.strict [ inl w ↦ inl w | inr w ↦ absurd (cc (w.0, l)) ];
          }
      | inr l ↦ rw l record {
        member = inl refl;
        not_earlier = e;
        oldest = (inr (later_refl t.m_datetime), (inl l, not_later_tail datetime u us l h.1.0 t));
        strict = strict_first datetime t (u ∷ us) (l, none_later datetime u us l h.1.0);
      }
    ]

module _ {ts : Tickers} (v : IsValid ts) (i : ℕ) {t : Ticker} (at : Holds ts i t) where
  -- If the ticks of an existing ticker are in order, srv_pull_tick_update returns all of the oldest
  -- tick that is later than the time, or, if none is later, of a tick with that very time; it answers
  -- `no_tickdata` only if every tick is earlier than the time.
  pub srv_pull_tick_update-oldest :
      (datetime : Timeval)
      → IsOrdered t.m_ticks
      → ((p : Tick) × (srv_pull_tick_update ts (pos i) datetime ≡ done (success, some (pulled p)))
          × IsOldestAfter datetime t.m_ticks p)
        ⊎ ((srv_pull_tick_update ts (pos i) datetime ≡ done (no_tickdata, none))
            × All (λ u. later datetime u.m_datetime ≡ true) t.m_ticks)
  unfolding srv_pull_tick_update
  srv_pull_tick_update-oldest datetime h =
      rw (not_past_end v i at, ticker_at-Holds v i at)
        (update t.m_ticks h (Holds-IsValid v i at).ticks)
    where
      update :
          (ticks : List Tick)
          → IsOrdered ticks
          → All TickIsValid ticks
          → ((p : Tick) × (pull_after datetime ticks ≡ done (success, some (pulled p)))
              × IsOldestAfter datetime ticks p)
            ⊎ ((pull_after datetime ticks ≡ done (no_tickdata, none))
                × All (λ u. later datetime u.m_datetime ≡ true) ticks)
      update [] h w = inr (refl, tt)
      update (x ∷ xs) h w = elim (Bool-cases (later datetime x.m_datetime)) [
        | inl e ↦ inr (
          rw e,
          (
            e,
            All-map (λ u. later u.m_datetime x.m_datetime ≡ false) _
                (λ u k. later_of datetime x.m_datetime u.m_datetime e k) xs h.0,
          ),
        )
        | inr e ↦
            let o = oldest_later-IsOldestAfter datetime x xs h e in
            inl (
              oldest_later datetime x xs,
              rw e (copy_out-TickIsValid _ (In-TickIsValid _ (x ∷ xs) w o.member)),
              o,
            )
      ]

-- A tick with the very time of the update is passed over if the next newer tick is later: with
-- `last_pull` + 1 microsecond as the time, as the server calls it, an update is lost.
pub update_skips :
    (datetime : Timeval) (newer exact : Tick) (rest : List Tick)
    → later newer.m_datetime datetime ≡ true
    → exact.m_datetime ≡ datetime
    → pull_after datetime (newer ∷ exact ∷ rest) ≡ copy_out newer
unfolding pull_after
update_skips datetime newer exact rest h e =
    rw (later_asym newer.m_datetime datetime h, e, later_refl datetime)

-- ===== src/Srv/Data/Timeline.antt =====
-- The ticks of a ticker in the order of their times, and what a pull copies out of one.
use arnovich_core.Base.{◌≡◌, sym, ◌⊎◌, inl, inr, true, false, some, List, [], ◌∷◌, arith, All, done}
use mathlib.Core.Path.{subst}
use arnovich_core.Srv.Types.{success, Timeval, later, Tick}
use arnovich_core.Srv.Data.{Pulled, copy_out}
use arnovich_core.Srv.Data.Valid.{TickIsValid, memcpy-length}

pub later_trans : (a b c : Timeval) → later a b ≡ false → later b c ≡ false → later a c ≡ false
later_trans a b c h k = ground arith

pub later_refl : (a : Timeval) → later a a ≡ false
later_refl a = ground arith

pub later_asym : (a b : Timeval) → later a b ≡ true → later b a ≡ false
later_asym a b h = ground arith

-- `t` is one of the ticks.
abbrev pub In : Tick → List Tick → Type 0
In t [] = ⊥
In t (u ∷ us) = (t ≡ u) ⊎ In t us

-- The newest tick comes first.
abbrev pub NotBefore : List Tick → Tick → Type 0
NotBefore ticks t = All (λ u. later u.m_datetime t.m_datetime ≡ false) ticks

abbrev pub IsOrdered : List Tick → Type 0
IsOrdered [] = Unit
IsOrdered (t ∷ ts) = NotBefore ts t × IsOrdered ts

-- What a pull of the tick `t` returns: all of its data, its length and its time.
abbrev pub pulled : Tick → Pulled
pulled t = record { tickdata = t.m_data; len = t.m_len; datetime = t.m_datetime }

pub In-TickIsValid :
    (t : Tick) (ticks : List Tick) → All TickIsValid ticks → In t ticks → TickIsValid t
In-TickIsValid t [] h m = absurd m
In-TickIsValid t (u ∷ us) h (inl e) = subst TickIsValid (sym e) h.0
In-TickIsValid t (u ∷ us) h (inr m) = In-TickIsValid t us h.1 m

pub copy_out-TickIsValid : (t : Tick) → TickIsValid t → copy_out t ≡ done (success, some (pulled t))
unfolding copy_out
copy_out-TickIsValid t h = rw (memcpy-length t.m_data t.m_len h)

pub All-map {ℓ κ} :
    {A : Type 0} (P : A → Type ℓ) (Q : A → Type κ)
    → ((a : A) → P a → Q a)
    → (xs : List A) → All P xs
    → All Q xs
All-map P Q f [] h = tt
All-map P Q f (x ∷ xs) h = (f x h.0, All-map P Q f xs h.1)

pub NotBefore-In :
    (t p : Tick) (ticks : List Tick)
    → NotBefore ticks t
    → In p ticks
    → later p.m_datetime t.m_datetime ≡ false
NotBefore-In t p [] h m = absurd m
NotBefore-In t p (u ∷ us) h (inl e) = rw e h.0
NotBefore-In t p (u ∷ us) h (inr m) = NotBefore-In t p us h.1 m

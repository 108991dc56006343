-- ===== src/Srv/Dialogue/Moves.antt =====
-- The steps of a client and a server as functions, and that they commute.
use arnovich_core.Base.{
  ℕ, ◌≡◌, inl, inr, Option, some, none, List, [], ◌∷◌, ◌++◌, append-nil, ℤ, eqb_ℤ, Bool-cases, leb,
  if◌then◌else◌, length, take, drop,
}
use arnovich_core.Srv.Dialogue.Taken.{taken, taken-append}
use arnovich_core.Srv.Types.{Timeval, Tickers}
use arnovich_core.Srv.Io.{Io, ret, crash, read, write, store, clock, got}
use arnovich_core.Srv.Dialogue.{Config, config}

module _ {A B : Type 0} (c s : ℤ) (now : Timeval) where
  -- The step of the client, if it has one.
  unfoldable pub client_step : Config A B → Option (Config A B)
  client_step (config (ret a) m up down ts o) = none
  client_step (config crash m up down ts o) = none
  client_step (config (read fd n k) m up down ts o) =
      if eqb_ℤ fd c
      then elim (taken n down) [
        | none ↦ none
        | some (bs, rest) ↦ some (config (k (got bs)) m up rest ts o)
      ]
      else none
  client_step (config (write fd bs k) m up down ts o) =
      if eqb_ℤ fd c then some (config (k (length bs)) m (up ++ bs) down ts o) else none
  client_step (config (store f k) m up down ts o) = none
  client_step (config (clock k) m up down ts o) = none

  -- The step of the server, if it has one.
  unfoldable pub server_step : Config A B → Option (Config A B)
  server_step (config m (ret b) up down ts o) = none
  server_step (config m crash up down ts o) = none
  server_step (config m (read fd n k) up down ts o) =
      if eqb_ℤ fd s
      then elim (taken n up) [
        | none ↦ none
        | some (bs, rest) ↦ some (config m (k (got bs)) rest down ts o)
      ]
      else none
  server_step (config m (write fd bs k) up down ts o) =
      if eqb_ℤ fd s
      then some (config m (k (length bs)) up (down ++ bs) ts o)
      else some (config m (k (length bs)) up down ts ((fd, bs) ∷ o))
  server_step (config m (store f k) up down ts o) = some (config m (k ts) up down (f ts) o)
  server_step (config m (clock k) up down ts o) = some (config m (k now) up down ts o)

  -- A step of the client: it takes bytes off the front of what is on its way down and adds bytes to what
  -- is on its way up, whatever the server does.
  record ClientMove (p : Io A) (q : Io B) (down : List ℕ) : Type 0 where
    pub next_program : Io A
    pub sent : List ℕ
    pub left : List ℕ
    pub runs :
        (r : Io B) (up extra : List ℕ) (ts : Tickers) (o : List (ℤ × List ℕ))
        → client_step (config p r up (down ++ extra) ts o)
          ≡ some (config next_program r (up ++ sent) (left ++ extra) ts o)

  client_move :
      (p : Io A) (q : Io B) (up down : List ℕ) (ts : Tickers) (o : List (ℤ × List ℕ))
      (y : Config A B)
      → client_step (config p q up down ts o) ≡ some y
      → ClientMove p q down
  unfolding client_step
  client_move (ret a) q up down ts o y e = absurd (cc)
  client_move crash q up down ts o y e = absurd (cc)
  client_move (store f k) q up down ts o y e = absurd (cc)
  client_move (clock k) q up down ts o y e = absurd (cc)
  client_move (write fd bs k) q up down ts o y e = elim (Bool-cases (eqb_ℤ fd c)) [
    | inl t ↦ record {
      next_program = k (length bs);
      sent = bs;
      left = down;
      runs = λ q up extra ts o. rw t;
    }
    | inr t ↦ absurd (cc (rw t at e))
  ]
  client_move (read fd n k) q up down ts o y e = elim (Bool-cases (eqb_ℤ fd c)) [
    | inl t ↦ elim (Bool-cases (leb n (length down))) [
      | inl l ↦ record {
        next_program = k (got (take n down));
        sent = [];
        left = drop n down;
        runs = λ q up extra ts o. rw (t, taken-append n down extra l, append-nil up);
      }
      | inr l ↦ absurd (cc (rw (t, l) at e))
    ]
    | inr t ↦ absurd (cc (rw t at e))
  ]

  -- A step of the server, in the same way.
  record ServerMove (p : Io A) (q : Io B) (up : List ℕ) (ts : Tickers) (o : List (ℤ × List ℕ))
      : Type 0 where
    pub next_program : Io B
    pub sent : List ℕ
    pub left : List ℕ
    pub tickers : Tickers
    pub others : List (ℤ × List ℕ)
    pub runs :
        (r : Io A) (down extra : List ℕ)
        → server_step (config r q (up ++ extra) down ts o)
          ≡ some (config r next_program (left ++ extra) (down ++ sent) tickers others)

  server_move :
      (p : Io A) (q : Io B) (up down : List ℕ) (ts : Tickers) (o : List (ℤ × List ℕ))
      (y : Config A B)
      → server_step (config p q up down ts o) ≡ some y
      → ServerMove p q up ts o
  unfolding server_step
  server_move p (ret a) up down ts o y e = absurd (cc)
  server_move p crash up down ts o y e = absurd (cc)
  server_move p (store f k) up down ts o y e = record {
    next_program = k ts;
    sent = [];
    left = up;
    tickers = f ts;
    others = o;
    runs = λ p down extra. rw (append-nil down);
  }
  server_move p (clock k) up down ts o y e = record {
    next_program = k now;
    sent = [];
    left = up;
    tickers = ts;
    others = o;
    runs = λ p down extra. rw (append-nil down);
  }
  server_move p (write fd bs k) up down ts o y e = elim (Bool-cases (eqb_ℤ fd s)) [
    | inl t ↦ record {
      next_program = k (length bs);
      sent = bs;
      left = up;
      tickers = ts;
      others = o;
      runs = λ p down extra. rw t;
    }
    | inr t ↦ record {
      next_program = k (length bs);
      sent = [];
      left = up;
      tickers = ts;
      others = (fd, bs) ∷ o;
      runs = λ p down extra. rw (t, append-nil down);
    }
  ]
  server_move p (read fd n k) up down ts o y e = elim (Bool-cases (eqb_ℤ fd s)) [
    | inl t ↦ elim (Bool-cases (leb n (length up))) [
      | inl l ↦ record {
        next_program = k (got (take n up));
        sent = [];
        left = drop n up;
        tickers = ts;
        others = o;
        runs = λ p down extra. rw (t, taken-append n up extra l, append-nil down);
      }
      | inr l ↦ absurd (cc (rw (t, l) at e))
    ]
    | inr t ↦ absurd (cc (rw t at e))
  ]

  -- A step of the client and one of the server commute.
  pub commute :
      (x y z : Config A B)
      → client_step x ≡ some y
      → server_step x ≡ some z
      → (w : Config A B) × (server_step y ≡ some w) × (client_step z ≡ some w)
  commute (config p q up down ts o) y z e d =
      let m = client_move p q up down ts o y e in
      let n = server_move p q up down ts o z d in
      let run = m.runs q up [] ts o in
      let serve = n.runs p down [] in
      let at_y : y ≡ config m.next_program q (up ++ m.sent) m.left ts o =
        cc (e, run, append-nil down, append-nil m.left) in
      let at_z : z ≡ config p n.next_program n.left (down ++ n.sent) n.tickers n.others =
        cc (d, serve, append-nil up, append-nil n.left) in
      (
        config m.next_program n.next_program (n.left ++ m.sent) (m.left ++ n.sent) n.tickers
            n.others,
        rw at_y (n.runs m.next_program m.left m.sent),
        rw at_z (m.runs n.next_program n.left n.sent n.tickers n.others),
      )

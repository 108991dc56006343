-- ===== src/Srv/Data/Board.antt =====
-- What the store of core_srv_data.c promises, without its arrays, lengths and lists of subscribers:
-- topics with a title, a history and listeners, who are in no order.
pub mod Views
pub mod Refines
mod Examples
use arnovich_core.Base.{
  ℕ, zero, suc, ◌-◌, Option, none, some, List, [], ◌∷◌, ◌++◌, map, ◌==◌, if◌then◌else◌, ℤ, pos,
  eqb_ℤ, length, get_elem?, set, Outcome, done, ◌>>=◌, All, ◌<◌,
}
use arnovich_core.Base.CString.{cstring, IsText}
use arnovich_core.Srv.Types.{
  SrvError, success, unknown_ticker, no_tickdata, Timeval, Tick, Ticker, Tickers, srv_ticker_len,
}
use arnovich_core.Srv.Data.{
  srv_add_ticker, srv_push_tick, srv_pull_tick, srv_tick_subscribe, srv_tick_unsubscribe, Pulled,
}

-- `listeners` says how often a connection listens.
pub record Topic : Type 0 where
  pub title : List ℕ
  pub history : List (Timeval × List ℕ)
  pub listeners : ℤ → ℕ

abbrev pub Board : Type 0
Board = List Topic

pub data Operation : Type 0 where
  add : (name : List ℕ) → Operation
  push : Timeval → (id : ℕ) → (tickdata : List ℕ) → Operation
  pull : (id : ℕ) → Operation
  subscribe : (id : ℕ) (connection : ℤ) → Operation
  unsubscribe : (id : ℕ) (connection : ℤ) → Operation

pub data Reply : Type 0 where
  code : SrvError → Reply
  numbered : SrvError → ℕ → Reply
  newest : SrvError → Option (Timeval × List ℕ) → Reply

-- An operation on the topic with an id, if there is one.
unfoldable pub on_topic : Board → ℕ → Reply × Board → (Topic → Reply × Board) → Reply × Board
on_topic b id missing f = elim (get_elem? b id) [ none ↦ missing | some t ↦ f t ]

abbrev pub newest_of : List (Timeval × List ℕ) → Reply
newest_of [] = newest no_tickdata none
newest_of (entry ∷ _) = newest success (some entry)

abbrev pub more : ℤ → (ℤ → ℕ) → ℤ → ℕ
more c listeners x = if eqb_ℤ x c then suc (listeners x) else listeners x

abbrev pub fewer : ℤ → (ℤ → ℕ) → ℤ → ℕ
fewer c listeners x = if eqb_ℤ x c then listeners x - 1 else listeners x

-- The promise.
abbrev pub promised : Operation → Board → Reply × Board
promised (add name) b = (
  numbered success (length b),
  b ++ record { title = name; history = []; listeners = λ _. 0 } ∷ [],
)
promised (push now id tickdata) b =
    on_topic b id (code unknown_ticker, b)
      (λ t. (code success, set b id (record t { history = (now, tickdata) ∷ t.history })))
promised (pull id) b = on_topic b id (newest unknown_ticker none, b) (λ t. (newest_of t.history, b))
promised (subscribe id c) b =
    on_topic b id (code unknown_ticker, b)
      (λ t. (code success, set b id (record t { listeners = more c t.listeners })))
promised (unsubscribe id c) b =
    on_topic b id (code unknown_ticker, b)
      (λ t. (code success, set b id (record t { listeners = fewer c t.listeners })))

abbrev pub promised_run : List Operation → Board → List Reply × Board
promised_run [] b = ([], b)
promised_run (op ∷ ops) b =
    let (reply, b') = promised op b in
    let (replies, b'') = promised_run ops b' in (reply ∷ replies, b'')

-- What the code does.
abbrev pub entry_of : Option Pulled → Option (Timeval × List ℕ)
entry_of none = none
entry_of (some p) = some (p.datetime, p.tickdata)

abbrev with_code : Outcome (SrvError × Tickers) → Outcome (Reply × Tickers)
with_code r = r >>= λ (err, ts'). done (code err, ts')

abbrev pub answered : Tickers → SrvError × Option Pulled → Outcome (Reply × Tickers)
answered ts (err, p) = done (newest err (entry_of p), ts)

unfoldable pub actual : Operation → Tickers → Outcome (Reply × Tickers)
actual (add name) ts =
    srv_add_ticker ts (cstring name) >>= λ (err, id, ts'). done (numbered err id, ts')
actual (push now id tickdata) ts =
    with_code (srv_push_tick now ts (pos id) tickdata (length tickdata))
actual (pull id) ts = srv_pull_tick ts (pos id) >>= answered ts
actual (subscribe id c) ts = with_code (srv_tick_subscribe ts (pos id) c)
actual (unsubscribe id c) ts = with_code (srv_tick_unsubscribe ts (pos id) c)

unfoldable pub actual_run : List Operation → Tickers → Outcome (List Reply × Tickers)
actual_run [] ts = done ([], ts)
actual_run (op ∷ ops) ts = do
  (reply, ts') ← actual op ts
  (replies, ts'') ← actual_run ops ts'
  done (reply ∷ replies, ts'')

-- A name that is added is a string of at most 19 bytes.
abbrev pub Fits : Operation → Type 0
Fits (add name) = IsText name × (length name < srv_ticker_len)
Fits (push _ _ _) = Unit
Fits (pull _) = Unit
Fits (subscribe _ _) = Unit
Fits (unsubscribe _ _) = Unit

abbrev pub text_of : List ℕ → List ℕ
text_of [] = []
text_of (c ∷ s) = if c == 0 then [] else c ∷ text_of s

abbrev pub times_in : List ℤ → ℤ → ℕ
times_in [] x = 0
times_in (c ∷ cs) x = if eqb_ℤ x c then suc (times_in cs x) else times_in cs x

abbrev pub entry : Tick → Timeval × List ℕ
entry t = (t.m_datetime, t.m_data)

abbrev pub topic : Ticker → Topic
topic t = record {
  title = text_of t.m_ticker;
  history = map entry t.m_ticks;
  listeners = times_in t.m_subscribers;
}

-- The board that a store stands for.
abbrev pub board : Tickers → Board
board ts = map topic ts.m_tickers

-- ===== src/Python/Handling.antt =====
-- Errors that src/lib/core_python/core_python_wrap.c gives to the error function: their names and
-- messages.
use arnovich_core.Base.{
  ℕ, ◌-◌, ◌<◌, ◌≡◌, refl, ap, ◌≢◌, Bool, true, false, ◌||◌, some, List, [], ◌∷◌, ◌++◌, arith, ◌==◌,
  ne→==, if◌then◌else◌, length, take, All, done,
}
use arnovich_core.Base.CString.{cstring, IsText}
use arnovich_core.Base.CString.Order.{strcpy-text}
use arnovich_core.Python.Wrap.{
  skip_delimiters, take_token, strtok_of, colon_or_space, colon, rtn_size, variant_error_type,
  variant_error_msg, after_spaces, handles,
}

-- A text with no delimiter in it.
abbrev pub Free : (ℕ → Bool) → List ℕ → Type 0
Free delimiter s = All (λ c. (c ≢ 0) × (delimiter c ≡ false)) s

take_token-delimiter :
    (delimiter : ℕ → Bool) (t : List ℕ) (d : ℕ) (rest : List ℕ)
    → Free delimiter t
    → d ≢ 0
    → delimiter d ≡ true
    → take_token delimiter (t ++ d ∷ rest) ≡ done (t, rest)
unfolding take_token
take_token-delimiter delimiter [] d rest free e h = rw (ne→== d 0 e, h)
take_token-delimiter delimiter (c ∷ t) d rest ((n, f), free) e h =
    rw (ne→== c 0 n, f, take_token-delimiter delimiter t d rest free e h)

take_token-end :
    (delimiter : ℕ → Bool) (t : List ℕ)
    → Free delimiter t
    → take_token delimiter (cstring t) ≡ done (t, 0 ∷ [])
unfolding take_token
take_token-end delimiter [] free = refl
take_token-end delimiter (c ∷ t) ((n, f), free) =
    rw (ne→== c 0 n, f, take_token-end delimiter t free)

take_none : (n : ℕ) (s : List ℕ) → take (n - n) s ≡ []
take_none n s = ap (λ k. take k s) (let e : n - n ≡ 0 = omega arith in e)

-- The first token of a string that starts with no delimiter.
strtok_of-delimiter :
    (delimiter : ℕ → Bool) (c : ℕ) (t : List ℕ) (d : ℕ) (rest : List ℕ)
    → Free delimiter (c ∷ t)
    → d ≢ 0
    → delimiter d ≡ true
    → strtok_of delimiter ((c ∷ t) ++ d ∷ rest) ≡ done (some (c ∷ t, rest, cstring (c ∷ t)))
unfolding strtok_of skip_delimiters
strtok_of-delimiter delimiter c t d rest free e h = rw (
  free.0.1,
  take_token-delimiter delimiter (c ∷ t) d rest free e h,
  take_none (length ((c ∷ t) ++ d ∷ rest)) ((c ∷ t) ++ d ∷ rest),
)

strtok_of-end :
    (delimiter : ℕ → Bool) (c : ℕ) (t : List ℕ)
    → Free delimiter (c ∷ t)
    → strtok_of delimiter (cstring (c ∷ t)) ≡ done (some (c ∷ t, 0 ∷ [], cstring (c ∷ t)))
unfolding strtok_of skip_delimiters
strtok_of-end delimiter c t free = rw (
  free.0.1,
  take_token-end delimiter (c ∷ t) free,
  take_none (length (cstring (c ∷ t))) (cstring (c ∷ t)),
)

or_left : (a b : Bool) → (a || b) ≡ false → a ≡ false
or_left true b h = h
or_left false b h = refl

Free-weaker : (s : List ℕ) → Free colon_or_space s → Free colon s
Free-weaker [] free = tt
Free-weaker (c ∷ s) ((n, f), free) = ((n, or_left (c == b':') (c == b' ') f), Free-weaker s free)

Free-IsText : (delimiter : ℕ → Bool) (s : List ℕ) → Free delimiter s → IsText s
Free-IsText delimiter [] free = tt
Free-IsText delimiter (c ∷ s) ((n, f), free) = (n, Free-IsText delimiter s free)

-- A message does not start with a space.
abbrev pub Starts : List ℕ → Type 0
Starts [] = Unit
Starts (c ∷ s) = c ≢ b' '

after_spaces-Starts : (s : List ℕ) → Starts s → after_spaces (cstring s) ≡ cstring s
after_spaces-Starts [] h = refl
after_spaces-Starts (c ∷ s) h = rw (ne→== c b' ' h)

type_of_name :
    (c : ℕ) (t : List ℕ)
    → Free colon_or_space (c ∷ t)
    → length (c ∷ t) < rtn_size
    → variant_error_type (cstring (c ∷ t)) ≡ done (cstring (c ∷ t), cstring (c ∷ t))
unfolding variant_error_type
type_of_name c t free short = rw (
  strtok_of-end colon_or_space c t free,
  strcpy-text rtn_size (c ∷ t) [] (Free-IsText colon_or_space (c ∷ t) free) short,
)

-- "name: msg"
abbrev pub written : (name msg : List ℕ) → List ℕ
written name msg = name ++ b':' ∷ b' ' ∷ cstring msg

type_of_written :
    (c : ℕ) (t msg : List ℕ)
    → Free colon_or_space (c ∷ t)
    → length (c ∷ t) < rtn_size
    → variant_error_type (written (c ∷ t) msg) ≡ done (cstring (c ∷ t), cstring (c ∷ t))
unfolding variant_error_type
type_of_written c t msg free short = rw (
  strtok_of-delimiter colon_or_space c t b':' (b' ' ∷ cstring msg) free (λ e. omega arith) refl,
  strcpy-text rtn_size (c ∷ t) [] (Free-IsText colon_or_space (c ∷ t) free) short,
)

msg_of_name :
    (c : ℕ) (t : List ℕ)
    → Free colon (c ∷ t)
    → variant_error_msg (cstring (c ∷ t)) ≡ done (0 ∷ [], cstring (c ∷ t))
unfolding variant_error_msg
msg_of_name c t free = rw (strtok_of-end colon c t free)

msg_of_written :
    (c : ℕ) (t msg : List ℕ)
    → Free colon (c ∷ t)
    → Free colon msg
    → Starts msg
    → length msg < rtn_size
    → variant_error_msg (written (c ∷ t) msg) ≡ done (cstring msg, cstring (c ∷ t))
unfolding variant_error_msg
msg_of_written c t msg free free_msg starts short =
    let rest : strtok_of colon (b' ' ∷ cstring msg)
        ≡ done (some (b' ' ∷ msg, 0 ∷ [], cstring (b' ' ∷ msg))) =
      strtok_of-end colon b' ' msg (((λ e. omega arith), refl), free_msg) in
    rw (
      strtok_of-delimiter colon c t b':' (b' ' ∷ cstring msg) free (λ e. omega arith) refl,
      rest,
      after_spaces-Starts msg starts,
      strcpy-text rtn_size msg [] (Free-IsText colon msg free_msg) short,
    )

-- Of an error "name: msg" with parts shorter than 50 bytes and no delimiters in them, where msg does not
-- start with a space, the error function gets the name, and the message only if it is looked for before
-- the name; else it gets an empty message. Either way the string is cut behind the name.
pub handles-written :
    (type_first : Bool) (err : List ℕ → List ℕ → Bool) (c : ℕ) (t msg : List ℕ)
    → Free colon_or_space (c ∷ t)
    → Free colon msg
    → Starts msg
    → length (c ∷ t) < rtn_size
    → length msg < rtn_size
    → handles type_first (some err) (written (c ∷ t) msg)
      ≡ done (err (cstring (c ∷ t)) (if type_first then 0 ∷ [] else cstring msg), cstring (c ∷ t))
unfolding handles
handles-written true err c t msg free free_msg starts short short_msg =
    rw (type_of_written c t msg free short, msg_of_name c t (Free-weaker (c ∷ t) free))
handles-written false err c t msg free free_msg starts short short_msg = rw (
  msg_of_written c t msg (Free-weaker (c ∷ t) free) free_msg starts short_msg,
  type_of_name c t free short,
)

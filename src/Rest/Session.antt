-- ===== src/Rest/Session.antt =====
-- restful_api_server.c: the tokens. A token is a text; the session map is a list of tokens with the time
-- of their last use, in seconds, each at its first place.
pub mod Expiry
use Prim.Native.String.{String}
use text.Mathlib.Text.{◌==◌ as str_eq}
use text.Mathlib.TextEquality.{eq_iff}
use k180_project.Base.{
  ℕ, zero, suc, ◌+◌, ◌≤◌, ◌<◌, ◌≡◌, refl, ◌⊎◌, inl, inr, Bool, true, false, List, [], ◌∷◌, Option,
  none, some, ltb, leb, if◌then◌else◌, arith,
}

abbrev pub Sessions : Type 0
Sessions = List (String × ℕ)

abbrev pub token_expiry_seconds : ℕ
token_expiry_seconds = 300

unfoldable pub find : Sessions → String → Option ℕ
find [] token = none
find ((t, last) ∷ s) token = if str_eq t token then some last else find s token

unfoldable pub touch : Sessions → String → ℕ → Sessions
touch [] token now = (token, now) ∷ []
touch ((t, last) ∷ s) token now =
    if str_eq t token then (t, now) ∷ s else (t, last) ∷ touch s token now

-- Answers whether the token is good, and marks it as used if so.
unfoldable pub is_token_valid : Sessions → String → ℕ → Sessions × Bool
is_token_valid s token now = elim (find s token) [
  | none ↦ (s, false)
  | some last ↦
      if leb now (last + token_expiry_seconds) then (touch s token now, true) else (s, false)
]

-- A round of `session_cleaner_thread`: the first `room` sessions that have expired are deleted.
unfoldable pub clean : ℕ → Sessions → ℕ → Sessions
clean room [] now = []
clean zero (x ∷ s) now = x ∷ s
clean (suc room) ((t, last) ∷ s) now =
    if ltb (last + token_expiry_seconds) now
    then clean room s now
    else (t, last) ∷ clean (suc room) s now

abbrev pub cleaner_room : ℕ
cleaner_room = 128

pub data Call : Type 0 where
  login uses : String → Call
  cleans : Call

-- The calls in the order in which they get the lock, each with its time.
unfoldable pub step : Sessions → ℕ → Call → Sessions
step s now (login token) = touch s token now
step s now (uses token) = (is_token_valid s token now).0
step s now cleans = clean cleaner_room s now

unfoldable pub run : Sessions → List (ℕ × Call) → Sessions
run s [] = s
run s ((now, c) ∷ cs) = run (step s now c) cs

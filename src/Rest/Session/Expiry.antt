-- ===== src/Rest/Session/Expiry.antt =====
-- restful_api_server.c: how long a token is good.
use Prim.Native.String.{String}
use text.Mathlib.Text.{◌==◌ as str_eq}
use text.Mathlib.TextEquality.{eq_iff}
use k180_project.Base.{
  ℕ, zero, suc, ◌+◌, ◌≤◌, ◌<◌, ◌≡◌, refl, sym, ◌⊎◌, inl, inr, Bool, true, false, List, [], ◌∷◌,
  Option, none, some, ltb, leb, if◌then◌else◌, arith, Bool-cases, Option-cases, subst, ltb→lt,
}
use k180_project.Rest.Session.{
  Sessions, token_expiry_seconds, find, touch, is_token_valid, clean, cleaner_room, Call, login,
  uses, cleans, step, run,
}

-- A token's last use, whatever else goes on: a login, or a use no later than the expiry after the last.
pub used : String → Option ℕ → ℕ → Call → Option ℕ
used token last now (login t) = if str_eq t token then some now else last
used token none now (uses t) = none
used token (some last) now (uses t) =
    if str_eq t token
    then if leb now (last + token_expiry_seconds) then some now else some last
    else some last
used token last now cleans = last

pub last_use : String → Option ℕ → List (ℕ × Call) → Option ℕ
last_use token last [] = last
last_use token last ((now, c) ∷ cs) = last_use token (used token last now c) cs

abbrev pub is_fresh : Option ℕ → ℕ → Bool
is_fresh none now = false
is_fresh (some last) now = leb now (last + token_expiry_seconds)

-- The clock does not go back, from `now` on.
abbrev pub IsOrdered : ℕ → List (ℕ × Call) → ℕ → Type 0
IsOrdered now [] then' = now ≤ then'
IsOrdered now ((t, c) ∷ cs) then' = (now ≤ t) × IsOrdered t cs then'

-- No token stands twice.
abbrev pub IsOnce : Sessions → Type 0
IsOnce [] = Unit {0}
IsOnce ((t, last) ∷ s) = (find s t ≡ none) × IsOnce s

-- What the map says of a token is its last use, or nothing if that has expired.
abbrev pub Agrees : ℕ → Option ℕ → Option ℕ → Type 0
Agrees now found none = found ≡ none
Agrees now found (some last) =
    (found ≡ some last) ⊎ (found ≡ none) × (last + token_expiry_seconds < now)

pub is_token_valid-nil :
    (s : Sessions) (t : String) (now : ℕ) → s ≡ [] → is_token_valid s t now ≡ (s, false)
unfolding is_token_valid find
is_token_valid-nil [] t now e = refl
is_token_valid-nil (x ∷ s) t now e = absurd (ground arith)

find-touch :
    (s : Sessions) (t u : String) (now : ℕ)
    → find (touch s t now) u ≡ (if str_eq t u then some now else find s u)
unfolding find touch
find-touch [] t u now = refl
find-touch ((i, last) ∷ s) t u now =
    ground (arith, eq_iff t u, eq_iff i t, eq_iff i u, find-touch s t u now)

touch-IsOnce : (s : Sessions) (t : String) (now : ℕ) → IsOnce s → IsOnce (touch s t now)
unfolding find touch
touch-IsOnce [] t now h = (refl, tt)
touch-IsOnce ((i, last) ∷ s) t now h =
    ground (arith, eq_iff i t, eq_iff t i, find-touch s t i now, touch-IsOnce s t now)

find-clean_none :
    (room : ℕ) (s : Sessions) (now : ℕ) (u : String)
    → find s u ≡ none
    → find (clean room s now) u ≡ none
unfolding find clean
find-clean_none room [] now u h = ground arith
find-clean_none zero (x ∷ s) now u h = h
find-clean_none (suc room) ((t, last) ∷ s) now u h =
    ground (arith, find-clean_none room s now u, find-clean_none (suc room) s now u)

clean-IsOnce : (room : ℕ) (s : Sessions) (now : ℕ) → IsOnce s → IsOnce (clean room s now)
unfolding clean
clean-IsOnce room [] now h = ground arith
clean-IsOnce zero (x ∷ s) now h = h
clean-IsOnce (suc room) ((t, last) ∷ s) now h =
    elim (Bool-cases (ltb (last + token_expiry_seconds) now)) [
      | inl e ↦ simp (e) (clean-IsOnce room s now h.1)
      | inr e ↦ simp (e) (find-clean_none (suc room) s now t h.0, clean-IsOnce (suc room) s now h.1)
    ]

-- A clean-up forgets a token only if it has expired.
find-clean :
    (room : ℕ) (s : Sessions) (now : ℕ) (u : String)
    → IsOnce s
    → (find (clean room s now) u ≡ find s u)
      ⊎ ((last : ℕ) × (find (clean room s now) u ≡ none)
          × (find s u ≡ some last)
          × (last + token_expiry_seconds < now))
unfolding find clean
find-clean room [] now u h = inl refl
find-clean zero (x ∷ s) now u h = inl refl
find-clean (suc room) ((t, last) ∷ s) now u h =
    elim (Bool-cases (ltb (last + token_expiry_seconds) now)) [
      | inl e ↦ elim (Bool-cases (str_eq t u)) [
        | inl same ↦
            let gone : find s u ≡ none = subst (λ k. find s k ≡ none) ((eq_iff t u).0 same) h.0 in
            simp (e, same) (inr (last, find-clean_none room s now u gone, refl, ltb→lt _ _ e))
        | inr other ↦ simp (e, other) (find-clean room s now u h.1)
      ]
      | inr e ↦ elim (Bool-cases (str_eq t u)) [
        | inl same ↦ simp (e, same) (inl refl)
        | inr other ↦ simp (e, other) (find-clean (suc room) s now u h.1)
      ]
    ]

-- The three ways of a look at a token.
abbrev Looks : Sessions → String → ℕ → Sessions × Bool → Type 0
Looks s t now r =
    (find s t ≡ none) × (r ≡ (s, false))
    ⊎ ((last : ℕ) × (find s t ≡ some last)
        × (leb now (last + token_expiry_seconds) ≡ true)
        × (r ≡ (touch s t now, true)))
    ⊎ ((last : ℕ) × (find s t ≡ some last)
        × (leb now (last + token_expiry_seconds) ≡ false)
        × (r ≡ (s, false)))

is_token_valid-Looks :
    (s : Sessions) (t : String) (now : ℕ) → Looks s t now (is_token_valid s t now)
unfolding is_token_valid
is_token_valid-Looks s t now = elim (Option-cases (find s t)) [
  | inl e ↦ inl (e, rw (e, is_token_valid) refl)
  | inr (last, e) ↦ elim (Bool-cases (leb now (last + token_expiry_seconds))) [
    | inl b ↦ inr (inl (last, e, b, rw (e, b, is_token_valid) refl))
    | inr b ↦ inr (inr (last, e, b, rw (e, b, is_token_valid) refl))
  ]
]

step-IsOnce : (s : Sessions) (now : ℕ) (c : Call) → IsOnce s → IsOnce (step s now c)
unfolding step
step-IsOnce s now (login t) h = touch-IsOnce s t now h
step-IsOnce s now (uses t) h = elim (is_token_valid-Looks s t now) [
  | inl r ↦ subst (λ x. IsOnce x.0) (sym r.1) h
  | inr (inl r) ↦ subst (λ x. IsOnce x.0) (sym r.3) (touch-IsOnce s t now h)
  | inr (inr r) ↦ subst (λ x. IsOnce x.0) (sym r.3) h
]
step-IsOnce s now cleans h = clean-IsOnce cleaner_room s now h

later-Agrees :
    (now now' : ℕ) (found sp : Option ℕ) → now ≤ now' → Agrees now found sp → Agrees now' found sp
later-Agrees now now' found none h a = a
later-Agrees now now' found (some l) h a = ground arith

login-Agrees :
    (now : ℕ) (s : Sessions) (t u : String) (sp : Option ℕ)
    → Agrees now (find s u) sp
    → Agrees now (find (touch s t now) u) (used u sp now (login t))
unfolding used
login-Agrees now s t u none a = ground (arith, find-touch s t u now)
login-Agrees now s t u (some l) a = ground (arith, find-touch s t u now)

kept-Agrees :
    (now : ℕ) (s : Sessions) (t u : String) (sp : Option ℕ)
    → (find s t ≡ none)
      ⊎ ((last : ℕ) × (find s t ≡ some last) × (leb now (last + token_expiry_seconds) ≡ false))
    → Agrees now (find s u) sp
    → Agrees now (find s u) (used u sp now (uses t))
unfolding used
kept-Agrees now s t u none h a = a
kept-Agrees now s t u (some l) h a = ground (arith, eq_iff t u, h)

touched-Agrees :
    (now last : ℕ) (s : Sessions) (t u : String) (sp : Option ℕ)
    → find s t ≡ some last
    → leb now (last + token_expiry_seconds) ≡ true
    → Agrees now (find s u) sp
    → Agrees now (find (touch s t now) u) (used u sp now (uses t))
unfolding used
touched-Agrees now last s t u none e b a = ground (arith, eq_iff t u, find-touch s t u now)
touched-Agrees now last s t u (some l) e b a = ground (arith, eq_iff t u, find-touch s t u now)

uses-Agrees :
    (now : ℕ) (s : Sessions) (t u : String) (sp : Option ℕ)
    → Agrees now (find s u) sp
    → Agrees now (find (is_token_valid s t now).0 u) (used u sp now (uses t))
unfolding used
uses-Agrees now s t u sp a = elim (is_token_valid-Looks s t now) [
  | inl r ↦
      subst (λ x. Agrees now (find x.0 u) (used u sp now (uses t))) (sym r.1)
        (kept-Agrees now s t u sp (inl r.0) a)
  | inr (inl r) ↦
      subst (λ x. Agrees now (find x.0 u) (used u sp now (uses t))) (sym r.3)
        (touched-Agrees now r.0 s t u sp r.1 r.2 a)
  | inr (inr r) ↦
      subst (λ x. Agrees now (find x.0 u) (used u sp now (uses t))) (sym r.3)
        (kept-Agrees now s t u sp (inr (r.0, r.1, r.2)) a)
]

cleans-Agrees :
    (now : ℕ) (s : Sessions) (u : String) (sp : Option ℕ)
    → IsOnce s
    → Agrees now (find s u) sp
    → Agrees now (find (clean cleaner_room s now) u) sp
cleans-Agrees now s u none o a = find-clean_none cleaner_room s now u a
cleans-Agrees now s u (some l) o a = ground (arith, find-clean cleaner_room s now u o)

step-Agrees :
    (now : ℕ) (s : Sessions) (c : Call) (u : String) (sp : Option ℕ)
    → IsOnce s
    → Agrees now (find s u) sp
    → Agrees now (find (step s now c) u) (used u sp now c)
unfolding step used
step-Agrees now s (login t) u sp o a = login-Agrees now s t u sp a
step-Agrees now s (uses t) u sp o a = uses-Agrees now s t u sp a
step-Agrees now s cleans u none o a = cleans-Agrees now s u none o a
step-Agrees now s cleans u (some l) o a = cleans-Agrees now s u (some l) o a

run-Agrees :
    (now then' : ℕ) (s : Sessions) (cs : List (ℕ × Call)) (u : String) (sp : Option ℕ)
    → IsOnce s
    → IsOrdered now cs then'
    → Agrees now (find s u) sp
    → Agrees then' (find (run s cs) u) (last_use u sp cs)
unfolding run last_use
run-Agrees now then' s [] u sp o h a = later-Agrees now then' (find s u) sp h a
run-Agrees now then' s ((t, c) ∷ cs) u sp o h a =
    run-Agrees t then' (step s t c) cs u (used u sp t c) (step-IsOnce s t c o) h.1
      (step-Agrees t s c u sp o (later-Agrees now t (find s u) sp h.0 a))

answer-fresh :
    (s : Sessions) (u : String) (now : ℕ) (sp : Option ℕ)
    → Agrees now (find s u) sp
    → (is_token_valid s u now).1 ≡ is_fresh sp now
unfolding is_token_valid
answer-fresh s u now none a = ground arith
answer-fresh s u now (some l) a = ground arith

-- Whatever logins, uses and rounds of the cleaner have come since the server started, on a clock that
-- does not go back, a token is good exactly if its last use is no more than 300 seconds ago: the last
-- login that gave it, or a later use that came in time. The cleaner makes no difference.
pub run-fresh :
    (cs : List (ℕ × Call)) (token : String) (now : ℕ)
    → IsOrdered 0 cs now
    → (is_token_valid (run [] cs) token now).1 ≡ is_fresh (last_use token none cs) now
unfolding find
run-fresh cs token now h =
    answer-fresh (run [] cs) token now (last_use token none cs)
      (run-Agrees 0 now [] cs token none tt h refl)

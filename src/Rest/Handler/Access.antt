-- ===== src/Rest/Handler/Access.antt =====
-- restful_api_server.c: what requests can do without a login, and which files they can remove.
use Prim.Native.String.{String}
use text.Mathlib.Text.{◌==◌ as str_eq}
use k180_project.Base.{
  ℕ, ◌≡◌, refl, sym, subst, ◌⊎◌, inl, inr, true, List, [], ◌∷◌, ◌++◌, Option, none, some, arith,
  Bool-cases, Floats,
}
use k180_project.Rest.Json.{as_object}
use k180_project.Rest.FileName.{is_valid_filename, IsSafeName, is_valid_filename-IsSafeName}
use k180_project.Rest.Handler.Routes.{other_routes-keeps, authorised-keeps, handler-keeps}
use k180_project.Rest.Handler.{
  Server, Request, Meets, Machine, login, credentials, messages, check_auth, handler, serve,
  other_routes, delete_rec_file, record_dir, ConfigCalls, run_command,
}

-- Each file stands in the directory of the recordings, under a name that leads nowhere else.
abbrev pub AllInside : List (List ℕ) → Type 0
AllInside [] = Unit {0}
AllInside (path ∷ paths) =
    ((name : List ℕ) × (path ≡ record_dir ++ name) × IsSafeName name) × AllInside paths

append-AllInside :
    (paths more : List (List ℕ)) → AllInside paths → AllInside more → AllInside (paths ++ more)
append-AllInside [] more h g = g
append-AllInside (p ∷ paths) more h g = (h.0, append-AllInside paths more h.1 g)

-- As before, or ended by undefined behaviour and as before else.
abbrev pub IsSame : Server → Server → Type 0
IsSame s s' = (s' ≡ s) ⊎ (s' ≡ record s { is_crashed = true })

module _ (fl : Floats) (mc : Machine fl) where
  -- The name and the password that the body gives, if any.
  unfoldable pub brought : Request → Option (Option String × Option String)
  unfolding as_object
  brought q = elim (mc.parse q.body) [
    | none ↦ none
    | some body ↦ elim (as_object (some body)) [ none ↦ none | some m ↦ credentials fl mc m ]
  ]

  -- The name and the hash of an entry are those that the name and the password give.
  abbrev pub IsEntry : Option String → Option String → Option String × Option String → Type 0
  IsEntry user pass (name, hash) =
      (u : String) × (p : String) × (h : String) × (user ≡ some u)
      × (pass ≡ some p)
      × (name ≡ some u)
      × (hash ≡ some h)
      × (mc.crypt p h ≡ some h)

  -- No entry of the user file is.
  abbrev pub NoEntry : Option String → Option String → List (Option String × Option String) → Type 0
  NoEntry user pass [] = Unit {0}
  NoEntry user pass (entry ∷ users) = ¬ (IsEntry user pass entry) × NoEntry user pass users

  abbrev pub IsUnknown :
      Option (Option String × Option String)
      → Option (List (Option String × Option String))
      → Type 0
  IsUnknown none users = Unit {0}
  IsUnknown (some (user, pass)) none = Unit {0}
  IsUnknown (some (user, pass)) (some users) = NoEntry user pass users

  abbrev pub AllUnknown : List (Request × Meets) → Type 0
  AllUnknown [] = Unit {0}
  AllUnknown ((q, w) ∷ qs) = IsUnknown (brought q) w.users × AllUnknown qs

  login-removed : (s : Server) (q : Request) (w : Meets) → (login fl mc s q w).0.removed ≡ s.removed
  unfolding login
  login-removed s q w = ground arith

  messages-removed :
      (s : Server) (q : Request) (k : ConfigCalls) → (messages fl mc s q k).0.removed ≡ s.removed
  unfolding messages
  messages-removed s q k = ground arith

  check_auth-removed :
      (s : Server) (q : Request) (w : Meets) → (check_auth fl mc s q w).0.removed ≡ s.removed
  unfolding check_auth
  check_auth-removed s q w = ground arith

  delete_rec_file-AllInside :
      (s : Server) (w : Meets) (name : List ℕ)
      → AllInside s.removed
      → AllInside (delete_rec_file fl mc s w name).0.removed
  unfolding delete_rec_file
  delete_rec_file-AllInside s w name h = elim (Bool-cases (is_valid_filename name)) [
    | inr b ↦ simp (b) h
    | inl b ↦ elim (Bool-cases w.remove_ok) [
      | inr c ↦ simp (b, c) h
      | inl c ↦
          simp (b, c)
            (append-AllInside s.removed ((record_dir ++ name) ∷ []) h
              ((name, refl, (is_valid_filename-IsSafeName name).0 b), tt))
    ]
  ]

  other_routes-AllInside :
      (s : Server) (q : Request) (w : Meets)
      → AllInside s.removed
      → AllInside (other_routes fl mc s q w).0.removed
  unfolding run_command
  other_routes-AllInside s q w h =
      other_routes-keeps fl mc (λ x. AllInside x.removed) s q w h (λ c. h)
        (λ name. delete_rec_file-AllInside s w name h)

  handler-AllInside :
      (s : Server) (q : Request) (w : Meets)
      → AllInside s.removed
      → AllInside (handler fl mc s q w).0.removed
  handler-AllInside s q w h =
      let checked = subst AllInside (sym (check_auth-removed s q w)) h in
      let s' = (check_auth fl mc s q w).0 in
      handler-keeps fl mc (λ x. AllInside x.removed) s q w h
        (subst AllInside (sym (login-removed s q w)) h) checked
        (authorised-keeps fl mc (λ x. AllInside x.removed) s' q w
          (subst AllInside (sym (messages-removed s' q w.config)) checked)
          (other_routes-AllInside s' q w checked))

  -- Whatever requests come, with a login or without: each file that is removed stands in the directory
  -- of the recordings itself, under a name that is safe. The name has the extension of a recording and no
  -- character that leads to another directory.
  pub serve-AllInside :
      (s : Server) (qs : List (Request × Meets))
      → AllInside s.removed
      → AllInside (serve fl mc s qs).removed
  unfolding serve
  serve-AllInside s [] h = h
  serve-AllInside s ((q, w) ∷ qs) h =
      serve-AllInside (handler fl mc s q w).0 qs (handler-AllInside s q w h)

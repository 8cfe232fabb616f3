-- ===== src/Rest/Handler/Locks.antt =====
-- restful_api_server.c: the lock on the settings file.
use text.Mathlib.Text.{◌==◌ as str_eq}
use k180_project.Base.{
  ℕ, ◌≡◌, refl, ap, ◌∙◌, inl, inr, true, false, List, [], ◌∷◌, some, arith, Bool-cases, Floats,
}
use k180_project.Rest.Json.{Json, Members, as_object}
use k180_project.Rest.Handler.Routes.{other_routes-keeps, authorised-keeps, handler-keeps}
use k180_project.Rest.Handler.{
  Server, Request, Meets, Machine, hangs, bad, messages, handler, serve, ConfigCalls, login,
  check_auth, authorised, delete_rec_file, run_command,
}

module _ (fl : Floats) (mc : Machine fl) where
  -- The settings file can be opened, locked and read.
  abbrev pub IsOpened : ConfigCalls → Type 0
  IsOpened k = (k.open_ok ≡ true) × (k.flock_ok ≡ true) × (k.fdopen_ok ≡ true) × (k.fread_ok ≡ true)

  serve-stuck :
      (s : Server) (qs : List (Request × Meets)) (q : Request) (w : Meets)
      → s.is_stuck ≡ true
      → (handler fl mc (serve fl mc s qs) q w).1 ≡ hangs
  unfolding serve handler
  serve-stuck s [] q w e = simp (e) refl
  serve-stuck s ((q', w') ∷ qs) q w e =
      let same : (handler fl mc s q' w').0 ≡ s = simp (e) refl in
      serve-stuck (handler fl mc s q' w').0 qs q w (ap (λ x. x.is_stuck) same ∙ e)

  messages-locks :
      (s : Server) (q : Request) (k : ConfigCalls) (config : Members fl.F) (query : Json fl.F)
      → s.config_locked ≡ false
      → IsOpened k
      → as_object (mc.parse s.config_file) ≡ some config
      → mc.parse q.body ≡ some query
      → str_eq q.method "GET" ≡ false
      → str_eq q.method "PUT" ≡ false
      → messages fl mc s q k ≡ (record s { config_locked = true }, bad fl mc 404)
  unfolding messages
  messages-locks s q k config query l (o, f, d, z) c b g p = simp (l, o, f, d, z, c, b, g, p) refl

  messages-hangs :
      (s : Server) (q : Request) (k : ConfigCalls)
      → s.config_locked ≡ true
      → k.open_ok ≡ true
      → messages fl mc s q k ≡ (record s { is_stuck = true }, hangs)
  unfolding messages
  messages-hangs s q k l o = simp (l, o) refl

  pub login-locked :
      (s : Server) (q : Request) (w : Meets) → (login fl mc s q w).0.config_locked ≡ s.config_locked
  unfolding login
  login-locked s q w = ground arith

  pub check_auth-locked :
      (s : Server) (q : Request) (w : Meets)
      → (check_auth fl mc s q w).0.config_locked ≡ s.config_locked
  unfolding check_auth
  check_auth-locked s q w = ground arith

  pub check_auth-config_file :
      (s : Server) (q : Request) (w : Meets)
      → (check_auth fl mc s q w).0.config_file ≡ s.config_file
  unfolding check_auth
  check_auth-config_file s q w = ground arith

  messages-locked :
      (s : Server) (q : Request) (k : ConfigCalls)
      → s.config_locked ≡ true
      → (messages fl mc s q k).0.config_locked ≡ true
  unfolding messages
  messages-locked s q k e = elim (Bool-cases k.open_ok) [
    | inl o ↦ simp (messages-hangs s q k e o) e
    | inr o ↦ simp (o) e
  ]

  pub delete_rec_file-locked :
      (s : Server) (w : Meets) (name : List ℕ)
      → (delete_rec_file fl mc s w name).0.config_locked ≡ s.config_locked
  unfolding delete_rec_file
  delete_rec_file-locked s w name = ground arith

  handler-locked :
      (s : Server) (q : Request) (w : Meets)
      → s.config_locked ≡ true
      → (handler fl mc s q w).0.config_locked ≡ true
  unfolding run_command
  handler-locked s q w e =
      let kept = check_auth-locked s q w ∙ e in
      let s' = (check_auth fl mc s q w).0 in
      handler-keeps fl mc (λ x. x.config_locked ≡ true) s q w e (login-locked s q w ∙ e) kept
        (authorised-keeps fl mc (λ x. x.config_locked ≡ true) s' q w
          (messages-locked s' q w.config kept)
          (other_routes-keeps fl mc (λ x. x.config_locked ≡ true) s' q w kept (λ c. kept)
            (λ name. delete_rec_file-locked s' w name ∙ kept)))

  serve-locked :
      (s : Server) (qs : List (Request × Meets))
      → s.config_locked ≡ true
      → (serve fl mc s qs).config_locked ≡ true
  unfolding serve
  serve-locked s [] e = e
  serve-locked s ((q, w) ∷ qs) e = serve-locked (handler fl mc s q w).0 qs (handler-locked s q w e)

  -- A settings request with a good token, to a server that serves.
  abbrev pub IsSettings : Server → Request → Meets → Type 0
  IsSettings s q w =
      (s.is_stuck ≡ false)
      × (s.is_crashed ≡ false)
      × (q.url ≡ "/api/messages")
      × ((check_auth fl mc s q w).1 ≡ true)

  pub handler-settings :
      (s : Server) (q : Request) (w : Meets)
      → IsSettings s q w
      → handler fl mc s q w ≡ messages fl mc (check_auth fl mc s q w).0 q w.config
  unfolding handler authorised
  handler-settings s q w (b, x, u, ok) =
      let other : str_eq q.url "/login" ≡ false = ap (λ x. str_eq x "/login") u in
      let here : str_eq q.url "/api/messages" ≡ true = ap (λ x. str_eq x "/api/messages") u in
      simp (b, x, other, ok, here) refl

  -- Once a settings request by a method that is neither GET nor PUT has found the file readable and its
  -- body in order, it is answered with 404 and the file stays locked, whatever requests follow. The next
  -- settings request with a good token that can open the file never returns, nor does any request after.
  pub serve-hangs :
      (s : Server) (q : Request) (w : Meets) (config : Members fl.F) (query : Json fl.F)
      (qs : List (Request × Meets)) (q' : Request) (w' : Meets) (more : List (Request × Meets))
      (last : Request) (at_last : Meets)
      → IsSettings s q w
      → s.config_locked ≡ false
      → IsOpened w.config
      → as_object (mc.parse s.config_file) ≡ some config
      → mc.parse q.body ≡ some query
      → str_eq q.method "GET" ≡ false
      → str_eq q.method "PUT" ≡ false
      → IsSettings (serve fl mc (handler fl mc s q w).0 qs) q' w'
      → w'.config.open_ok ≡ true
      → ((handler fl mc s q w).1 ≡ bad fl mc 404)
        × ((handler fl mc (serve fl mc (handler fl mc s q w).0 qs) q' w').1 ≡ hangs)
        × ((handler fl mc
              (serve fl mc (handler fl mc (serve fl mc (handler fl mc s q w).0 qs) q' w').0 more)
              last
              at_last).1
            ≡ hangs)
  serve-hangs s q w config query qs q' w' more last at_last i l o c b g p i' o' =
      let s1 = (check_auth fl mc s q w).0 in
      let first : handler fl mc s q w ≡ (record s1 { config_locked = true }, bad fl mc 404) =
        handler-settings s q w i
        ∙ messages-locks s1 q w.config config query (check_auth-locked s q w ∙ l) o
            (ap (λ x. as_object (mc.parse x)) (check_auth-config_file s q w) ∙ c) b g p in
      let s2 = serve fl mc (handler fl mc s q w).0 qs in
      let locked : s2.config_locked ≡ true =
        serve-locked (handler fl mc s q w).0 qs (ap (λ x. x.0.config_locked) first) in
      let s3 = (check_auth fl mc s2 q' w').0 in
      let second : handler fl mc s2 q' w' ≡ (record s3 { is_stuck = true }, hangs) =
        handler-settings s2 q' w' i'
        ∙ messages-hangs s3 q' w'.config (check_auth-locked s2 q' w' ∙ locked) o' in
      (
        ap (λ x. x.1) first,
        ap (λ x. x.1) second,
        serve-stuck (handler fl mc s2 q' w').0 more last at_last (ap (λ x. x.0.is_stuck) second),
      )

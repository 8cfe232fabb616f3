-- ===== src/Rest/Handler/Empties.antt =====
-- restful_api_server.c: what a PUT makes of the settings file.
use text.Mathlib.Text.{◌==◌ as str_eq}
use k180_project.Base.{
  ℕ, ◌<◌, ◌≡◌, refl, sym, ap, ◌∙◌, subst, inl, inr, Bool, true, false, not, ◌||◌, List, [], ◌∷◌,
  none, some, length, ◌==◌, arith, Bool-cases, Floats,
}
use k180_project.Rest.Json.{Json, Members, as_object}
use k180_project.Rest.Update.{put_config}
use k180_project.Rest.Handler.Routes.{other_routes-keeps, authorised-keeps, handler-keeps}
use k180_project.Rest.Handler.{
  r, Server, Request, Meets, Machine, bad, messages, put_settings, put_updated, write_settings,
  handler, serve, ConfigCalls, login, check_auth, delete_rec_file, run_command,
}
use k180_project.Rest.Handler.Locks.{
  IsOpened, login-locked, check_auth-locked, check_auth-config_file, delete_rec_file-locked,
  IsSettings, handler-settings,
}

module _ (fl : Floats) (mc : Machine fl) where
  messages-puts :
      (s : Server) (q : Request) (k : ConfigCalls) (config : Members fl.F) (query : Json fl.F)
      → s.config_locked ≡ false
      → IsOpened fl mc k
      → as_object (mc.parse s.config_file) ≡ some config
      → mc.parse q.body ≡ some query
      → str_eq q.method "GET" ≡ false
      → str_eq q.method "PUT" ≡ true
      → messages fl mc s q k ≡ put_settings fl mc s k config query
  unfolding messages
  messages-puts s q k config query l (o, f, d, z) c b g p = simp (l, o, f, d, z, c, b, g, p) refl

  check_auth-change :
      (s : Server) (q : Request) (w : Meets)
      → (check_auth fl mc s q w).0.sys_cfg_change ≡ s.sys_cfg_change
  unfolding check_auth
  check_auth-change s q w = ground arith

  login-config_file :
      (s : Server) (q : Request) (w : Meets) → (login fl mc s q w).0.config_file ≡ s.config_file
  unfolding login
  login-config_file s q w = ground arith

  delete_rec_file-config_file :
      (s : Server) (w : Meets) (name : List ℕ)
      → (delete_rec_file fl mc s w name).0.config_file ≡ s.config_file
  unfolding delete_rec_file
  delete_rec_file-config_file s w name = ground arith

  write_settings-empties :
      (s : Server) (k : ConfigCalls) (new_json : List ℕ)
      → mc.fwrite r new_json ≡ 0
      → 0 < length new_json
      → k.ftruncate_ok ≡ true
      → write_settings fl mc s k new_json ≡ (record s { config_file = [] }, bad fl mc 400)
  unfolding write_settings
  write_settings-empties s k new_json f n t =
      let short : 0 == length new_json ≡ false = ground arith in simp (t, f, short) refl

  put_settings-empties :
      (s : Server) (k : ConfigCalls) (config config' : Members fl.F) (q : Json fl.F) (flag : Bool)
      → put_config fl mc.outside q config s.sys_cfg_change ≡ (some config', flag)
      → mc.fwrite r (mc.print config') ≡ 0
      → 0 < length (mc.print config')
      → k.ftruncate_ok ≡ true
      → put_settings fl mc s k config q
        ≡ (record s { sys_cfg_change = flag; config_file = [] }, bad fl mc 400)
  unfolding put_settings put_updated
  put_settings-empties s k config config' q flag e f n t =
      ap (put_updated fl mc s k) e
      ∙ write_settings-empties (record s { sys_cfg_change = flag }) k (mc.print config') f n t

  -- The settings file is empty, and no one holds its lock.
  abbrev pub IsEmptied : Server → Type 0
  IsEmptied s = (s.config_file ≡ []) × (s.config_locked ≡ false)

  messages-emptied :
      (s : Server) (q : Request) (k : ConfigCalls)
      → mc.parse [] ≡ none
      → IsEmptied s
      → messages fl mc s q k ≡ (s, bad fl mc 400)
  unfolding messages
  messages-emptied s q k p (f, l) = elim (Bool-cases k.open_ok) [
    | inr o ↦ simp (o) refl
    | inl o ↦ elim (Bool-cases (not k.flock_ok || not k.fdopen_ok || not k.fread_ok)) [
      | inl b ↦ simp (o, l, b) refl
      | inr b ↦ simp (o, l, b, f, p) refl
    ]
  ]

  handler-IsEmptied :
      (s : Server) (q : Request) (w : Meets)
      → mc.parse [] ≡ none
      → IsEmptied s
      → IsEmptied (handler fl mc s q w).0
  unfolding run_command
  handler-IsEmptied s q w p (f, l) =
      let s' = (check_auth fl mc s q w).0 in
      let kept : IsEmptied s' =
        (check_auth-config_file fl mc s q w ∙ f, check_auth-locked fl mc s q w ∙ l) in
      handler-keeps fl mc IsEmptied s q w (f, l)
        (login-config_file s q w ∙ f, login-locked fl mc s q w ∙ l) kept
        (authorised-keeps fl mc IsEmptied s' q w
          (subst (λ x. IsEmptied x.0) (sym (messages-emptied s' q w.config p kept)) kept)
          (other_routes-keeps fl mc IsEmptied s' q w kept (λ c. kept)
            (λ name. (
              delete_rec_file-config_file s' w name ∙ kept.0,
              delete_rec_file-locked fl mc s' w name ∙ kept.1,
            ))))

  serve-IsEmptied :
      (s : Server) (qs : List (Request × Meets))
      → mc.parse [] ≡ none
      → IsEmptied s
      → IsEmptied (serve fl mc s qs)
  unfolding serve
  serve-IsEmptied s [] p e = e
  serve-IsEmptied s ((q, w) ∷ qs) p e =
      serve-IsEmptied (handler fl mc s q w).0 qs p (handler-IsEmptied s q w p e)

  -- Where a stream opened for reading writes nothing: a PUT whose settings all pass the checks is refused
  -- with 400 and leaves the settings file empty, and each settings request with a good token that the
  -- server takes from then on, a GET as well, is refused with 400 too, whatever requests came between.
  pub serve-empties :
      (s : Server) (q : Request) (w : Meets) (config config' : Members fl.F) (query : Json fl.F)
      (flag : Bool) (qs : List (Request × Meets)) (q' : Request) (w' : Meets)
      → mc.fwrite r (mc.print config') ≡ 0
      → 0 < length (mc.print config')
      → mc.parse [] ≡ none
      → IsSettings fl mc s q w
      → s.config_locked ≡ false
      → IsOpened fl mc w.config
      → w.config.ftruncate_ok ≡ true
      → as_object (mc.parse s.config_file) ≡ some config
      → mc.parse q.body ≡ some query
      → str_eq q.method "GET" ≡ false
      → str_eq q.method "PUT" ≡ true
      → put_config fl mc.outside query config s.sys_cfg_change ≡ (some config', flag)
      → IsSettings fl mc (serve fl mc (handler fl mc s q w).0 qs) q' w'
      → ((handler fl mc s q w).1 ≡ bad fl mc 400)
        × ((handler fl mc s q w).0.config_file ≡ [])
        × ((handler fl mc (serve fl mc (handler fl mc s q w).0 qs) q' w').1 ≡ bad fl mc 400)
  serve-empties s q w config config' query flag qs q' w' f n z i l o t c b g p e i' =
      let s1 = (check_auth fl mc s q w).0 in
      let s1' : Server = record s1 { sys_cfg_change = flag; config_file = [] } in
      let first : handler fl mc s q w ≡ (s1', bad fl mc 400) =
        handler-settings fl mc s q w i
        ∙ messages-puts s1 q w.config config query (check_auth-locked fl mc s q w ∙ l) o
            (ap (λ x. as_object (mc.parse x)) (check_auth-config_file fl mc s q w) ∙ c) b g p
        ∙ put_settings-empties s1 w.config config config' query flag
            (ap (put_config fl mc.outside query config) (check_auth-change s q w) ∙ e) f n t in
      let s2 = serve fl mc (handler fl mc s q w).0 qs in
      let s3 = (check_auth fl mc s2 q' w').0 in
      let emptied =
        serve-IsEmptied (handler fl mc s q w).0 qs z
          (subst (λ x. IsEmptied x.0) (sym first) (refl, check_auth-locked fl mc s q w ∙ l)) in
      (
        ap (λ x. x.1) first,
        ap (λ x. x.0.config_file) first,
        ap (λ x. x.1)
            (handler-settings fl mc s2 q' w' i'
              ∙ messages-emptied s3 q' w'.config z (
                check_auth-config_file fl mc s2 q' w' ∙ emptied.0,
                check_auth-locked fl mc s2 q' w' ∙ emptied.1,
              )),
      )

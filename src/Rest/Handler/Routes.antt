-- ===== src/Rest/Handler/Routes.antt =====
-- restful_api_server.c: what each route of `handler` leaves of a property of the server's state.
use text.Mathlib.Text.{◌==◌ as str_eq, starts_with}
use k180_project.Base.{
  ℕ, ◌≡◌, refl, sym, subst, inl, inr, Bool, true, false, if◌then◌else◌, ◌&&◌, List, Option, none,
  some, arith, Bool-cases, Option-cases, Floats,
}
use k180_project.Rest.Handler.{
  Server, Request, Meets, Machine, Reply, Command, reboot_system, login, messages, check_auth,
  authorised, handler, other_routes, delete_rec_file, restart_or_reboot, delete_or_other,
  run_command, with_rec_lock, send_file_list, download_rec_file,
}

module _ (fl : Floats) (mc : Machine fl) (P : Server → Type 0) where
  choose-keeps :
      (file : Option (List ℕ)) (x : Server × Reply fl.F) (y : List ℕ → Server × Reply fl.F)
      → P x.0
      → ((name : List ℕ) → P (y name).0)
      → P (elim file as (λ z. Server × Reply fl.F) [ none ↦ x | some name ↦ y name ]).0
  choose-keeps none x y h g = h
  choose-keeps (some name) x y h g = g name

  with_rec_lock-keeps :
      (s : Server) (w : Meets) (x : Server × Reply fl.F)
      → P s
      → P x.0
      → P (with_rec_lock fl mc s w x).0
  with_rec_lock-keeps s w x h g = elim (Bool-cases w.rec_lock_ok) [
    | inl b ↦ simp (b) g
    | inr b ↦ simp (b) h
  ]

  send_file_list-same : (s : Server) (w : Meets) → (send_file_list fl mc s w).0 ≡ s
  unfolding send_file_list
  send_file_list-same s w = elim (Option-cases w.listing) [
    | inl e ↦ rw (e) refl
    | inr (l, e) ↦ rw (e) refl
  ]

  download_rec_file-same :
      (s : Server) (w : Meets) (name : List ℕ) → (download_rec_file fl mc s w name).0 ≡ s
  unfolding download_rec_file
  download_rec_file-same s w name = ground arith

  reboot-keeps :
      (ok : Bool) (s : Server)
      → P s
      → P (run_command fl mc s reboot_system)
      → P (if ok then run_command fl mc s reboot_system else s)
  reboot-keeps true s h g = g
  reboot-keeps false s h g = h

  restart_or_reboot-keeps :
      (s : Server) (q : Request) (w : Meets)
      → P s
      → ((c : Command) → P (run_command fl mc s c))
      → P (restart_or_reboot fl mc s q w).0
  unfolding restart_or_reboot run_command
  restart_or_reboot-keeps s q w h g =
      elim (Bool-cases
        (str_eq q.method "PUT" && starts_with q.url "/api/RestartProgram_camera" && w.system_ok)) [
          | inl b ↦ simp (b) (g _)
          | inr b ↦
              elim (Bool-cases (str_eq q.method "PUT" && starts_with q.url "/api/RebootSystem")) [
                | inr c ↦ simp (b, c) h
                | inl c ↦ simp (b, c) (reboot-keeps w.system_ok s h (g reboot_system))
              ]
        ]

  delete_or_other-keeps :
      (s : Server) (q : Request) (w : Meets)
      → P s
      → ((c : Command) → P (run_command fl mc s c))
      → ((name : List ℕ) → P (delete_rec_file fl mc s w name).0)
      → P (delete_or_other fl mc s q w).0
  unfolding delete_or_other
  delete_or_other-keeps s q w h g d =
      elim (Bool-cases (str_eq q.method "DELETE" && starts_with q.url "/api/del_rec_file")) [
        | inr b ↦ simp (b) (restart_or_reboot-keeps s q w h g)
        | inl b ↦ simp (b) (
            choose-keeps q.file (restart_or_reboot fl mc s q w)
              (λ name. with_rec_lock fl mc s w (delete_rec_file fl mc s w name))
              (restart_or_reboot-keeps s q w h g)
              (λ name. with_rec_lock-keeps s w (delete_rec_file fl mc s w name) h (d name)))
      ]

  -- The routes behind the token other than that of the settings run commands and remove recordings.
  pub other_routes-keeps :
      (s : Server) (q : Request) (w : Meets)
      → P s
      → ((c : Command) → P (run_command fl mc s c))
      → ((name : List ℕ) → P (delete_rec_file fl mc s w name).0)
      → P (other_routes fl mc s q w).0
  unfolding other_routes
  other_routes-keeps s q w h g d =
      let rest = delete_or_other-keeps s q w h g d in
      elim (Bool-cases (str_eq q.method "GET" && starts_with q.url "/api/listfiles")) [
        | inl b ↦ simp (b) (
            with_rec_lock-keeps s w (send_file_list fl mc s w) h
              (subst P (sym (send_file_list-same s w)) h))
        | inr b ↦ elim (Bool-cases (str_eq q.method "GET" && starts_with q.url "/api/download")) [
          | inr c ↦ simp (b, c) rest
          | inl c ↦
              simp (b, c)
                (choose-keeps q.file (delete_or_other fl mc s q w)
                  (λ name. with_rec_lock fl mc s w (download_rec_file fl mc s w name)) rest
                  (λ name.
                    with_rec_lock-keeps s w (download_rec_file fl mc s w name) h
                      (subst P (sym (download_rec_file-same s w name)) h)))
        ]
      ]

  -- What a request leaves, by the functions that `handler` calls on it.
  pub handler-keeps :
      (s : Server) (q : Request) (w : Meets)
      → P s
      → P (login fl mc s q w).0
      → P (check_auth fl mc s q w).0
      → P (authorised fl mc (check_auth fl mc s q w).0 q w).0
      → P (handler fl mc s q w).0
  unfolding handler
  handler-keeps s q w h l c a = elim (Bool-cases s.is_stuck) [
    | inl b ↦ simp (b) h
    | inr b ↦ elim (Bool-cases s.is_crashed) [
      | inl x ↦ simp (b, x) h
      | inr x ↦ elim (Bool-cases (str_eq q.url "/login" && str_eq q.method "POST")) [
        | inl p ↦ simp (b, x, p) l
        | inr p ↦ elim (Bool-cases (check_auth fl mc s q w).1) [
          | inl ok ↦ simp (b, x, p, ok) a
          | inr ko ↦ simp (b, x, p, ko) c
        ]
      ]
    ]
  ]

  pub authorised-keeps :
      (s : Server) (q : Request) (w : Meets)
      → P (messages fl mc s q w.config).0
      → P (other_routes fl mc s q w).0
      → P (authorised fl mc s q w).0
  unfolding authorised
  authorised-keeps s q w m o = elim (Bool-cases (str_eq q.url "/api/messages")) [
    | inl b ↦ simp (b) m
    | inr b ↦ simp (b) o
  ]

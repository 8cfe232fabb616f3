-- ===== src/Tracker/Service/Tests.antt =====
-- Runs of the tracking service, and its theorems at concrete services. A detection is a number here.
use k180_project.Base.{ℕ, ◌≡◌, ◌<◌, refl, true, false, List, [], ◌∷◌, arith}
use k180_project.Tracker.Service.{
  Service, Call, stops, consumes, requests, starts, outputs, tracking, new, step, run,
  set_tracking_started,
}
use k180_project.Tracker.Service.Inv.{IsValid, Follows, run-new-IsValid, run-Follows}
use k180_project.Tracker.Service.Requests.{request_id_of, stale_start_refused}

-- A request is made, taken, started as track 4 at frame 20, and fed.
abbrev history : List (Call ℕ)
history = requests 8 10 ∷ consumes ∷ starts 1 4 8 20 ∷ outputs 4 9 21 ∷ []

abbrev tracked : Service ℕ
tracked = record {
  state = tracking;
  pending_start = false;
  pending_req = record { det = 8; frame_seq = 10; request_id = 1 };
  active_track_valid = true;
  active_track = record { track_id = 4; last_det = 9; last_frame_seq = 21; valid = true };
  next_request_id = 2;
}

run-history : run 0 (new 0) history ≡ tracked
unfolding run step new
run-history = refl

tracked-IsValid : IsValid tracked
tracked-IsValid = record { active = refl; valid = refl; pending = λ e. cc }

run-new-IsValid_example : IsValid (run 0 (new 0) history)
run-new-IsValid_example = run-new-IsValid 0 history

run-Follows_example :
    Follows tracked (run 0 tracked (outputs 4 3 22 ∷ requests 1 23 ∷ outputs 5 1 24 ∷ []))
run-Follows_example =
    run-Follows 0 tracked (outputs 4 3 22 ∷ requests 1 23 ∷ outputs 5 1 24 ∷ []) refl tt

-- A second request follows a stop, and is taken: the first id no longer starts a track.
stale_start_refused_example :
    let second =
      step {D = ℕ} 0 (run 0 (step 0 (new 0) (requests 8 10)) (stops ∷ [])) (requests 5 30) in
    let later = run 0 second (consumes ∷ []) in
    (set_tracking_started later 1 4 8 31 ≡ (later, false)) × (1 < 2)
unfolding request_id_of step run new
stale_start_refused_example =
    stale_start_refused 0 (new 0) 8 5 10 30 (stops ∷ []) (consumes ∷ []) 1 2 4 8 31 (omega arith)
      refl refl

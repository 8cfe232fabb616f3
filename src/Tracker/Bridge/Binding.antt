-- ===== src/Tracker/Bridge/Binding.antt =====
-- k180_nvtracker_bridge.cpp: the bridge and the service together, while no stop goes to the service
-- alone.
use k180_project.Base.{
  ℕ, ◌≡◌, true, false, List, [], ◌∷◌, some, arith, Floats, not, if◌then◌else◌, add64, Bool-cases,
  inl, inr,
}
use k180_project.Tracker.Service.{
  Service, State, idle, start_pending, tracking, is_idle, is_start_pending, is_tracking_state,
}
use k180_project.Tracker.Service
use k180_project.Tracker.Bridge.{
  Bridge, Sys, Det, Call, polls, ingests, checks, clicks, stops, resets, ingest_tracker_output,
  detection_matches_start_request, detection_matches, step, run, blank,
}

-- How the two states fit.
pub record InStep {D : Type 0} (b : Bridge D) (s : Service D) : Type 0 where
  pub bound : b.active_track_bound ≡ true → s.state ≡ tracking
  pub same_id : b.active_track_bound ≡ true → s.active_track.track_id ≡ b.active_track_id
  pub awaiting : b.waiting_start_bind ≡ true → s.state ≡ start_pending
  pub same_request :
      b.waiting_start_bind ≡ true → s.pending_req.request_id ≡ b.pending_start_req.request_id
  pub one_of : b.waiting_start_bind ≡ true → b.active_track_bound ≡ false
  pub owned : s.state ≡ tracking → b.active_track_bound ≡ true
  pub active : s.active_track_valid ≡ is_tracking_state s.state
  pub valid : s.active_track.valid ≡ is_tracking_state s.state
  pub pending : s.pending_start ≡ true → s.state ≡ start_pending
  pub taken : s.state ≡ start_pending → b.waiting_start_bind ≡ not s.pending_start

module _ (fl : Floats) where
  -- The calls that go through the bridge, and the user's clicks.
  abbrev pub ThroughBridge : List (Call (Det fl)) → Type 0
  ThroughBridge [] = Unit {0}
  ThroughBridge (stops ∷ cs) = ⊥
  ThroughBridge (resets ∷ cs) = ⊥
  ThroughBridge (polls ∷ cs) = ThroughBridge cs
  ThroughBridge (ingests t d f ∷ cs) = ThroughBridge cs
  ThroughBridge (checks now max ∷ cs) = ThroughBridge cs
  ThroughBridge (clicks d f ∷ cs) = ThroughBridge cs

  poll-InStep :
      (b : Bridge (Det fl)) (s : Service (Det fl))
      → InStep b s
      → InStep (step fl (b, s) polls).0 (step fl (b, s) polls).1
  unfolding step
  poll-InStep b s h = ground arith

  ingest-InStep :
      (b : Bridge (Det fl)) (s : Service (Det fl)) (t : ℕ) (d : Det fl) (f : ℕ)
      → InStep b s
      → InStep (step fl (b, s) (ingests t d f)).0 (step fl (b, s) (ingests t d f)).1
  unfolding step
  ingest-InStep b s t d f h = ground arith

  check-InStep :
      (b : Bridge (Det fl)) (s : Service (Det fl)) (now max : ℕ)
      → InStep b s
      → InStep (step fl (b, s) (checks now max)).0 (step fl (b, s) (checks now max)).1
  unfolding step
  check-InStep b s now max h = ground arith

  click-InStep :
      (b : Bridge (Det fl)) (s : Service (Det fl)) (d : Det fl) (f : ℕ)
      → InStep b s
      → InStep (step fl (b, s) (clicks d f)).0 (step fl (b, s) (clicks d f)).1
  unfolding step
  click-InStep b s d f h = ground arith

  -- Whatever the user clicks and the tracker puts out, the bridge and the service stay in step: the
  -- bridge is bound exactly to the track that the service holds, and waits exactly for the request
  -- that the service has handed out.
  pub run-InStep :
      (b : Bridge (Det fl)) (s : Service (Det fl)) (cs : List (Call (Det fl)))
      → ThroughBridge cs
      → InStep b s
      → InStep (run fl (b, s) cs).0 (run fl (b, s) cs).1
  unfolding run
  run-InStep b s [] t h = h
  run-InStep b s (polls ∷ cs) t h =
      run-InStep (step fl (b, s) polls).0 (step fl (b, s) polls).1 cs t (poll-InStep b s h)
  run-InStep b s (ingests i d f ∷ cs) t h =
      run-InStep (step fl (b, s) (ingests i d f)).0 (step fl (b, s) (ingests i d f)).1 cs t
        (ingest-InStep b s i d f h)
  run-InStep b s (checks now max ∷ cs) t h =
      run-InStep (step fl (b, s) (checks now max)).0 (step fl (b, s) (checks now max)).1 cs t
        (check-InStep b s now max h)
  run-InStep b s (clicks d f ∷ cs) t h =
      run-InStep (step fl (b, s) (clicks d f)).0 (step fl (b, s) (clicks d f)).1 cs t
        (click-InStep b s d f h)
  run-InStep b s (stops ∷ cs) t h = elim t [ ]
  run-InStep b s (resets ∷ cs) t h = elim t [ ]

  -- The pair after a click on an idle pair and a poll.
  armed : Bridge (Det fl) → Service (Det fl) → Det fl → ℕ → Sys fl
  armed b s clicked f =
      let req : Service.StartTrackRequest (Det fl) = record {
        det = clicked;
        frame_seq = f;
        request_id = s.next_request_id;
      } in
      (
        record {
          waiting_start_bind = true;
          pending_start_req = req;
          active_track_bound = false;
          active_track_id = 0;
        },
        record {
          state = start_pending;
          pending_start = false;
          pending_req = req;
          active_track_valid = false;
          active_track = Service.no_track (blank fl);
          next_request_id = add64 s.next_request_id 1;
        },
      )

  armed_lem :
      (b : Bridge (Det fl)) (s : Service (Det fl)) (clicked : Det fl) (f : ℕ)
      → InStep b s
      → s.state ≡ idle
      → run fl (b, s) (clicks clicked f ∷ polls ∷ []) ≡ armed b s clicked f
  unfolding run step armed
  armed_lem b s clicked f h e = ground arith

  -- From a click on an idle pair to a held track: after the click and a poll, outputs that do not match
  -- change nothing, and the first that does is tracked from then on.
  pub click_to_track :
      (b : Bridge (Det fl)) (s : Service (Det fl)) (clicked d : Det fl) (f t f' : ℕ)
      → InStep b s
      → s.state ≡ idle
      → let waiting = run fl (b, s) (clicks clicked f ∷ polls ∷ []) in
        let (after, taken) = ingest_tracker_output fl waiting t d f' in
        (taken ≡ detection_matches fl clicked d)
        × (if detection_matches fl clicked d
            then Service.get_active_track after.1
              ≡ some (record { track_id = t; last_det = d; last_frame_seq = f'; valid = true })
            else after ≡ waiting)
  unfolding armed ingest_tracker_output detection_matches_start_request Service.get_active_track
  click_to_track b s clicked d f t f' h e = elim (Bool-cases (detection_matches fl clicked d)) [
    | inl m ↦ rw (armed_lem b s clicked f h e, m) (ground arith, ground arith)
    | inr n ↦ rw (armed_lem b s clicked f h e, n) (ground arith, ground arith)
  ]

-- ===== src/Tracker/Bridge.antt =====
-- rtsp_server/src/k180_nvtracker_bridge.cpp and include/k180_nvtracker_bridge.h: the bridge that takes
-- a start request from the service, binds it to the first tracker output whose box is close, and then
-- feeds the service. The bridge's and the service's states are passed together.
pub mod Binding
pub mod Stranded
mod Tests
use k180_project.Base.{
  ℕ, Bool, true, false, ◌||◌, ◌==◌, not, List, [], ◌∷◌, Option, none, some, if◌then◌else◌, Floats,
}
use k180_project.Detection.{Detection, blank_detection}
use k180_project.Tracker.Service.{
  Service, StartTrackRequest, no_request, consume_pending_start, set_tracking_started,
  on_tracker_output, should_mark_lost, notify_tracking_lost, stop_tracking,
  request_start_from_detection,
}

pub record Bridge (D : Type 0) : Type 0 where
  pub waiting_start_bind : Bool
  pub pending_start_req : StartTrackRequest D
  pub active_track_bound : Bool
  pub active_track_id : ℕ

module _ (fl : Floats) where
  open fl use {F, lit, add, sub, mul, neg, lt, le}

  -- `(v >= 0.0f) ? v : -v`
  safe_abs : F → F
  safe_abs v = if le (lit 0 1) v then v else neg v

  -- `std::max(a, b)` is `a` unless `a < b`.
  max_f : F → F → F
  max_f a b = if lt a b then b else a

  pub detection_matches : Detection F → Detection F → Bool
  unfolding safe_abs max_f
  detection_matches ref det =
      let cx_diff = safe_abs (sub det.bbox0 ref.bbox0) in
      let cy_diff = safe_abs (sub det.bbox1 ref.bbox1) in
      let w_diff = safe_abs (sub det.bbox2 ref.bbox2) in
      let h_diff = safe_abs (sub det.bbox3 ref.bbox3) in
      let pos_tol_x = max_f (lit 8 1) (mul ref.bbox2 (lit 25 100)) in
      let pos_tol_y = max_f (lit 8 1) (mul ref.bbox3 (lit 25 100)) in
      let size_tol_w = max_f (lit 8 1) (mul ref.bbox2 (lit 30 100)) in
      let size_tol_h = max_f (lit 8 1) (mul ref.bbox3 (lit 30 100)) in
      if lt pos_tol_x cx_diff
      then false
      else if lt pos_tol_y cy_diff
      then false
      else if lt size_tol_w w_diff
      then false
      else if lt size_tol_h h_diff
      then false
      else true

  abbrev pub Det : Type 0
  Det = Detection F

  abbrev blank : Det
  blank = blank_detection fl

  pub detection_matches_start_request : Bridge Det → Det → Bool
  detection_matches_start_request b det = detection_matches b.pending_start_req.det det

  pub reset : Bridge Det → Bridge Det
  reset b = record {
    waiting_start_bind = false;
    pending_start_req = no_request blank;
    active_track_bound = false;
    active_track_id = 0;
  }

  pub init : Bridge Det → Bridge Det × Bool
  init b = (
    record {
      waiting_start_bind = false;
      pending_start_req = no_request blank;
      active_track_bound = false;
      active_track_id = 0;
    },
    true,
  )

  pub shutdown : Bridge Det → Bridge Det
  unfolding reset
  shutdown b = reset b

  -- The bridge and the service that it talks to.
  abbrev pub Sys : Type 0
  Sys = Bridge Det × Service Det

  poll_with : Bridge Det → Service Det × Option (StartTrackRequest Det) → Sys
  poll_with b (s, none) = (b, s)
  poll_with b (s, some req) = (
    record b {
      pending_start_req = req;
      waiting_start_bind = true;
      active_track_bound = false;
      active_track_id = 0;
    },
    s,
  )

  pub poll_start_request : Sys → Sys
  unfolding poll_with consume_pending_start
  poll_start_request (b, s) =
      if b.waiting_start_bind || b.active_track_bound
      then (b, s)
      else poll_with b (consume_pending_start s)

  bind_with : Bridge Det → ℕ → Service Det × Bool → Sys × Bool
  bind_with b track_id (s, false) = ((b, s), false)
  bind_with b track_id (s, true) = (
    (
      record b {
        active_track_id = track_id;
        active_track_bound = true;
        waiting_start_bind = false;
      },
      s,
    ),
    true,
  )

  pub ingest_tracker_output : Sys → ℕ → Det → ℕ → Sys × Bool
  unfolding bind_with set_tracking_started on_tracker_output
  ingest_tracker_output (b, s) track_id det frame_seq =
      if b.waiting_start_bind
      then (if not (detection_matches_start_request b det)
          then ((b, s), false)
          else bind_with b track_id
              (set_tracking_started s b.pending_start_req.request_id track_id det frame_seq))
      else if b.active_track_bound
      then (if track_id == b.active_track_id
          then (let (s', ok) = on_tracker_output s track_id det frame_seq in ((b, s'), ok))
          else ((b, s), false))
      else ((b, s), false)

  pub check_and_handle_lost : Sys → ℕ → ℕ → Sys × Bool
  unfolding should_mark_lost notify_tracking_lost
  check_and_handle_lost (b, s) now max_missing =
      if not b.active_track_bound
      then ((b, s), false)
      else if not (should_mark_lost s now max_missing)
      then ((b, s), false)
      else (
        (
          record b {
            waiting_start_bind = false;
            pending_start_req = no_request blank;
            active_track_bound = false;
            active_track_id = 0;
          },
          notify_tracking_lost blank s,
        ),
        true,
      )

-- The calls made to the pair: of the tracker's probe, of the user who clicks, and a stop that goes
-- to the service alone, as in k180_client_service.cpp.
pub data Call (D : Type 0) : Type 0 where
  polls : Call D
  ingests : ℕ → D → ℕ → Call D
  checks : ℕ → ℕ → Call D
  clicks : D → ℕ → Call D
  stops resets : Call D

module _ (fl : Floats) where
  pub step : Sys fl → Call (Det fl) → Sys fl
  unfolding poll_start_request ingest_tracker_output check_and_handle_lost stop_tracking
      request_start_from_detection reset
  step sys polls = poll_start_request fl sys
  step sys (ingests t d f) = (ingest_tracker_output fl sys t d f).0
  step sys (checks now max) = (check_and_handle_lost fl sys now max).0
  step (b, s) (clicks d f) = (b, (request_start_from_detection (blank fl) s d f).0)
  step (b, s) stops = (b, stop_tracking (blank fl) s)
  step (b, s) resets = (reset fl b, s)

  pub run : Sys fl → List (Call (Det fl)) → Sys fl
  run sys [] = sys
  run sys (c ∷ cs) = run (step sys c) cs

-- ===== src/Tracker/Service.antt =====
-- rtsp_server/src/k180_nvtracker.cpp and include/k180_nvtracker.h: the tracking service. Every method
-- runs under `mtx_`. A detection is any value; `blank` is the one that `Detection{}` makes.
pub mod Inv
pub mod Requests
mod Tests
use k180_project.Base.{
  ℕ, Bool, true, false, ◌&&◌, ◌-◌, Option, none, some, List, [], ◌∷◌, ltb, ◌==◌, if◌then◌else◌,
  add64,
}

pub data State : Type 0 where
  idle start_pending tracking : State

abbrev pub is_idle : State → Bool
is_idle idle = true
is_idle _ = false

abbrev pub is_start_pending : State → Bool
is_start_pending start_pending = true
is_start_pending _ = false

abbrev pub is_tracking_state : State → Bool
is_tracking_state tracking = true
is_tracking_state _ = false

pub record StartTrackRequest (D : Type 0) : Type 0 where
  pub det : D
  pub frame_seq : ℕ
  pub request_id : ℕ

pub record ActiveTrack (D : Type 0) : Type 0 where
  pub track_id : ℕ
  pub last_det : D
  pub last_frame_seq : ℕ
  pub valid : Bool

pub record Service (D : Type 0) : Type 0 where
  pub state : State
  pub pending_start : Bool
  pub pending_req : StartTrackRequest D
  pub active_track_valid : Bool
  pub active_track : ActiveTrack D
  pub next_request_id : ℕ

module _ {D : Type 0} (blank : D) where
  abbrev pub no_request : StartTrackRequest D
  no_request = record { det = blank; frame_seq = 0; request_id = 0 }

  abbrev pub no_track : ActiveTrack D
  no_track = record { track_id = 0; last_det = blank; last_frame_seq = 0; valid = false }

  -- A service as it is constructed.
  pub new : Service D
  new = record {
    state = idle;
    pending_start = false;
    pending_req = no_request;
    active_track_valid = false;
    active_track = no_track;
    next_request_id = 1;
  }

  pub clear_all_locked : Service D → Service D
  clear_all_locked s = record s {
    pending_start = false;
    pending_req = no_request;
    active_track_valid = false;
    active_track = no_track;
  }

  pub init : Service D → Service D × Bool
  unfolding clear_all_locked
  init s = (record (clear_all_locked s) { state = idle }, true)

  pub shutdown : Service D → Service D
  unfolding clear_all_locked
  shutdown s = record (clear_all_locked s) { state = idle }

  unfoldable pub request_start_from_detection : Service D → D → ℕ → Service D × Bool
  request_start_from_detection s det frame_seq =
      if is_idle s.state
      then (
        record s {
          pending_req = record { det = det; frame_seq = frame_seq; request_id = s.next_request_id };
          next_request_id = add64 s.next_request_id 1;
          pending_start = true;
          active_track_valid = false;
          active_track = no_track;
          state = start_pending;
        },
        true,
      )
      else (s, false)

  unfoldable pub stop_tracking : Service D → Service D
  unfolding clear_all_locked
  stop_tracking s = record (clear_all_locked s) { state = idle }

  unfoldable pub notify_tracking_lost : Service D → Service D
  unfolding stop_tracking
  notify_tracking_lost s = stop_tracking s

module _ {D : Type 0} where
  -- The request is handed out through `out_req`; `none` is the answer false.
  unfoldable pub consume_pending_start : Service D → Service D × Option (StartTrackRequest D)
  consume_pending_start s =
      if s.pending_start
      then (record s { pending_start = false }, some s.pending_req)
      else (s, none)

  unfoldable pub set_tracking_started : Service D → ℕ → ℕ → D → ℕ → Service D × Bool
  set_tracking_started s request_id track_id det frame_seq =
      if is_start_pending s.state
      then (if s.pending_req.request_id == request_id
          then (
            record s {
              active_track = record {
                track_id = track_id;
                last_det = det;
                last_frame_seq = frame_seq;
                valid = true;
              };
              active_track_valid = true;
              state = tracking;
            },
            true,
          )
          else (s, false))
      else (s, false)

  unfoldable pub on_tracker_output : Service D → ℕ → D → ℕ → Service D × Bool
  on_tracker_output s track_id det frame_seq =
      if is_tracking_state s.state
      then (if s.active_track_valid && s.active_track.valid
          then (if s.active_track.track_id == track_id
              then (if ltb frame_seq s.active_track.last_frame_seq then (s, false) else (
                record s {
                  active_track = record (s.active_track) {
                    last_det = det;
                    last_frame_seq = frame_seq;
                    valid = true;
                  };
                },
                true,
              ))
              else (s, false))
          else (s, false))
      else (s, false)

  pub is_tracking : Service D → Bool
  is_tracking s = is_tracking_state s.state

  pub has_pending_start : Service D → Bool
  has_pending_start s = is_start_pending s.state

  unfoldable pub get_active_track : Service D → Option (ActiveTrack D)
  get_active_track s =
      if s.active_track_valid && s.active_track.valid then some s.active_track else none

  -- The subtraction is made only where it does not wrap.
  unfoldable pub should_mark_lost : Service D → ℕ → ℕ → Bool
  should_mark_lost s current_frame_seq max_missing_frames =
      if is_tracking_state s.state
      then (if s.active_track_valid && s.active_track.valid
          then (if ltb current_frame_seq s.active_track.last_frame_seq
              then false
              else ltb max_missing_frames (current_frame_seq - s.active_track.last_frame_seq))
          else true)
      else false

-- The calls that change the service, in the order in which they get the mutex.
pub data Call (D : Type 0) : Type 0 where
  inits shuts stops loses consumes : Call D
  requests : D → ℕ → Call D
  starts : ℕ → ℕ → D → ℕ → Call D
  outputs : ℕ → D → ℕ → Call D

module _ {D : Type 0} (blank : D) where
  pub step : Service D → Call D → Service D
  unfolding init shutdown stop_tracking notify_tracking_lost consume_pending_start
      request_start_from_detection set_tracking_started on_tracker_output
  step s inits = (init blank s).0
  step s shuts = shutdown blank s
  step s stops = stop_tracking blank s
  step s loses = notify_tracking_lost blank s
  step s consumes = (consume_pending_start s).0
  step s (requests d f) = (request_start_from_detection blank s d f).0
  step s (starts r t d f) = (set_tracking_started s r t d f).0
  step s (outputs t d f) = (on_tracker_output s t d f).0

  pub run : Service D → List (Call D) → Service D
  run s [] = s
  run s (c ∷ cs) = run (step s c) cs

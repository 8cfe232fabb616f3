-- ===== src/Tracker/Service/Inv.antt =====
-- The states of the tracking service: what holds of the active track and of the pending request.
use k180_project.Base.{
  ℕ, ◌+◌, ◌≤◌, ◌≡◌, refl, true, false, ◌&&◌, List, [], ◌∷◌, none, some, arith, if◌then◌else◌, ltb,
  ◌==◌, leb,
}
use k180_project.Tracker.Service.{
  tracking, Service, is_idle, is_tracking_state, new, on_tracker_output, get_active_track,
  should_mark_lost, Call, inits, shuts, stops, loses, consumes, requests, starts, outputs, step,
  run, is_tracking,
}

-- A track is held exactly while the state is `tracking`; an idle service has no pending request.
pub record IsValid {D : Type 0} (s : Service D) : Type 0 where
  pub active : s.active_track_valid ≡ is_tracking_state s.state
  pub valid : s.active_track.valid ≡ is_tracking_state s.state
  pub pending : s.pending_start ≡ true → is_idle s.state ≡ false

module _ {D : Type 0} where
  -- The calls that do not end tracking.
  abbrev pub KeepsOn : List (Call D) → Type 0
  KeepsOn [] = Unit {0}
  KeepsOn (inits ∷ cs) = ⊥
  KeepsOn (shuts ∷ cs) = ⊥
  KeepsOn (stops ∷ cs) = ⊥
  KeepsOn (loses ∷ cs) = ⊥
  KeepsOn (consumes ∷ cs) = KeepsOn cs
  KeepsOn (requests d f ∷ cs) = KeepsOn cs
  KeepsOn (starts r t d f ∷ cs) = KeepsOn cs
  KeepsOn (outputs t d f ∷ cs) = KeepsOn cs

  -- What later calls leave of a track: its id, and a frame that is no older.
  pub record Follows (s t : Service D) : Type 0 where
    pub still : t.state ≡ tracking
    pub same_id : t.active_track.track_id ≡ s.active_track.track_id
    pub later : s.active_track.last_frame_seq ≤ t.active_track.last_frame_seq

module _ {D : Type 0} (blank : D) where
  new-IsValid : IsValid (new blank)
  unfolding new
  new-IsValid = record { active = refl; valid = refl; pending = λ e. cc }

  step-IsValid : (s : Service D) (c : Call D) → IsValid s → IsValid (step blank s c)
  unfolding step
  step-IsValid s inits v = ground arith
  step-IsValid s c v = ground arith

  run-IsValid : (s : Service D) (cs : List (Call D)) → IsValid s → IsValid (run blank s cs)
  unfolding run
  run-IsValid s [] v = v
  run-IsValid s (c ∷ cs) v = run-IsValid (step blank s c) cs (step-IsValid s c v)

  -- Whatever is called, and in whatever order, a track is held exactly while the service is tracking,
  -- and no start request is pending while it is idle.
  pub run-new-IsValid : (cs : List (Call D)) → IsValid (run blank (new blank) cs)
  run-new-IsValid cs = run-IsValid (new blank) cs new-IsValid

  step-Follows :
      (s : Service D) (c : Call D)
      → s.state ≡ tracking
      → KeepsOn (c ∷ [])
      → Follows s (step blank s c)
  unfolding step
  step-Follows s inits e k = elim k [ ]
  step-Follows s shuts e k = elim k [ ]
  step-Follows s stops e k = elim k [ ]
  step-Follows s loses e k = elim k [ ]
  step-Follows s consumes e k = ground arith
  step-Follows s (requests d f) e k = ground arith
  step-Follows s (starts r t d f) e k = ground arith
  step-Follows s (outputs t d f) e k = ground arith

  Follows-trans : (s t u : Service D) → Follows s t → Follows t u → Follows s u
  Follows-trans s t u h k = ground arith

  -- Once tracking, the service keeps the same track until it is stopped, and the frame of the track
  -- never goes back, whatever requests, starts and outputs come in.
  pub run-Follows :
      (s : Service D) (cs : List (Call D))
      → s.state ≡ tracking
      → KeepsOn cs
      → Follows s (run blank s cs)
  unfolding run
  run-Follows s [] e k = record { still = e; same_id = refl; later = omega arith }
  run-Follows s (c ∷ cs) e k =
      let (k1, k2) = split c cs k in
      let h = step-Follows s c e k1 in
      Follows-trans s (step blank s c) _ h (run-Follows (step blank s c) cs h.still k2)
    where
      split : (c : Call D) (cs : List (Call D)) → KeepsOn (c ∷ cs) → KeepsOn (c ∷ []) × KeepsOn cs
      split inits cs k = elim k [ ]
      split shuts cs k = elim k [ ]
      split stops cs k = elim k [ ]
      split loses cs k = elim k [ ]
      split consumes cs k = (tt, k)
      split (requests d f) cs k = (tt, k)
      split (starts r t d f) cs k = (tt, k)
      split (outputs t d f) cs k = (tt, k)

-- Of the answers of a valid service: the active track is handed out exactly while it is tracking, and
-- it is lost exactly when more than `max` frames have passed since its last one.
pub get_active_track-should_mark_lost :
    {D : Type 0} (s : Service D) (now max : ℕ)
    → IsValid s
    → (get_active_track s ≡ (if is_tracking s then some s.active_track else none))
      × (should_mark_lost s now max
          ≡ (is_tracking s && ltb (s.active_track.last_frame_seq + max) now))
unfolding get_active_track should_mark_lost is_tracking
get_active_track-should_mark_lost s now max v = (ground arith, ground arith)

-- An output is taken exactly when the service is tracking, the output is of the active track, and its
-- frame is no older than the last; then it becomes the last one. Otherwise nothing changes.
pub on_tracker_output-taken :
    {D : Type 0} (s : Service D) (id : ℕ) (d : D) (f : ℕ)
    → IsValid s
    → let taken =
        is_tracking s && s.active_track.track_id == id && leb s.active_track.last_frame_seq f in
      on_tracker_output s id d f ≡ (
        if taken
        then (
          record s {
            active_track = record { track_id = id; last_det = d; last_frame_seq = f; valid = true };
          },
          true,
        )
        else (s, false))
unfolding on_tracker_output is_tracking
on_tracker_output-taken s id d f v = ground arith

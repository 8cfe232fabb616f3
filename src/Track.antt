-- ===== src/Track.antt =====
-- rtsp_server/src/k180_tracking.cpp: the table of followed objects. The map is a list in which each id
-- stands once; the order of its entries makes no difference. One thread updates the table.
pub mod Steps
pub mod Ageing
pub mod Closest
pub mod Picks
pub mod Matches
mod Tests
use k180_project.Base.{
  ℕ, zero, suc, ◌+◌, Bool, true, false, not, List, [], ◌∷◌, Option, none, some, map, ltb, leb, ◌==◌,
  if◌then◌else◌, ℤ, eqb_ℤ, Floats,
}
use k180_project.Detection.{Detection, blank_detection}

abbrev pub max_lost : ℕ
max_lost = 5

module _ (fl : Floats) where
  open fl use {F, lit, add, sub, mul, div, lt, le}

  abbrev pub zero_f : F
  zero_f = lit 0 1

  -- Left, top, width and height.
  pub record Tlwh : Type 0 where
    pub left : F
    pub top : F
    pub width : F
    pub height : F

  -- What the table takes of a track of the tracker.
  pub record STrack : Type 0 where
    pub track_id : ℤ
    pub score : F
    pub tlwh : Tlwh

  pub record TrackerInfo : Type 0 where
    pub track_id : ℤ
    pub velocity0 : F
    pub velocity1 : F
    pub age : F
    pub checked : Bool
    pub lost_count : ℕ
    pub tlwh : Tlwh

  pub record StereoInfo : Type 0 where
    pub z : F
    pub h_angle : F
    pub v_angle : F

  pub record GpsInfo : Type 0 where
    pub lng : F
    pub lat : F

  pub record ObjectTrackData : Type 0 where
    pub det : Detection F
    pub tracker : TrackerInfo
    pub stereo : StereoInfo
    pub gps : GpsInfo

  abbrev pub Table : Type 0
  Table = List (ℤ × ObjectTrackData)

  -- `std::max` and `std::min`: the first of the two unless the second is greater, or less.
  abbrev pub max_f : F → F → F
  max_f a b = if lt a b then b else a

  abbrev pub min_f : F → F → F
  min_f a b = if lt b a then b else a

  pub iou : Tlwh → Tlwh → F
  iou a b =
      let ax2 = add a.left a.width in
      let ay2 = add a.top a.height in
      let bx2 = add b.left b.width in
      let by2 = add b.top b.height in
      let xx1 = max_f a.left b.left in
      let yy1 = max_f a.top b.top in
      let xx2 = min_f ax2 bx2 in
      let yy2 = min_f ay2 by2 in
      let inter = mul (max_f zero_f (sub xx2 xx1)) (max_f zero_f (sub yy2 yy1)) in
      let area_a = mul (sub ax2 a.left) (sub ay2 a.top) in
      let area_b = mul (sub bx2 b.left) (sub by2 b.top) in
      let uni = sub (add area_a area_b) inter in if lt zero_f uni then div inter uni else zero_f

  unfoldable pub iou_with : STrack → Detection F → F
  unfolding iou
  iou_with track det =
      iou track.tlwh
        (record { left = det.bbox0; top = det.bbox1; width = det.bbox2; height = det.bbox3 })

  unfoldable pub make_detection_from_track : STrack → Detection F
  make_detection_from_track track = record (blank_detection fl) {
    bbox0 = track.tlwh.left;
    bbox1 = track.tlwh.top;
    bbox2 = track.tlwh.width;
    bbox3 = track.tlwh.height;
    conf = track.score;
  }

  abbrev pub iou_threshold : F
  iou_threshold = lit 3 10

  -- `res` with `res_used`.
  abbrev pub Marks : Type 0
  Marks = List (Detection F × Bool)

  -- From index `i` on, the detection with the greatest overlap among those not used, if any overlaps more
  -- than the best so far.
  unfoldable pub closest :
      STrack → Marks → ℕ → Option (ℕ × Detection F) → F → Option (ℕ × Detection F) × F
  closest track [] i best best_iou = (best, best_iou)
  closest track ((det, used) ∷ res) i best best_iou =
      if used
      then closest track res (suc i) best best_iou
      else if lt best_iou (iou_with track det)
      then closest track res (suc i) (some (i, det)) (iou_with track det)
      else closest track res (suc i) best best_iou

  unfoldable pub mark_used : ℕ → Marks → Marks
  mark_used i [] = []
  mark_used zero ((det, used) ∷ res) = (det, true) ∷ res
  mark_used (suc i) (d ∷ res) = d ∷ mark_used i res

  -- The detection of a track, and its index if it is one of the detector's.
  unfoldable pub taken :
      STrack → Marks → Option (ℕ × Detection F) × F → (Option ℕ × Detection F) × Marks
  taken track res (none, best_iou) = ((none, make_detection_from_track track), res)
  taken track res (some (i, det), best_iou) =
      if le iou_threshold best_iou
      then ((some i, det), mark_used i res)
      else ((none, make_detection_from_track track), res)

  unfoldable pub take_match : STrack → Marks → (Option ℕ × Detection F) × Marks
  unfolding taken
  take_match track res = taken track res (closest track res 0 none zero_f)

  unfoldable pub find_track : Table → ℤ → Option ObjectTrackData
  find_track [] id = none
  find_track ((i, obj) ∷ t) id = if eqb_ℤ i id then some obj else find_track t id

  unfoldable pub put_track : Table → ℤ → ObjectTrackData → Table
  put_track [] id obj = (id, obj) ∷ []
  put_track ((i, old) ∷ t) id obj =
      if eqb_ℤ i id then (i, obj) ∷ t else (i, old) ∷ put_track t id obj

  abbrev pub existing_object : ObjectTrackData → STrack → ObjectTrackData
  existing_object obj track = record obj {
    tracker = record obj.tracker {
      tlwh = track.tlwh;
      age = add obj.tracker.age (lit 1 1);
      checked = true;
      lost_count = 0;
      velocity0 = sub track.tlwh.left obj.tracker.tlwh.left;
      velocity1 = sub track.tlwh.top obj.tracker.tlwh.top;
    };
  }

  abbrev pub new_object : STrack → ObjectTrackData
  new_object track = record {
    det = blank_detection fl;
    tracker = record {
      track_id = track.track_id;
      velocity0 = zero_f;
      velocity1 = zero_f;
      age = lit 1 1;
      checked = true;
      lost_count = 0;
      tlwh = track.tlwh;
    };
    stereo = record { z = zero_f; h_angle = zero_f; v_angle = zero_f };
    gps = record { lng = zero_f; lat = zero_f };
  }

  abbrev pub object_from : Option ObjectTrackData → STrack → ObjectTrackData
  object_from none track = new_object track
  object_from (some obj) track = existing_object obj track

  abbrev pub object_of : Table → STrack → ObjectTrackData
  object_of prev track = object_from (find_track prev track.track_id) track

  -- Step 1: the objects of this frame's tracks, from the table as it was.
  unfoldable pub build : Table → List STrack → Marks → Table → Table
  unfolding take_match
  build prev [] res updated = updated
  build prev (track ∷ tracks) res updated =
      let ((index, det), res') = take_match track res in
      build prev tracks res'
        (put_track updated track.track_id (record (object_of prev track) { det = det }))

  -- Step 3: all are unchecked, those of this frame are put, and the others age.
  unfoldable pub uncheck : Table → Table
  uncheck [] = []
  uncheck ((id, obj) ∷ t) =
      (id, record obj { tracker = record obj.tracker { checked = false } }) ∷ uncheck t

  unfoldable pub apply_updates : Table → Table → Table
  apply_updates t [] = t
  apply_updates t ((id, obj) ∷ updated) = apply_updates (put_track t id obj) updated

  unfoldable pub aged : Table → Table
  aged [] = []
  aged ((id, obj) ∷ t) =
      let rest = aged t in
      let lost = suc obj.tracker.lost_count in
      if obj.tracker.checked
      then (id, obj) ∷ rest
      else if ltb max_lost lost
      then rest
      else (id, record obj { tracker = record obj.tracker { lost_count = lost } }) ∷ rest

  unfoldable pub update_track_table : Table → List (Detection F) → List STrack → Table
  unfolding build uncheck apply_updates aged
  update_track_table t res output_tracks =
      aged (apply_updates (uncheck t) (build t output_tracks (map (λ det. (det, false)) res) []))

  unfoldable pub build_track_render_result : List STrack → List (Detection F)
  build_track_render_result output_tracks = map make_detection_from_track output_tracks

  -- Frames one after another.
  unfoldable pub run_frames : Table → List (List (Detection F) × List STrack) → Table
  run_frames t [] = t
  run_frames t ((res, tracks) ∷ fs) = run_frames (update_track_table t res tracks) fs

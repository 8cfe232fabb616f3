-- ===== src/Track/Tests.antt =====
-- Two boxes that lie apart, at which the theorems on the table of objects apply.
use k180_project.Base.{
  ℕ, ◌+◌, ◌-◌, ◌*◌, ◌/◌, ◌≡◌, refl, false, List, [], ◌∷◌, none, some, map, ltb, leb, pos, arith,
  Floats,
}
use k180_project.Detection.{Detection, blank_detection}
use k180_project.Track.{
  STrack, find_track, run_frames, build, iou_with, closest, mark_used, taken, take_match,
}
use k180_project.Track.Steps.{lost_of}
use k180_project.Track.Ageing.{recent, missed, run-lost}
use k180_project.Track.Closest.{IsIeee}
use k180_project.Track.Matches.{AllGiven, AllApart, given, build-AllGiven}

-- Constants and quotients are in tenths.
abbrev whole : Floats
whole = record {
  F = ℕ;
  lit = λ n d. 10 * n / d;
  add = λ a b. a + b;
  sub = λ a b. a - b;
  mul = λ a b. a * b;
  div = λ a b. 10 * a / b;
  neg = λ a. a;
  lt = ltb;
  le = leb;
}

whole-IsIeee : IsIeee whole
whole-IsIeee = record {
  irreflexive = λ a. ground arith;
  trans = λ a b c h h'. ground arith;
  number = λ a b h. ground arith;
  between = λ a v x n h h'. ground arith;
  below = λ t v x n h h'. ground arith;
  zero_number = refl;
  threshold = refl;
}

abbrev track_at : ℕ → ℕ → STrack whole
track_at id left = record {
  track_id = pos id;
  score = 1;
  tlwh = record { left = left; top = 0; width = 4; height = 4 };
}

abbrev det_at : ℕ → Detection ℕ
det_at left = record (blank_detection whole) { bbox0 = left; bbox2 = 4; bbox3 = 4 }

-- Two frames with both, and one with neither.
abbrev three_frames : List (List (Detection ℕ) × List (STrack whole))
three_frames =
    (det_at 0 ∷ det_at 10 ∷ [], track_at 7 0 ∷ track_at 8 10 ∷ [])
    ∷ ([], track_at 7 0 ∷ [])
    ∷ ([], [])
    ∷ []

lost_after : recent (missed whole (pos 8) none three_frames) ≡ some 2
lost_after = refl

-- The second box goes to the first track, and the first to the second.
crossed_given :
    given whole (track_at 7 10 ∷ track_at 8 0 ∷ []) ((det_at 0, false) ∷ (det_at 10, false) ∷ [])
    ≡ some 1 ∷ some 0 ∷ []
unfolding given take_match taken closest mark_used iou_with
crossed_given = refl

run-lost_example :
    lost_of whole (find_track whole (run_frames whole [] three_frames) (pos 8))
    ≡ recent (missed whole (pos 8) none three_frames)
run-lost_example = run-lost whole three_frames (pos 8)

build-AllGiven_example :
    AllGiven whole
      (det_at 0 ∷ det_at 10 ∷ [])
      (build whole []
        (track_at 7 10 ∷ track_at 8 0 ∷ [])
        (map (λ det. (det, false)) (det_at 0 ∷ det_at 10 ∷ []))
        [])
      []
      (track_at 7 10 ∷ track_at 8 0 ∷ [])
      (given whole
        (track_at 7 10 ∷ track_at 8 0 ∷ [])
        (map (λ det. (det, false)) (det_at 0 ∷ det_at 10 ∷ [])))
    × AllApart (
        given whole
          (track_at 7 10 ∷ track_at 8 0 ∷ [])
          (map (λ det. (det, false)) (det_at 0 ∷ det_at 10 ∷ [])))
build-AllGiven_example =
    build-AllGiven whole whole-IsIeee [] (track_at 7 10 ∷ track_at 8 0 ∷ [])
      (det_at 0 ∷ det_at 10 ∷ []) (refl, (refl, tt))

-- ===== src/Tracker/Bridge/Tests.antt =====
-- The theorems of the bridge at concrete states. The floats are integers scaled by 100 here.
use k180_project.Base.{
  ℕ, ◌*◌, ◌/◌, ◌≡◌, ◌≢◌, refl, true, false, List, [], ◌∷◌, some, Floats, ℤ, pos, ltb_ℤ, leb_ℤ, ◌+ℤ◌,
  neg_ℤ, pos_part,
}
use k180_project.Detection.{Detection}
use k180_project.Tracker.Service.{Service, tracking, idle, no_request, no_track}
use k180_project.Tracker.Service
use k180_project.Tracker.Bridge.{
  Bridge, Call, polls, ingests, checks, clicks, stops, run, blank, detection_matches,
  ingest_tracker_output,
}
use k180_project.Tracker.Bridge.Binding.{InStep, run-InStep, click_to_track}
use k180_project.Tracker.Bridge.Stranded.{run-stranded}

abbrev hundredths : Floats
hundredths = record {
  F = ℤ;
  lit = λ n d. pos (n * 100 / d);
  add = λ a b. a +ℤ b;
  sub = λ a b. a +ℤ neg_ℤ b;
  mul = λ a b. pos (pos_part a * pos_part b / 100);
  div = λ a b. pos (pos_part a * 100 / pos_part b);
  neg = λ a. neg_ℤ a;
  lt = λ a b. ltb_ℤ a b;
  le = λ a b. leb_ℤ a b;
}

abbrev box : ℕ → ℕ → Detection ℤ
box x y = record {
  bbox0 = pos (x * 100);
  bbox1 = pos (y * 100);
  bbox2 = pos 4000;
  bbox3 = pos 4000;
  conf = pos 90;
  class_id = pos 0;
  mask = [];
  keypoints = [];
}

abbrev bridge0 : Bridge (Detection ℤ)
bridge0 = record {
  waiting_start_bind = false;
  pending_start_req = no_request (blank hundredths);
  active_track_bound = false;
  active_track_id = 0;
}

abbrev service0 : Service (Detection ℤ)
service0 = record {
  state = idle;
  pending_start = false;
  pending_req = no_request (blank hundredths);
  active_track_valid = false;
  active_track = no_track (blank hundredths);
  next_request_id = 1;
}

in_step0 : InStep bridge0 service0
in_step0 = record {
  bound = λ e. cc;
  same_id = λ e. cc;
  awaiting = λ e. cc;
  same_request = λ e. cc;
  one_of = λ e. cc;
  owned = λ e. cc;
  active = refl;
  valid = refl;
  pending = λ e. cc;
  taken = λ e. cc;
}

abbrev history : List (Call (Detection ℤ))
history = clicks (box 100 50) 7 ∷ polls ∷ ingests 3 (box 300 50) 8 ∷ ingests 4 (box 105 50) 8 ∷ []

near_box : detection_matches hundredths (box 100 50) (box 105 50) ≡ true
unfolding detection_matches
near_box = refl

far_box : detection_matches hundredths (box 100 50) (box 300 50) ≡ false
unfolding detection_matches
far_box = refl

run-InStep_example : let sys = run hundredths (bridge0, service0) history in InStep sys.0 sys.1
run-InStep_example = run-InStep hundredths bridge0 service0 history tt in_step0

click_to_track_example :
    let waiting = run hundredths (bridge0, service0) (clicks (box 100 50) 7 ∷ polls ∷ []) in
    let (after, taken) = ingest_tracker_output hundredths waiting 4 (box 105 50) 8 in
    (taken ≡ true)
    × (Service.get_active_track after.1
        ≡ some (record { track_id = 4; last_det = box 105 50; last_frame_seq = 8; valid = true }))
unfolding detection_matches
click_to_track_example =
    click_to_track hundredths bridge0 service0 (box 100 50) (box 105 50) 7 4 8 in_step0 refl

abbrev bound0 : Bridge (Detection ℤ)
bound0 = record bridge0 { active_track_bound = true; active_track_id = 4 }

-- After the stop a new click is never served.
run-stranded_example :
    let sys =
      run hundredths
        (bound0, service0)
        (stops ∷ clicks (box 9 9) 20 ∷ polls ∷ ingests 5 (box 9 9) 21 ∷ checks 90 2 ∷ []) in
    (sys.0 ≡ bound0) × (sys.1.state ≢ tracking)
run-stranded_example =
    run-stranded hundredths bound0 service0
      (clicks (box 9 9) 20 ∷ polls ∷ ingests 5 (box 9 9) 21 ∷ checks 90 2 ∷ []) refl refl tt

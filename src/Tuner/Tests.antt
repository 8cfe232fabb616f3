-- ===== src/Tuner/Tests.antt =====
-- A tuner with its default settings, at which the theorems on it apply.
use k180_project.Base.{
  ◌≡◌, ◌≢◌, refl, ℕ, ◌*◌, ◌/◌, ◌≤◌, List, [], ◌∷◌, false, true, replicate, arith,
}
use k180_project.Tuner.{bs_ok, bs_too_b, bs_too_d, BrightTunerCfg, Maths, Tuner, st_init, run}
use k180_project.Tuner.Bounds.{IsTuned, run-IsTuned}
use k180_project.Tuner.Measure.{distance}
use k180_project.Tuner.Reach.{pictures, IsAtEnd, run-IsAtEnd}

abbrev maths : Maths
maths = record { int_log2 = λ n. 1; scaled = λ b n d. b * n / d }

abbrev cfg : BrightTunerCfg
cfg = record {
  max_gain_step = 90000;
  max_expo_step = 9000;
  adjust_cooldown_default = 1;
  stable_ok_required = 3;
}

-- Near its lower ends.
abbrev tuner : Tuner
tuner = record {
  ts_state = st_init;
  exposure = 102;
  gain = 10001;
  ok_streak = 0;
  cooldown = 1;
  pending = record { expo_dirty = false; expo_val = 0; gain_dirty = false; gain_val = 0 } ∷ [];
}

no_asks : (false ≡ true → (100 ≤ 0) × (0 ≤ 1000000)) × (false ≡ true → (10000 ≤ 0) × (0 ≤ 1280000))
no_asks = ground arith

tuner-IsTuned : IsTuned cfg tuner
tuner-IsTuned = record {
  used = refl;
  expo_low = omega arith;
  expo_high = omega arith;
  gain_low = omega arith;
  gain_high = omega arith;
  cools = omega arith;
  fit = (record { expo = no_asks.0; gain = no_asks.1 }, tt);
}

run-IsTuned_example :
    IsTuned cfg (run maths cfg tuner ((bs_too_d, 9) ∷ (bs_ok, 0) ∷ (bs_too_b, 2) ∷ []))
run-IsTuned_example =
    run-IsTuned maths cfg tuner ((bs_too_d, 9) ∷ (bs_ok, 0) ∷ (bs_too_b, 2) ∷ []) tuner-IsTuned

too_b-ne-ok : bs_too_b ≢ bs_ok
too_b-ne-ok h = cc

abbrev levels : List ℕ
levels = replicate 24 2

run-IsAtEnd_example : IsAtEnd bs_too_b (run maths cfg tuner (pictures bs_too_b levels))
unfolding distance
run-IsAtEnd_example =
    run-IsAtEnd maths cfg bs_too_b tuner levels too_b-ne-ok (omega arith) (omega arith)
      (omega arith) tuner-IsTuned (omega arith)

-- ===== src/Tuner/Moves.antt =====
-- k180_bright_tuner.cpp: how far one step of exposure or gain goes.
use k180_project.Base.{ℕ, ◌≤◌, ◌<◌, ◌≡◌, false, leb, if◌then◌else◌, arith}
use k180_project.Tuner.{
  BrightState, bs_ok, bs_too_b, bs_too_d, BrightTunerCfg, Maths, Tuner, clamp_step,
  get_gain_step_from_base, get_expo_step_from_base, is_ended, adjusted, near_end, expo_step,
  gain_step,
}

-- A step stays in every range that holds the value and the two ends it moves towards.
pub adjusted-low :
    (bs : BrightState) (v step lo hi a : ℕ) → a ≤ v → a ≤ lo → a ≤ adjusted bs v step lo hi
unfolding adjusted
adjusted-low bs_ok v step lo hi a h1 h2 = h1
adjusted-low bs_too_b v step lo hi a h1 h2 = ground arith
adjusted-low bs_too_d v step lo hi a h1 h2 = ground arith

pub adjusted-high :
    (bs : BrightState) (v step lo hi b : ℕ) → v ≤ b → hi ≤ b → adjusted bs v step lo hi ≤ b
unfolding adjusted
adjusted-high bs_ok v step lo hi b h1 h2 = h1
adjusted-high bs_too_b v step lo hi b h1 h2 = ground arith
adjusted-high bs_too_d v step lo hi b h1 h2 = ground arith

pub adjusted-down :
    (v step lo hi : ℕ)
    → is_ended bs_too_b v lo hi ≡ false
    → 0 < step
    → adjusted bs_too_b v step lo hi < v
unfolding adjusted
adjusted-down v step lo hi h1 h2 = ground arith

pub adjusted-up :
    (v step lo hi : ℕ)
    → is_ended bs_too_d v lo hi ≡ false
    → 0 < step
    → v < adjusted bs_too_d v step lo hi
unfolding adjusted
adjusted-up v step lo hi h1 h2 = ground arith

clamp_step-positive : (v max_v : ℕ) → 0 < max_v → 0 < clamp_step v max_v
unfolding clamp_step
clamp_step-positive v max_v h = ground arith

near_end-positive : (exposure step : ℕ) → 0 < step → 0 < near_end exposure step
near_end-positive exposure step h = ground arith

chosen-positive :
    (level step max_v : ℕ)
    → 0 < max_v
    → 0 < level
    → 0 < (if leb level 0 then 0 else clamp_step step max_v)
chosen-positive level step max_v h1 h2 =
    let clamped = clamp_step-positive step max_v h1 in ground arith

-- With an error of level 1 at least no step is empty.
pub expo_step-positive :
    (m : Maths) (c : BrightTunerCfg) (s : Tuner) (level : ℕ)
    → 0 < c.max_expo_step
    → 0 < level
    → 0 < near_end s.exposure (expo_step m c s level)
unfolding expo_step get_expo_step_from_base
expo_step-positive m c s level h1 h2 =
    near_end-positive s.exposure (expo_step m c s level)
      (chosen-positive level _ c.max_expo_step h1 h2)

pub gain_step-positive :
    (m : Maths) (c : BrightTunerCfg) (s : Tuner) (level : ℕ)
    → 0 < c.max_gain_step
    → 0 < level
    → 0 < gain_step m c s level
unfolding gain_step get_gain_step_from_base
gain_step-positive m c s level h1 h2 = chosen-positive level _ c.max_gain_step h1 h2

pub clamped_step-positive :
    (m : Maths) (c : BrightTunerCfg) (s : Tuner) (level : ℕ)
    → 0 < c.max_expo_step
    → 0 < near_end s.exposure (clamp_step (expo_step m c s level) c.max_expo_step)
clamped_step-positive m c s level h =
    near_end-positive s.exposure _ (clamp_step-positive (expo_step m c s level) c.max_expo_step h)

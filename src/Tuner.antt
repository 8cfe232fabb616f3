-- ===== src/Tuner.antt =====
-- rtsp_server/src/k180_bright_tuner.cpp and rtsp_server/include/k180_bright_tuner.h: exposure and gain
-- after the brightness of the picture. An `int` of the tuner is a natural number: exposure and gain start
-- so and stay so, and the configured numbers are taken to be so. What is only printed is left out.
pub mod Moves
pub mod Bounds
pub mod Measure
pub mod Reach
pub mod Pending
pub mod Probe
mod Tests
use k180_project.Base.{
  ℕ, zero, suc, ◌+◌, ◌-◌, ◌/◌, min, max, Bool, true, false, ◌&&◌, ◌||◌, List, [], ◌∷◌, ltb, leb,
  if◌then◌else◌, get_or,
}
use k180_project.Tuner.Pending.{PendingCtrl, request_exposure, request_gain}

pub data BrightState : Type 0 where
  bs_ok bs_too_b bs_too_d : BrightState

pub data TunningStates : Type 0 where
  st_init st_1 st_2 st_3 : TunningStates

-- The numbers of `cfggg.bright_tuner` that the tuning reads.
pub record BrightTunerCfg : Type 0 where
  pub max_gain_step : ℕ
  pub max_expo_step : ℕ
  pub adjust_cooldown_default : ℕ
  pub stable_ok_required : ℕ

-- `int_log2 x` is `int(log2(x))`, and `scaled b n d` is `int(b * m)` with `m` the float n / d.
pub record Maths : Type 0 where
  pub int_log2 : ℕ → ℕ
  pub scaled : ℕ → ℕ → ℕ → ℕ

pub record Tuner : Type 0 where
  pub ts_state : TunningStates
  pub exposure : ℕ
  pub gain : ℕ
  pub ok_streak : ℕ
  pub cooldown : ℕ
  pub pending : List PendingCtrl

abbrev pub cam_number : ℕ
cam_number = 4

abbrev pub min_step : ℕ
min_step = 20

abbrev pub expo_min : ℕ
expo_min = 100

abbrev pub expo_mid : ℕ
expo_mid = 5000

abbrev pub expo_max : ℕ
expo_max = 1000000

abbrev pub gain_min : ℕ
gain_min = 10000

abbrev pub gain_mid : ℕ
gain_mid = 29000

abbrev pub gain_max : ℕ
gain_max = 1280000

abbrev pub gain_tune_step : List ℕ
gain_tune_step = 1000 ∷ 5000 ∷ 10000 ∷ 15000 ∷ 20000 ∷ 25000 ∷ 30000 ∷ 35000 ∷ 40000 ∷ 45000 ∷ []

abbrev pub expo_tune_step : List ℕ
expo_tune_step = 100 ∷ 1000 ∷ 2000 ∷ 3000 ∷ 4000 ∷ 5000 ∷ 6000 ∷ 7000 ∷ 8000 ∷ 9000 ∷ []

pub clamp_step : ℕ → ℕ → ℕ
clamp_step v max_v = if ltb v min_step then min_step else if ltb max_v v then max_v else v

abbrev pub halved : ℕ → ℕ → ℕ
halved step error_level = if ltb error_level 3 then step / 2 else step

pub get_gain_step_from_base : Maths → BrightTunerCfg → ℕ → ℕ → ℕ
get_gain_step_from_base m c base_step error_level =
    let step =
      if leb 8 error_level
      then m.scaled base_step 35 10
      else if leb 6 error_level
      then m.scaled base_step 25 10
      else if leb 4 error_level
      then m.scaled base_step 18 10
      else if leb 2 error_level
      then m.scaled base_step 12 10
      else m.scaled base_step 10 10 in
    if leb error_level 0 then 0 else clamp_step (halved step error_level) c.max_gain_step

pub get_expo_step_from_base : Maths → BrightTunerCfg → ℕ → ℕ → ℕ
get_expo_step_from_base m c base_step error_level =
    let step =
      if leb 8 error_level
      then m.scaled base_step 30 10
      else if leb 6 error_level
      then m.scaled base_step 20 10
      else if leb 4 error_level
      then m.scaled base_step 16 10
      else if leb 2 error_level
      then m.scaled base_step 11 10
      else m.scaled base_step 10 10 in
    if leb error_level 0 then 0 else clamp_step (halved step error_level) c.max_expo_step

-- The index is 9 at most, so the tables are not read out of bounds.
pub base_level : Maths → ℕ → ℕ
base_level m gain = min 9 (max 0 (m.int_log2 (max 1 (gain / gain_min))))

-- There is nothing left to lower, or to raise.
abbrev pub is_ended : BrightState → ℕ → ℕ → ℕ → Bool
is_ended bs_ok v lo hi = false
is_ended bs_too_b v lo hi = leb v lo
is_ended bs_too_d v lo hi = leb hi v

-- One step towards `lo` or `hi`, and not past it.
pub adjusted : BrightState → ℕ → ℕ → ℕ → ℕ → ℕ
adjusted bs_ok v step lo hi = v
adjusted bs_too_b v step lo hi = if ltb lo v then if ltb (v - step) lo then lo else v - step else v
adjusted bs_too_d v step lo hi = if ltb v hi then if ltb hi (v + step) then hi else v + step else v

-- Small steps near the ends of the exposure.
abbrev pub near_end : ℕ → ℕ → ℕ
near_end exposure step =
    if leb exposure (expo_min + 500)
    then min step 50
    else if leb (expo_max - 500) exposure
    then min step 50
    else step

-- `request_exposure` or `request_gain` on the cameras from the one with index `i` on.
pub request_all :
    (List PendingCtrl → ℕ → ℕ → List PendingCtrl) → List PendingCtrl → ℕ → ℕ → ℕ → List PendingCtrl
request_all request p val i zero = p
request_all request p val i (suc n) = request_all request (request p i val) val (suc i) n

abbrev pub req_expo : ℕ → ℕ
req_expo exposure =
    if ltb (expo_mid - 2000) exposure && ltb exposure (expo_mid + 2000) then expo_mid else exposure

pub send_expo : BrightTunerCfg → Tuner → ℕ → Tuner
send_expo c s exposure = record s {
  exposure = exposure;
  pending = request_all request_exposure s.pending (req_expo exposure) 0 cam_number;
  cooldown = c.adjust_cooldown_default;
}

pub send_gain : BrightTunerCfg → Tuner → ℕ → Tuner
send_gain c s gain = record s {
  gain = gain;
  pending = request_all request_gain s.pending gain 0 cam_number;
  cooldown = c.adjust_cooldown_default;
}

pub expo_step : Maths → BrightTunerCfg → Tuner → ℕ → ℕ
expo_step m c s error_level =
    get_expo_step_from_base m c (get_or expo_tune_step (base_level m s.gain) 0) error_level

pub gain_step : Maths → BrightTunerCfg → Tuner → ℕ → ℕ
gain_step m c s error_level =
    get_gain_step_from_base m c (get_or gain_tune_step (base_level m s.gain) 0) error_level

pub in_init : Maths → BrightTunerCfg → BrightState → ℕ → Tuner → Tuner
in_init m c bs error_level s =
    if is_ended bs s.exposure expo_mid expo_mid
    then record s { ts_state = st_1 }
    else send_expo c s (
        adjusted bs s.exposure (near_end s.exposure (expo_step m c s error_level)) expo_mid
          expo_mid)

pub in_st_1 : Maths → BrightTunerCfg → BrightState → ℕ → Tuner → Tuner
in_st_1 m c bs error_level s =
    if is_ended bs s.gain gain_min gain_max
    then record s { ts_state = st_2 }
    else send_gain c s (adjusted bs s.gain (gain_step m c s error_level) gain_min gain_max)

abbrev pub is_too_b : BrightState → Bool
is_too_b bs_too_b = true
is_too_b bs_ok = false
is_too_b bs_too_d = false

-- Back to the gain: it is high, and the exposure would reach the middle.
abbrev pub is_back : BrightState → Tuner → ℕ → Bool
is_back bs s step =
    is_too_b bs
    && ltb (gain_min + gain_mid) s.gain
    && (leb s.exposure expo_mid || leb (s.exposure - step) expo_mid)

pub in_st_2 : Maths → BrightTunerCfg → BrightState → ℕ → Tuner → Tuner
in_st_2 m c bs error_level s =
    let step = near_end s.exposure (clamp_step (expo_step m c s error_level) c.max_expo_step) in
    if is_back bs s step
    then record s { ts_state = st_1 }
    else if is_ended bs s.exposure expo_min expo_max
    then record s { ts_state = st_init }
    else send_expo c s (adjusted bs s.exposure step expo_min expo_max)

pub in_state : Maths → BrightTunerCfg → BrightState → ℕ → TunningStates → Tuner → Tuner
in_state m c bs error_level st_init s = in_init m c bs error_level s
in_state m c bs error_level st_1 s = in_st_1 m c bs error_level s
in_state m c bs error_level st_2 s = in_st_2 m c bs error_level s
in_state m c bs error_level st_3 s = s

pub ok_seen : BrightTunerCfg → Tuner → Tuner
ok_seen c s =
    if leb c.stable_ok_required (s.ok_streak + 1)
    then record s { ts_state = st_init; ok_streak = 0 }
    else record s { ok_streak = s.ok_streak + 1 }

-- Both exposure and gain are at the end of their range.
abbrev pub is_limit : BrightState → Tuner → Bool
is_limit bs s = is_ended bs s.exposure expo_min expo_max && is_ended bs s.gain gain_min gain_max

pub adjust : Maths → BrightTunerCfg → BrightState → ℕ → Tuner → Tuner
adjust m c bs error_level s =
    let s0 : Tuner = record s { ok_streak = 0 } in
    if is_limit bs s
    then ok_seen c s
    else if ltb 0 s.cooldown
    then s0
    else in_state m c bs error_level s.ts_state s0

pub bright_tunning : Maths → BrightTunerCfg → BrightState → ℕ → Tuner → Tuner
bright_tunning m c bs_ok error_level s = ok_seen c s
bright_tunning m c bs_too_b error_level s = adjust m c bs_too_b error_level s
bright_tunning m c bs_too_d error_level s = adjust m c bs_too_d error_level s

-- What a round of `bright_adjust` does with a picture: the cooldown goes down by one first.
pub round : Maths → BrightTunerCfg → BrightState → ℕ → Tuner → Tuner
round m c bs error_level s =
    bright_tunning m c bs error_level (record s { cooldown = s.cooldown - 1 })

-- The pictures one after another: what each looks like, and its error level.
pub run : Maths → BrightTunerCfg → Tuner → List (BrightState × ℕ) → Tuner
run m c s [] = s
run m c s ((bs, error_level) ∷ ps) = run m c (round m c bs error_level s) ps

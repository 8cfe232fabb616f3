-- ===== src/Tuner/Measure.antt =====
-- k180_bright_tuner.cpp: each adjustment brings exposure and gain nearer to the ends of their ranges.
use k180_project.Base.{
  leb→gt, ◌≢◌, ℕ, ◌+◌, ◌-◌, ◌*◌, ◌≤◌, ◌<◌, ◌≡◌, refl, true, false, ◌&&◌, ltb, if◌then◌else◌, arith,
  if-both,
}
use k180_project.Tuner.{
  BrightState, bs_ok, bs_too_b, bs_too_d, TunningStates, st_init, st_1, st_2, st_3, BrightTunerCfg,
  Maths, Tuner, expo_min, expo_mid, expo_max, gain_min, gain_mid, gain_max, clamp_step, is_ended,
  adjusted, near_end, send_expo, send_gain, expo_step, is_too_b, in_init, in_st_1, is_back, in_st_2,
  in_state, is_limit,
}
use k180_project.Tuner.Moves.{
  adjusted-down, adjusted-up, expo_step-positive, gain_step-positive, clamped_step-positive,
}
use k180_project.Tuner.Bounds.{is_used}

-- How far exposure and gain are from the end.
unfoldable pub distance : BrightState → ℕ → ℕ → ℕ
distance bs_ok expo gain = 0
distance bs_too_b expo gain = expo - expo_min + (gain - gain_min)
distance bs_too_d expo gain = expo_max - expo + (gain_max - gain)

-- How many changes of state come before the next step, at most.
pub rank : BrightState → TunningStates → ℕ → ℕ → ℕ
rank bs st_init expo gain =
    if is_ended bs expo expo_mid expo_mid
    then if is_ended bs gain gain_min gain_max then 2 else 1
    else 0
rank bs st_1 expo gain = if is_ended bs gain gain_min gain_max then 1 else 0
rank bs st_2 expo gain =
    if is_too_b bs && ltb (gain_min + gain_mid) gain
    then 1
    else if is_ended bs expo expo_min expo_max
    then 2
    else 0
rank bs st_3 expo gain = 0

unfoldable pub measure : BrightState → Tuner → ℕ
measure bs s = 3 * distance bs s.exposure s.gain + rank bs s.ts_state s.exposure s.gain

pub rank-small : (bs : BrightState) (st : TunningStates) (expo gain : ℕ) → rank bs st expo gain ≤ 2
unfolding rank
rank-small bs st_init expo gain = ground arith
rank-small bs st_1 expo gain = ground arith
rank-small bs st_2 expo gain = ground arith
rank-small bs st_3 expo gain = omega arith

-- A shorter distance makes the measure smaller, whatever the state.
nearer-measure :
    (bs : BrightState) (s s' : Tuner)
    → distance bs s'.exposure s'.gain < distance bs s.exposure s.gain
    → measure bs s' < measure bs s
unfolding measure
nearer-measure bs s s' h = let small = rank-small bs s'.ts_state s'.exposure s'.gain in omega arith

expo-nearer :
    (c : BrightTunerCfg) (bs : BrightState) (s : Tuner) (step lo hi : ℕ)
    → is_ended bs s.exposure lo hi ≡ false
    → 0 < step
    → expo_min ≤ lo
    → hi ≤ expo_max
    → bs ≢ bs_ok
    → measure bs (send_expo c s (adjusted bs s.exposure step lo hi)) < measure bs s
unfolding send_expo distance
expo-nearer c bs_ok s step lo hi e p hl hh n = absurd (n refl)
expo-nearer c bs_too_b s step lo hi e p hl hh n =
    let down = adjusted-down s.exposure step lo hi e p in
    let above = leb→gt s.exposure lo e in nearer-measure bs_too_b s _ (omega arith)
expo-nearer c bs_too_d s step lo hi e p hl hh n =
    let up = adjusted-up s.exposure step lo hi e p in
    let below = leb→gt hi s.exposure e in nearer-measure bs_too_d s _ (omega arith)

gain-nearer :
    (c : BrightTunerCfg) (bs : BrightState) (s : Tuner) (step : ℕ)
    → is_ended bs s.gain gain_min gain_max ≡ false
    → 0 < step
    → bs ≢ bs_ok
    → measure bs (send_gain c s (adjusted bs s.gain step gain_min gain_max)) < measure bs s
unfolding send_gain distance
gain-nearer c bs_ok s step e p n = absurd (n refl)
gain-nearer c bs_too_b s step e p n =
    let down = adjusted-down s.gain step gain_min gain_max e p in
    let above = leb→gt s.gain gain_min e in nearer-measure bs_too_b s _ (omega arith)
gain-nearer c bs_too_d s step e p n =
    let up = adjusted-up s.gain step gain_min gain_max e p in
    let below = leb→gt gain_max s.gain e in nearer-measure bs_too_d s _ (omega arith)

-- Each change of state is towards a state that has less to wait for.
init-rank :
    (bs : BrightState) (expo gain : ℕ)
    → is_ended bs expo expo_mid expo_mid ≡ true
    → rank bs st_1 expo gain < rank bs st_init expo gain
unfolding rank
init-rank bs expo gain e = ground arith

st_1-rank :
    (bs : BrightState) (expo gain : ℕ)
    → is_ended bs gain gain_min gain_max ≡ true
    → (is_ended bs expo expo_min expo_max && is_ended bs gain gain_min gain_max) ≡ false
    → rank bs st_2 expo gain < rank bs st_1 expo gain
unfolding rank
st_1-rank bs_ok expo gain e l = absurd (ground arith)
st_1-rank bs_too_b expo gain e l = ground arith
st_1-rank bs_too_d expo gain e l = ground arith

back-rank :
    (bs : BrightState) (s : Tuner) (step : ℕ)
    → is_back bs s step ≡ true
    → rank bs st_1 s.exposure s.gain < rank bs st_2 s.exposure s.gain
unfolding rank
back-rank bs_ok s step e = absurd (ground arith)
back-rank bs_too_b s step e = ground arith
back-rank bs_too_d s step e = absurd (ground arith)

st_2-rank :
    (bs : BrightState) (s : Tuner) (step : ℕ)
    → is_back bs s step ≡ false
    → is_ended bs s.exposure expo_min expo_max ≡ true
    → is_limit bs s ≡ false
    → rank bs st_init s.exposure s.gain < rank bs st_2 s.exposure s.gain
unfolding rank
st_2-rank bs_ok s step b e l = absurd (ground arith)
st_2-rank bs_too_b s step b e l = ground arith
st_2-rank bs_too_d s step b e l = ground arith

-- The configuration lets every step move, and the picture is wrong by one level at least.
pub record CanMove (c : BrightTunerCfg) (bs : BrightState) (level : ℕ) : Type 0 where
  pub wrong : bs ≢ bs_ok
  pub visible : 0 < level
  pub expo_moves : 0 < c.max_expo_step
  pub gain_moves : 0 < c.max_gain_step

changes-measure :
    (bs : BrightState) (s s' : Tuner)
    → s'.exposure ≡ s.exposure
    → s'.gain ≡ s.gain
    → rank bs s'.ts_state s.exposure s.gain < rank bs s.ts_state s.exposure s.gain
    → measure bs s' < measure bs s
unfolding measure
changes-measure bs s s' e g h = rw (e, g) (omega arith)

in_init-measure :
    (m : Maths) (c : BrightTunerCfg) (bs : BrightState) (level : ℕ) (s : Tuner)
    → CanMove c bs level
    → s.ts_state ≡ st_init
    → measure bs (in_init m c bs level s) < measure bs s
unfolding in_init
in_init-measure m c bs level s v st =
    if-both (λ s'. measure bs s' < measure bs s) (is_ended bs s.exposure expo_mid expo_mid) _ _
      (λ e. changes-measure bs s _ refl refl (rw (st) (init-rank bs s.exposure s.gain e)))
      (λ e.
        expo-nearer c bs s _ expo_mid expo_mid e
          (expo_step-positive m c s level v.expo_moves v.visible) (omega arith) (omega arith)
          v.wrong)

in_st_1-measure :
    (m : Maths) (c : BrightTunerCfg) (bs : BrightState) (level : ℕ) (s : Tuner)
    → CanMove c bs level
    → s.ts_state ≡ st_1
    → is_limit bs s ≡ false
    → measure bs (in_st_1 m c bs level s) < measure bs s
unfolding in_st_1
in_st_1-measure m c bs level s v st l =
    if-both (λ s'. measure bs s' < measure bs s) (is_ended bs s.gain gain_min gain_max) _ _
      (λ e. changes-measure bs s _ refl refl (rw (st) (st_1-rank bs s.exposure s.gain e l)))
      (λ e. gain-nearer c bs s _ e (gain_step-positive m c s level v.gain_moves v.visible) v.wrong)

in_st_2-measure :
    (m : Maths) (c : BrightTunerCfg) (bs : BrightState) (level : ℕ) (s : Tuner)
    → CanMove c bs level
    → s.ts_state ≡ st_2
    → is_limit bs s ≡ false
    → measure bs (in_st_2 m c bs level s) < measure bs s
unfolding in_st_2
in_st_2-measure m c bs level s v st l =
    let step = near_end s.exposure (clamp_step (expo_step m c s level) c.max_expo_step) in
    if-both (λ s'. measure bs s' < measure bs s) (is_back bs s step) _ _
      (λ b. changes-measure bs s _ refl refl (rw (st) (back-rank bs s step b)))
      (λ b.
        if-both (λ s'. measure bs s' < measure bs s) (is_ended bs s.exposure expo_min expo_max) _ _
          (λ e. changes-measure bs s _ refl refl (rw (st) (st_2-rank bs s step b e l)))
          (λ e.
            expo-nearer c bs s step expo_min expo_max e
              (clamped_step-positive m c s level v.expo_moves) (omega arith) (omega arith) v.wrong))

pub in_state-measure :
    (m : Maths) (c : BrightTunerCfg) (bs : BrightState) (level : ℕ) (st : TunningStates) (s : Tuner)
    → CanMove c bs level
    → s.ts_state ≡ st
    → is_used st ≡ true
    → is_limit bs s ≡ false
    → measure bs (in_state m c bs level st s) < measure bs s
unfolding in_state
in_state-measure m c bs level st_init s v e u l = in_init-measure m c bs level s v e
in_state-measure m c bs level st_1 s v e u l = in_st_1-measure m c bs level s v e l
in_state-measure m c bs level st_2 s v e u l = in_st_2-measure m c bs level s v e l
in_state-measure m c bs level st_3 s v e u l = absurd (cc)

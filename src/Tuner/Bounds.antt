-- ===== src/Tuner/Bounds.antt =====
-- k180_bright_tuner.cpp: the ranges that exposure, gain and the requests keep.
use k180_project.Base.{
  if-both, ℕ, zero, suc, ◌+◌, ◌-◌, ◌≤◌, ◌≡◌, refl, Bool, true, false, List, [], ◌∷◌, ltb, leb,
  arith,
}
use k180_project.Tuner.{
  BrightState, bs_ok, bs_too_b, bs_too_d, TunningStates, st_init, st_1, st_2, st_3, BrightTunerCfg,
  Maths, Tuner, cam_number, expo_min, expo_mid, expo_max, gain_min, gain_max, clamp_step, is_ended,
  adjusted, near_end, request_all, req_expo, send_expo, send_gain, expo_step, gain_step, in_init,
  in_st_1, is_back, in_st_2, in_state, ok_seen, is_limit, adjust, bright_tunning, round, run,
}
use k180_project.Tuner.Pending.{PendingCtrl, update_at, request_exposure, request_gain}
use k180_project.Tuner.Moves.{adjusted-low, adjusted-high}

-- What a camera is asked for is in range.
pub record IsFit (p : PendingCtrl) : Type 0 where
  pub expo : p.expo_dirty ≡ true → (expo_min ≤ p.expo_val) × (p.expo_val ≤ expo_max)
  pub gain : p.gain_dirty ≡ true → (gain_min ≤ p.gain_val) × (p.gain_val ≤ gain_max)

abbrev pub AllFit : List PendingCtrl → Type 0
AllFit [] = Unit {0}
AllFit (p ∷ ps) = IsFit p × AllFit ps

abbrev pub is_used : TunningStates → Bool
is_used st_init = true
is_used st_1 = true
is_used st_2 = true
is_used st_3 = false

pub record IsTuned (c : BrightTunerCfg) (s : Tuner) : Type 0 where
  pub used : is_used s.ts_state ≡ true
  pub expo_low : expo_min ≤ s.exposure
  pub expo_high : s.exposure ≤ expo_max
  pub gain_low : gain_min ≤ s.gain
  pub gain_high : s.gain ≤ gain_max
  pub cools : s.cooldown ≤ c.adjust_cooldown_default
  pub fit : AllFit s.pending

update_at-AllFit :
    (ps : List PendingCtrl) (i : ℕ) (f : PendingCtrl → PendingCtrl)
    → ((p : PendingCtrl) → IsFit p → IsFit (f p))
    → AllFit ps
    → AllFit (update_at ps i f)
unfolding update_at
update_at-AllFit [] i f keep h = h
update_at-AllFit (p ∷ ps) zero f keep h = (keep p h.0, h.1)
update_at-AllFit (p ∷ ps) (suc i) f keep h = (h.0, update_at-AllFit ps i f keep h.1)

request_exposure-AllFit :
    (ps : List PendingCtrl) (i v : ℕ)
    → expo_min ≤ v
    → v ≤ expo_max
    → AllFit ps
    → AllFit (request_exposure ps i v)
unfolding request_exposure
request_exposure-AllFit ps i v low high h =
    update_at-AllFit ps i _ (λ p k. record { expo = λ d. (low, high); gain = k.gain }) h

request_gain-AllFit :
    (ps : List PendingCtrl) (i v : ℕ)
    → gain_min ≤ v
    → v ≤ gain_max
    → AllFit ps
    → AllFit (request_gain ps i v)
unfolding request_gain
request_gain-AllFit ps i v low high h =
    update_at-AllFit ps i _ (λ p k. record { expo = k.expo; gain = λ d. (low, high) }) h

request_all-AllFit :
    (request : List PendingCtrl → ℕ → ℕ → List PendingCtrl) (ps : List PendingCtrl) (v i n : ℕ)
    → ((qs : List PendingCtrl) (j : ℕ) → AllFit qs → AllFit (request qs j v))
    → AllFit ps
    → AllFit (request_all request ps v i n)
unfolding request_all
request_all-AllFit request ps v i zero keep h = h
request_all-AllFit request ps v i (suc n) keep h =
    request_all-AllFit request (request ps i v) v (suc i) n keep (keep ps i h)

send_expo-IsTuned :
    (c : BrightTunerCfg) (s : Tuner) (v : ℕ)
    → IsTuned c s
    → expo_min ≤ v
    → v ≤ expo_max
    → IsTuned c (send_expo c s v)
unfolding send_expo
send_expo-IsTuned c s v t low high = record {
  used = t.used;
  expo_low = low;
  expo_high = high;
  gain_low = t.gain_low;
  gain_high = t.gain_high;
  cools = omega arith;
  fit =
      request_all-AllFit request_exposure s.pending (req_expo v) 0 cam_number
        (λ qs j. request_exposure-AllFit qs j (req_expo v) (ground arith) (ground arith)) t.fit;
}

send_gain-IsTuned :
    (c : BrightTunerCfg) (s : Tuner) (v : ℕ)
    → IsTuned c s
    → gain_min ≤ v
    → v ≤ gain_max
    → IsTuned c (send_gain c s v)
unfolding send_gain
send_gain-IsTuned c s v t low high = record {
  used = t.used;
  expo_low = t.expo_low;
  expo_high = t.expo_high;
  gain_low = low;
  gain_high = high;
  cools = omega arith;
  fit =
      request_all-AllFit request_gain s.pending v 0 cam_number
        (λ qs j. request_gain-AllFit qs j v low high) t.fit;
}

-- The fields that the invariant reads, but for the state of the machine.
pub goes_to-IsTuned :
    (c : BrightTunerCfg) (s s' : Tuner)
    → is_used s'.ts_state ≡ true
    → s'.exposure ≡ s.exposure
    → s'.gain ≡ s.gain
    → s'.cooldown ≤ s.cooldown
    → s'.pending ≡ s.pending
    → IsTuned c s
    → IsTuned c s'
goes_to-IsTuned c s s' u e g l p t = record {
  used = u;
  expo_low = omega arith;
  expo_high = omega arith;
  gain_low = omega arith;
  gain_high = omega arith;
  cools = omega arith;
  fit = rw (p) t.fit;
}

in_init-IsTuned :
    (m : Maths) (c : BrightTunerCfg) (bs : BrightState) (level : ℕ) (s : Tuner)
    → IsTuned c s
    → IsTuned c (in_init m c bs level s)
unfolding in_init
in_init-IsTuned m c bs level s t =
    let v =
      adjusted bs s.exposure (near_end s.exposure (expo_step m c s level)) expo_mid expo_mid in
    if-both (IsTuned c) (is_ended bs s.exposure expo_mid expo_mid) _ _
      (λ e. goes_to-IsTuned c s _ refl refl refl (omega arith) refl t)
      (λ e.
        send_expo-IsTuned c s v t
          (adjusted-low bs s.exposure _ expo_mid expo_mid expo_min t.expo_low (omega arith))
          (adjusted-high bs s.exposure _ expo_mid expo_mid expo_max t.expo_high (omega arith)))

in_st_1-IsTuned :
    (m : Maths) (c : BrightTunerCfg) (bs : BrightState) (level : ℕ) (s : Tuner)
    → IsTuned c s
    → IsTuned c (in_st_1 m c bs level s)
unfolding in_st_1
in_st_1-IsTuned m c bs level s t =
    let v = adjusted bs s.gain (gain_step m c s level) gain_min gain_max in
    if-both (IsTuned c) (is_ended bs s.gain gain_min gain_max) _ _
      (λ e. goes_to-IsTuned c s _ refl refl refl (omega arith) refl t)
      (λ e.
        send_gain-IsTuned c s v t
          (adjusted-low bs s.gain _ gain_min gain_max gain_min t.gain_low (omega arith))
          (adjusted-high bs s.gain _ gain_min gain_max gain_max t.gain_high (omega arith)))

in_st_2-IsTuned :
    (m : Maths) (c : BrightTunerCfg) (bs : BrightState) (level : ℕ) (s : Tuner)
    → IsTuned c s
    → IsTuned c (in_st_2 m c bs level s)
unfolding in_st_2
in_st_2-IsTuned m c bs level s t =
    let step = near_end s.exposure (clamp_step (expo_step m c s level) c.max_expo_step) in
    let v = adjusted bs s.exposure step expo_min expo_max in
    if-both (IsTuned c) (is_back bs s step) _ _
      (λ e. goes_to-IsTuned c s _ refl refl refl (omega arith) refl t)
      (λ e.
        if-both (IsTuned c) (is_ended bs s.exposure expo_min expo_max) _ _
          (λ e2. goes_to-IsTuned c s _ refl refl refl (omega arith) refl t)
          (λ e2.
            send_expo-IsTuned c s v t
              (adjusted-low bs s.exposure step expo_min expo_max expo_min t.expo_low (omega arith))
              (adjusted-high bs s.exposure step expo_min expo_max expo_max t.expo_high
                (omega arith))))

pub in_state-IsTuned :
    (m : Maths) (c : BrightTunerCfg) (bs : BrightState) (level : ℕ) (st : TunningStates) (s : Tuner)
    → IsTuned c s
    → IsTuned c (in_state m c bs level st s)
unfolding in_state
in_state-IsTuned m c bs level st_init s t = in_init-IsTuned m c bs level s t
in_state-IsTuned m c bs level st_1 s t = in_st_1-IsTuned m c bs level s t
in_state-IsTuned m c bs level st_2 s t = in_st_2-IsTuned m c bs level s t
in_state-IsTuned m c bs level st_3 s t = t

pub ok_seen-IsTuned : (c : BrightTunerCfg) (s : Tuner) → IsTuned c s → IsTuned c (ok_seen c s)
unfolding ok_seen
ok_seen-IsTuned c s t =
    if-both (IsTuned c) (leb c.stable_ok_required (s.ok_streak + 1)) _ _
      (λ e. goes_to-IsTuned c s _ refl refl refl (omega arith) refl t)
      (λ e. goes_to-IsTuned c s _ t.used refl refl (omega arith) refl t)

adjust-IsTuned :
    (m : Maths) (c : BrightTunerCfg) (bs : BrightState) (level : ℕ) (s : Tuner)
    → IsTuned c s
    → IsTuned c (adjust m c bs level s)
unfolding adjust
adjust-IsTuned m c bs level s t =
    let s0 : Tuner = record s { ok_streak = 0 } in
    let t0 = goes_to-IsTuned c s s0 t.used refl refl (omega arith) refl t in
    if-both (IsTuned c) (is_limit bs s) _ _ (λ e. ok_seen-IsTuned c s t)
      (λ e.
        if-both (IsTuned c) (ltb 0 s.cooldown) _ _ (λ e2. t0)
          (λ e2. in_state-IsTuned m c bs level s.ts_state s0 t0))

bright_tunning-IsTuned :
    (m : Maths) (c : BrightTunerCfg) (bs : BrightState) (level : ℕ) (s : Tuner)
    → IsTuned c s
    → IsTuned c (bright_tunning m c bs level s)
unfolding bright_tunning
bright_tunning-IsTuned m c bs_ok level s t = ok_seen-IsTuned c s t
bright_tunning-IsTuned m c bs_too_b level s t = adjust-IsTuned m c bs_too_b level s t
bright_tunning-IsTuned m c bs_too_d level s t = adjust-IsTuned m c bs_too_d level s t

pub round-IsTuned :
    (m : Maths) (c : BrightTunerCfg) (bs : BrightState) (level : ℕ) (s : Tuner)
    → IsTuned c s
    → IsTuned c (round m c bs level s)
unfolding round
round-IsTuned m c bs level s t =
    let s1 : Tuner = record s { cooldown = s.cooldown - 1 } in
    bright_tunning-IsTuned m c bs level s1
      (goes_to-IsTuned c s s1 t.used refl refl (omega arith) refl t)

-- Whatever the pictures are like, however large the steps and whatever the rounding of the steps, a tuner
-- whose exposure and gain are within their ranges keeps them there, asks the cameras for nothing outside
-- of them, never waits longer than the configured cooldown, and never gets to the unused state.
pub run-IsTuned :
    (m : Maths) (c : BrightTunerCfg) (s : Tuner) (probes : List (BrightState × ℕ))
    → IsTuned c s
    → IsTuned c (run m c s probes)
unfolding run
run-IsTuned m c s [] t = t
run-IsTuned m c s ((bs, level) ∷ ps) t =
    run-IsTuned m c (round m c bs level s) ps (round-IsTuned m c bs level s t)

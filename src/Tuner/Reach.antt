-- ===== src/Tuner/Reach.antt =====
-- k180_bright_tuner.cpp: how a picture that stays too bright or too dark brings exposure and gain to the
-- ends of their ranges, and in how many rounds.
use k180_project.Base.{
  ◌≢◌, ◌⊎◌, ℕ, ◌+◌, ◌-◌, ◌*◌, ◌≤◌, ◌<◌, ◌≡◌, refl, true, List, [], ◌∷◌, ltb, leb, arith, inl, inr,
  if-both, length,
}
use k180_project.Tuner.{
  BrightState, bs_ok, bs_too_b, bs_too_d, BrightTunerCfg, Maths, Tuner, expo_min, expo_max,
  gain_min, gain_max, ok_seen, is_limit, adjust, bright_tunning, round, run,
}
use k180_project.Tuner.Bounds.{
  IsTuned, goes_to-IsTuned, in_state-IsTuned, round-IsTuned, run-IsTuned,
}
use k180_project.Tuner.Measure.{distance, measure, rank-small, CanMove, in_state-measure}

-- The same kind of picture again and again, with these error levels.
abbrev pub AllVisible : List ℕ → Type 0
AllVisible [] = Unit {0}
AllVisible (l ∷ ls) = (0 < l) × AllVisible ls

abbrev pub pictures : BrightState → List ℕ → List (BrightState × ℕ)
pictures bs [] = []
pictures bs (l ∷ ls) = (bs, l) ∷ pictures bs ls

-- Nothing is left to lower, or to raise.
abbrev pub IsAtEnd : BrightState → Tuner → Type 0
IsAtEnd bs_ok s = ⊥
IsAtEnd bs_too_b s = (s.exposure ≡ expo_min) × (s.gain ≡ gain_min)
IsAtEnd bs_too_d s = (s.exposure ≡ expo_max) × (s.gain ≡ gain_max)

limit-IsAtEnd :
    (c : BrightTunerCfg) (bs : BrightState) (s : Tuner)
    → IsTuned c s
    → is_limit bs s ≡ true
    → IsAtEnd bs s
limit-IsAtEnd c bs_ok s t h = absurd (ground arith)
limit-IsAtEnd c bs_too_b s t h = (ground arith, ground arith)
limit-IsAtEnd c bs_too_d s t h = (ground arith, ground arith)

-- How many rounds are left at most, the waiting included.
rounds : BrightTunerCfg → BrightState → Tuner → ℕ
rounds c bs s = measure bs s * (c.adjust_cooldown_default + 1) + s.cooldown

abbrev Nearer : BrightTunerCfg → BrightState → Tuner → Tuner → Type 0
Nearer c bs s s' = (is_limit bs s' ≡ true) ⊎ (rounds c bs s' < rounds c bs s)

ok_seen-limit :
    (c : BrightTunerCfg) (bs : BrightState) (s : Tuner)
    → is_limit bs s ≡ true
    → is_limit bs (ok_seen c s) ≡ true
unfolding ok_seen
ok_seen-limit c bs s h =
    if-both (λ s'. is_limit bs s' ≡ true) (leb c.stable_ok_required (s.ok_streak + 1)) _ _ (λ e. h)
      (λ e. h)

acts-rounds :
    (c : BrightTunerCfg) (bs : BrightState) (s s' : Tuner)
    → s'.cooldown ≤ c.adjust_cooldown_default
    → measure bs s' < measure bs s
    → rounds c bs s' < rounds c bs s
unfolding rounds
acts-rounds c bs s s' h k = grind arith

waits-rounds :
    (c : BrightTunerCfg) (bs : BrightState) (s : Tuner)
    → 0 < s.cooldown
    → rounds c bs (record s { cooldown = s.cooldown - 1; ok_streak = 0 }) < rounds c bs s
unfolding rounds measure
waits-rounds c bs s h = omega arith

-- The round of a picture that is not fine, before and after its waiting.
adjust-Nearer :
    (m : Maths) (c : BrightTunerCfg) (bs : BrightState) (level : ℕ) (s : Tuner)
    → CanMove c bs level
    → IsTuned c s
    → Nearer c bs s (adjust m c bs level (record s { cooldown = s.cooldown - 1 }))
unfolding adjust measure
adjust-Nearer m c bs level s v t =
    let s1 : Tuner = record s { cooldown = s.cooldown - 1 } in
    let s0 : Tuner = record s { cooldown = s.cooldown - 1; ok_streak = 0 } in
    let t0 = goes_to-IsTuned c s s0 t.used refl refl (omega arith) refl t in
    if-both (Nearer c bs s) (is_limit bs s1) _ _ (λ e. inl (ok_seen-limit c bs s1 e))
      (λ e.
        if-both (Nearer c bs s) (ltb 0 s1.cooldown) _ _
          (λ w. inr (waits-rounds c bs s (ground (arith, w))))
          (λ w. inr (
            acts-rounds c bs s _ (in_state-IsTuned m c bs level s.ts_state s0 t0).cools
              (in_state-measure m c bs level s.ts_state s0 v refl t.used e))))

round-Nearer :
    (m : Maths) (c : BrightTunerCfg) (bs : BrightState) (level : ℕ) (s : Tuner)
    → CanMove c bs level
    → IsTuned c s
    → Nearer c bs s (round m c bs level s)
unfolding round bright_tunning
round-Nearer m c bs_ok level s v t = absurd (v.wrong refl)
round-Nearer m c bs_too_b level s v t = adjust-Nearer m c bs_too_b level s v t
round-Nearer m c bs_too_d level s v t = adjust-Nearer m c bs_too_d level s v t

round-limit :
    (m : Maths) (c : BrightTunerCfg) (bs : BrightState) (level : ℕ) (s : Tuner)
    → is_limit bs s ≡ true
    → is_limit bs (round m c bs level s) ≡ true
unfolding round bright_tunning adjust
round-limit m c bs_ok level s h = ok_seen-limit c bs_ok (record s { cooldown = s.cooldown - 1 }) h
round-limit m c bs_too_b level s h =
    rw h (ok_seen-limit c bs_too_b (record s { cooldown = s.cooldown - 1 }) h)
round-limit m c bs_too_d level s h =
    rw h (ok_seen-limit c bs_too_d (record s { cooldown = s.cooldown - 1 }) h)

stays-limit :
    (m : Maths) (c : BrightTunerCfg) (bs : BrightState) (s : Tuner) (levels : List ℕ)
    → is_limit bs s ≡ true
    → is_limit bs (run m c s (pictures bs levels)) ≡ true
unfolding run
stays-limit m c bs s [] h = h
stays-limit m c bs s (l ∷ ls) h =
    stays-limit m c bs (round m c bs l s) ls (round-limit m c bs l s h)

reaches :
    (m : Maths) (c : BrightTunerCfg) (bs : BrightState) (s : Tuner) (levels : List ℕ)
    → CanMove c bs 1
    → AllVisible levels
    → IsTuned c s
    → rounds c bs s < length levels
    → is_limit bs (run m c s (pictures bs levels)) ≡ true
unfolding run
reaches m c bs s [] v a t h = absurd (omega arith)
reaches m c bs s (l ∷ ls) v a t h =
    let moves : CanMove c bs l = record {
      wrong = v.wrong;
      visible = a.0;
      expo_moves = v.expo_moves;
      gain_moves = v.gain_moves;
    } in
    elim (round-Nearer m c bs l s moves t) [
      | inl e ↦ stays-limit m c bs (round m c bs l s) ls e
      | inr e ↦
          reaches m c bs (round m c bs l s) ls v a.1 (round-IsTuned m c bs l s t) (omega arith)
    ]

rounds-bound :
    (c : BrightTunerCfg) (bs : BrightState) (s : Tuner)
    → IsTuned c s
    → rounds c bs s < (3 * distance bs s.exposure s.gain + 3) * (c.adjust_cooldown_default + 1)
unfolding rounds measure
rounds-bound c bs s t =
    let small = rank-small bs s.ts_state s.exposure s.gain in let cools = t.cools in grind arith

-- A tuner within its ranges whose pictures stay too bright, or stay too dark, by an error level of 1 or
-- more, has exposure and gain both at the end of their ranges after (3 d + 3) (w + 1) rounds and from
-- then on, where d is how far both are from it together and w is the configured cooldown, whatever the
-- rounding of the steps; the configured largest steps are positive.
pub run-IsAtEnd :
    (m : Maths) (c : BrightTunerCfg) (bs : BrightState) (s : Tuner) (levels : List ℕ)
    → bs ≢ bs_ok
    → 0 < c.max_expo_step
    → 0 < c.max_gain_step
    → AllVisible levels
    → IsTuned c s
    → (3 * distance bs s.exposure s.gain + 3) * (c.adjust_cooldown_default + 1) ≤ length levels
    → IsAtEnd bs (run m c s (pictures bs levels))
run-IsAtEnd m c bs s levels w e g a t h =
    let v : CanMove c bs 1 = record {
      wrong = w;
      visible = omega arith;
      expo_moves = e;
      gain_moves = g;
    } in
    let bound = rounds-bound c bs s t in
    limit-IsAtEnd c bs _ (run-IsTuned m c s (pictures bs levels) t)
      (reaches m c bs s levels v a t (omega arith))

-- ===== src/Tuner/Probe.antt =====
-- k180_bright_tuner.cpp: what a round of `bright_adjust` makes of a grey picture, a list of rows of
-- bytes. Floats are a parameter, with `int(x)` as the argument `to_int`.
use k180_project.Base.{
  ℕ, suc, ◌+◌, ◌-◌, ◌*◌, ◌≡◌, refl, Bool, true, false, List, [], ◌∷◌, length, get_or, set, ltb,
  if◌then◌else◌, replicate, drop, take, Floats,
}
use k180_project.Tuner.{BrightState, bs_ok, bs_too_b, bs_too_d}

-- The numbers of `cfggg.bright_tuner` that the look at the picture reads.
pub record ProbeCfg (fl : Floats) : Type 0 where
  pub mid_val : ℕ
  pub error_level_div : fl.F
  pub sat_ratio_hi : fl.F
  pub sat_ratio_lo : fl.F
  pub hysteresis_d_threshold : fl.F
  pub k_hi : fl.F
  pub k_lo : fl.F

-- What is measured: the mean's distance from the middle, its size, the spread, their ratio, and the
-- parts of the picture that are saturated.
pub record BrightObs (fl : Floats) : Type 0 where
  pub da : fl.F
  pub d : fl.F
  pub m : fl.F
  pub k : fl.F
  pub sat_hi : fl.F
  pub sat_lo : fl.F

pub sum : List ℕ → ℕ
sum [] = 0
sum (n ∷ ns) = n + sum ns

-- `Hist[v]++` for each pixel.
pub count_row : List ℕ → List ℕ → List ℕ
count_row hist [] = hist
count_row hist (v ∷ row) = count_row (set hist v (get_or hist v 0 + 1)) row

pub histogram : List ℕ → List (List ℕ) → List ℕ
unfolding count_row
histogram hist [] = hist
histogram hist (row ∷ rows) = histogram (count_row hist row) rows

module _ (fl : Floats) where
  open fl use {F, lit, add, sub, mul, div, neg, lt}

  -- `float(a - b)` of two ints.
  pub float_diff : ℕ → ℕ → F
  float_diff a b = if ltb a b then neg (lit (b - a) 1) else lit (a - b) 1

  pub fabs : F → F
  fabs x = if lt x (lit 0 1) then neg x else x

  pub sum_row : ℕ → F → List ℕ → F
  unfolding float_diff
  sum_row mid a [] = a
  sum_row mid a (v ∷ row) = sum_row mid (add a (float_diff v mid)) row

  pub sum_rows : ℕ → F → List (List ℕ) → F
  unfolding sum_row
  sum_rows mid a [] = a
  sum_rows mid a (row ∷ rows) = sum_rows mid (sum_row mid a row) rows

  -- The loop over the histogram from value `i` on.
  pub spread : ℕ → F → F → ℕ → List ℕ → F
  unfolding float_diff fabs
  spread mid da ma i [] = ma
  spread mid da ma i (n ∷ hist) =
      spread mid da (add ma (mul (fabs (sub (float_diff i mid) da)) (lit n 1))) (suc i) hist

  pub observe : ProbeCfg fl → ℕ → List (List ℕ) → BrightObs fl
  unfolding sum_rows histogram spread fabs sum
  observe c width rows =
      let hist = histogram (replicate 256 0) rows in
      let n = length rows * width in
      let da = div (sum_rows c.mid_val (lit 0 1) rows) (lit n 1) in
      let m = fabs (div (spread c.mid_val da (lit 0 1) 0 hist) (lit n 1)) in
      record {
        da = da;
        d = fabs da;
        m = m;
        k = if lt (lit 1 1000000) m then div (fabs da) m else lit 0 1;
        sat_hi = div (lit (sum (drop 250 hist)) 1) (lit n 1);
        sat_lo = div (lit (sum (take 6 hist)) 1) (lit n 1);
      }

  pub error_level : (F → ℕ) → ProbeCfg fl → BrightObs fl → ℕ
  error_level to_int c o =
      let level = to_int (div o.d c.error_level_div) in if ltb level 9 then level else 9

  -- The hysteresis on the ratio, from what it was.
  pub next_k_active : ProbeCfg fl → Bool → F → Bool
  next_k_active c false k = lt c.k_hi k
  next_k_active c true k = if lt k c.k_lo then false else true

  -- The verdict, and whether the picture counts as one to be adjusted from now on.
  pub probe_of : ProbeCfg fl → Bool → BrightObs fl → BrightState × Bool
  unfolding next_k_active
  probe_of c k_active o =
      if lt c.sat_ratio_hi o.sat_hi
      then (bs_too_b, k_active)
      else if lt c.sat_ratio_lo o.sat_lo
      then (bs_too_d, k_active)
      else if lt o.d c.hysteresis_d_threshold
      then (bs_ok, false)
      else if next_k_active c k_active o.k
      then (if lt (lit 0 1) o.da then bs_too_b else bs_too_d, true)
      else (bs_ok, false)

  pub probes : ProbeCfg fl → Bool → List (BrightObs fl) → Bool
  probes c k_active [] = k_active
  probes c k_active (o ∷ os) = probes c (probe_of c k_active o).1 os

  -- A picture that is not saturated, whose mean is off, and whose ratio is in the band of the hysteresis.
  pub record IsBetween (c : ProbeCfg fl) (o : BrightObs fl) : Type 0 where
    pub not_bright : lt c.sat_ratio_hi o.sat_hi ≡ false
    pub not_dark : lt c.sat_ratio_lo o.sat_lo ≡ false
    pub off : lt o.d c.hysteresis_d_threshold ≡ false
    pub below : lt c.k_hi o.k ≡ false
    pub above : lt o.k c.k_lo ≡ false

  abbrev pub AllBetween : ProbeCfg fl → List (BrightObs fl) → Type 0
  AllBetween c [] = Unit {0}
  AllBetween c (o ∷ os) = IsBetween c o × AllBetween c os

  between-kept :
      (c : ProbeCfg fl) (k : Bool) (o : BrightObs fl) → IsBetween c o → (probe_of c k o).1 ≡ k
  unfolding probe_of next_k_active
  between-kept c true o b = simp (b.not_bright, b.not_dark, b.off, b.above)
  between-kept c false o b = simp (b.not_bright, b.not_dark, b.off, b.below)

  -- While the ratio stays between the two marks the verdict does not flip: after any number of such
  -- pictures a picture counts as one to be adjusted exactly if it did before.
  pub probes-between :
      (c : ProbeCfg fl) (k : Bool) (os : List (BrightObs fl)) → AllBetween c os → probes c k os ≡ k
  unfolding probes
  probes-between c k [] b = refl
  probes-between c k (o ∷ os) b = rw (between-kept c k o b.0) (probes-between c k os b.1)

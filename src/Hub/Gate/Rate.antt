-- ===== src/Hub/Gate/Rate.antt =====
-- k180_h265_hub.h: how many frames a gate lets through over a time.
use k180_project.Base.{
  ℕ, ◌+◌, ◌*◌, ◌/◌, ◌-◌, ◌<◌, ◌≤◌, ◌≡◌, refl, ◌∙◌, inl, inr, pos, true, false, List, [], ◌∷◌, leb_ℤ,
  if◌then◌else◌, arith, Bool-cases,
}
use k180_project.Hub.Gate.{StreamFpsGate, allow, allow_at, period_of, reset, configure, second_ns}

-- The frames that a gate lets through, offered at the given times.
unfoldable pub passed : StreamFpsGate → List ℕ → ℕ
passed g [] = 0
passed g (t ∷ ts) = let (g', ok) = allow g t in (if ok then 1 else 0) + passed g' ts

-- The times are positive, do not go back, and end before `stop`.
abbrev pub Clock : ℕ → List ℕ → ℕ → Type 0
Clock from [] stop = from ≤ stop
Clock from (t ∷ ts) stop = (from ≤ t) × Clock t ts stop

period_small : (n : ℕ) → second_ns / n ≤ second_ns
period_small n = ground arith

-- One call below 60 frames: each frame let through costs a period of credit or time.
allow_at-step :
    (g : StreamFpsGate) (p t : ℕ)
    → 0 < g.last_ns
    → g.credit_ns ≤ p
    → p ≤ second_ns
    → g.last_ns ≤ t
    → t < second_ns * second_ns
    → let (g', ok) = allow_at g p t in
      (g'.last_ns ≡ t)
      × (g'.fps ≡ g.fps)
      × (g'.credit_ns ≤ p)
      × ((if ok then p else 0) + g'.credit_ns + g.last_ns ≤ g.credit_ns + t)
      × (g.last_ns + p ≤ t → ok ≡ true)
unfolding allow_at
allow_at-step g p t started low small h h' =
    (ground arith, ground arith, ground arith, ground arith, λ k. ground arith)

allow-running :
    (g : StreamFpsGate) (t : ℕ)
    → (leb_ℤ g.fps (pos 0) ≡ false) × (leb_ℤ (pos 60) g.fps ≡ false)
    → allow g t ≡ allow_at g (period_of g.fps) t
unfolding allow
allow-running g t (off, full) = rw (off, full) refl

Clock-le : (ts : List ℕ) (from stop : ℕ) → Clock from ts stop → from ≤ stop
Clock-le [] from stop c = c
Clock-le (t ∷ ts) from stop c = omega (arith, Clock-le ts t stop c.1)

passed-le :
    (g : StreamFpsGate) (ts : List ℕ) (p stop : ℕ)
    → (leb_ℤ g.fps (pos 0) ≡ false) × (leb_ℤ (pos 60) g.fps ≡ false)
    → period_of g.fps ≡ p
    → p ≤ second_ns
    → 0 < g.last_ns
    → g.credit_ns ≤ p
    → Clock g.last_ns ts stop
    → stop < second_ns * second_ns
    → passed g ts * p + g.last_ns ≤ g.credit_ns + stop
unfolding passed
passed-le g [] p stop slow ep small started low c h = omega arith
passed-le g (t ∷ ts) p stop slow ep small started low c h =
    let (at, same, low', cost, _) =
      allow_at-step g p t started low small c.0 (omega (arith, Clock-le ts t stop c.1)) in
    let call : allow g t ≡ allow_at g p t = rw (← ep) (allow-running g t slow) in
    let g' = (allow_at g p t).0 in
    let rest =
      passed-le g' ts p stop (rw same slow) (rw same ep) small (omega arith) low' (rw at c.1) h in
    rw (call, passed)
      (elim (Bool-cases (allow_at g p t).1) [
        | inl ok ↦ simp ok (omega (arith, simp ok at cost, rest))
        | inr no' ↦ simp no' (omega (arith, simp no' at cost, rest))
      ])

-- A gate set to `f` frames a second, 0 < f < 60, lets through at most one frame for each period of the
-- time over which frames are offered, and two more.
pub passed-rate :
    (g : StreamFpsGate) (f t stop : ℕ) (ts : List ℕ)
    → 0 < f
    → f < 60
    → 0 < t
    → Clock t ts stop
    → stop < second_ns * second_ns
    → passed (configure g (pos f)) (t ∷ ts) * period_of (pos f) ≤ 2 * period_of (pos f) + (stop - t)
unfolding passed configure reset allow_at
passed-rate g f t stop ts h h' started c small =
    let opened : StreamFpsGate = record {
      fps = pos f;
      last_ns = t;
      credit_ns = period_of (pos f);
    } in
    let slow : (leb_ℤ (pos f) (pos 0) ≡ false) × (leb_ℤ (pos 60) (pos f) ≡ false) =
      (ground arith, ground arith) in
    let first : allow (configure g (pos f)) t ≡ (opened, true) =
      allow-running (configure g (pos f)) t slow ∙ refl in
    let rest =
      passed-le opened ts (period_of (pos f)) stop slow refl (period_small f) started (omega arith)
        c small in
    rw (first, passed) (omega (arith, rest))

-- A gate at a rate below 60 lets a frame through that comes a period or more after the last one offered.
pub allow_after_period :
    (g : StreamFpsGate) (t : ℕ)
    → (leb_ℤ g.fps (pos 0) ≡ false) × (leb_ℤ (pos 60) g.fps ≡ false)
    → 0 < g.last_ns
    → g.credit_ns ≤ period_of g.fps
    → g.last_ns + period_of g.fps ≤ t
    → t < second_ns * second_ns
    → (allow g t).1 ≡ true
allow_after_period g t slow started low later small =
    rw (allow-running g t slow) (
      (allow_at-step g (period_of g.fps) t started low (period_small _) (omega arith) small).4
        later)

-- ===== src/Tracker/Bridge/Stranded.antt =====
-- k180_nvtracker_bridge.cpp: a stop that goes to the service alone, and what the bridge makes of it.
use k180_project.Base.{◌≡◌, ◌≢◌, refl, sym, subst, true, false, List, [], ◌∷◌, arith, Floats}
use k180_project.Tracker.Service.{Service, tracking}
use k180_project.Tracker.Bridge.{
  Bridge, Sys, Det, Call, polls, ingests, checks, clicks, stops, resets, step, run,
}

module _ (fl : Floats) where
  -- All calls but a reset of the bridge.
  abbrev pub NoReset : List (Call (Det fl)) → Type 0
  NoReset [] = Unit {0}
  NoReset (resets ∷ cs) = ⊥
  NoReset (stops ∷ cs) = NoReset cs
  NoReset (polls ∷ cs) = NoReset cs
  NoReset (ingests t d f ∷ cs) = NoReset cs
  NoReset (checks now max ∷ cs) = NoReset cs
  NoReset (clicks d f ∷ cs) = NoReset cs

  -- A bound bridge beside a service that does not track: the bridge is as it was, and so is that.
  abbrev IsStuck : Bridge (Det fl) → Sys fl → Type 0
  IsStuck b sys = (sys.0 ≡ b) × (sys.1.state ≢ tracking)

  step-IsStuck :
      (b : Bridge (Det fl)) (s : Service (Det fl)) (c : Call (Det fl))
      → b.active_track_bound ≡ true
      → b.waiting_start_bind ≡ false
      → s.state ≢ tracking
      → NoReset (c ∷ [])
      → IsStuck b (step fl (b, s) c)
  unfolding step
  step-IsStuck b s polls bound idle' h n = (ground arith, ground arith)
  step-IsStuck b s (ingests t d f) bound idle' h n = (ground arith, ground arith)
  step-IsStuck b s (checks now max) bound idle' h n = (ground arith, ground arith)
  step-IsStuck b s (clicks d f) bound idle' h n = (refl, ground arith)
  step-IsStuck b s stops bound idle' h n = (refl, ground arith)
  step-IsStuck b s resets bound idle' h n = elim n [ ]

  run-IsStuck :
      (b : Bridge (Det fl)) (sys : Sys fl) (cs : List (Call (Det fl)))
      → b.active_track_bound ≡ true
      → b.waiting_start_bind ≡ false
      → IsStuck b sys
      → NoReset cs
      → IsStuck b (run fl sys cs)
  unfolding run
  run-IsStuck b sys [] bound idle' h n = h
  run-IsStuck b sys (c ∷ cs) bound idle' (same, off) n =
      let (n1, n2) = split c cs n in
      run-IsStuck b (step fl sys c) cs bound idle'
        (subst (λ b'. IsStuck b (step fl (b', sys.1) c)) (sym same)
          (step-IsStuck b sys.1 c bound idle' off n1))
        n2
    where
      split :
          (c : Call (Det fl)) (cs : List (Call (Det fl)))
          → NoReset (c ∷ cs)
          → NoReset (c ∷ []) × NoReset cs
      split polls cs k = (tt, k)
      split (ingests t d f) cs k = (tt, k)
      split (checks now max) cs k = (tt, k)
      split (clicks d f) cs k = (tt, k)
      split stops cs k = (tt, k)
      split resets cs k = elim k [ ]

  -- Once the bridge is bound, a stop of the service alone ends tracking for good: whatever is clicked,
  -- polled, put out, checked or stopped afterwards, the bridge stays bound to its old track and the
  -- service never tracks again, until the bridge is reset.
  pub run-stranded :
      (b : Bridge (Det fl)) (s : Service (Det fl)) (cs : List (Call (Det fl)))
      → b.active_track_bound ≡ true
      → b.waiting_start_bind ≡ false
      → NoReset cs
      → let sys = run fl (b, s) (stops ∷ cs) in (sys.0 ≡ b) × (sys.1.state ≢ tracking)
  unfolding run step
  run-stranded b s cs bound idle' n =
      run-IsStuck b (step fl (b, s) stops) cs bound idle' (refl, λ e. cc) n

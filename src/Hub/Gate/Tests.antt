-- ===== src/Hub/Gate/Tests.antt =====
-- Runs of the frame gate, and its theorems at concrete gates.
use k180_project.Base.{ℕ, ◌≡◌, ◌≤◌, ◌*◌, ◌+◌, ◌-◌, refl, List, [], ◌∷◌, pos, arith}
use k180_project.Hub.Gate.{StreamFpsGate, allow, configure, period_of}
use k180_project.Hub.Gate.Rate.{passed, passed-rate}

abbrev thirty : StreamFpsGate
thirty = record { fps = pos 30; last_ns = 0; credit_ns = 0 }

-- Frames offered at 60 a second.
abbrev offered : List ℕ
offered = 17000000 ∷ 34000000 ∷ 50000000 ∷ 67000000 ∷ 84000000 ∷ []

passed-offered : passed (configure thirty (pos 30)) offered ≡ 4
unfolding passed allow configure
passed-offered = refl

passed-rate_example :
    passed (configure thirty (pos 30)) offered * period_of (pos 30)
    ≤ 2 * period_of (pos 30) + (90000000 - 17000000)
passed-rate_example =
    passed-rate thirty 30 17000000 90000000 (34000000 ∷ 50000000 ∷ 67000000 ∷ 84000000 ∷ [])
      (omega arith) (omega arith) (omega arith) (omega arith) (omega arith)

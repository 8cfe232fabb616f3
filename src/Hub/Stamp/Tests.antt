-- ===== src/Hub/Stamp/Tests.antt =====
-- A session's stamps, and the theorem about them at concrete times.
use k180_project.Base.{◌≡◌, refl, [], ◌∷◌, arith}
use k180_project.Hub.Stamp.{Clock, stamp}
use k180_project.Hub.Stamp.Monotonic.{stamps, RisesBy, stamps-RisesBy}

abbrev fresh : Clock
fresh = record { t0_ns = 0; last_pts = 0 }

-- The third buffer comes in the frame of the second.
stamps_burst : stamps fresh 100 (1000 ∷ 1250 ∷ 1260 ∷ 1900 ∷ []) ≡ 100 ∷ 200 ∷ 300 ∷ 900 ∷ []
unfolding stamps stamp
stamps_burst = refl

stamps-RisesBy_example : RisesBy 100 0 (stamps fresh 100 (1000 ∷ 1250 ∷ 1260 ∷ 1900 ∷ []))
stamps-RisesBy_example =
    stamps-RisesBy 100 2000 1000 (1250 ∷ 1260 ∷ 1900 ∷ []) (omega arith) (omega arith) (omega arith)
      (omega arith)

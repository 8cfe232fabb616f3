-- ===== src/Osd/Tests.antt =====
-- Runs of the latest result on small inputs, at which its theorems apply.
use k180_project.Base.{ℕ, ◌≡◌, refl, List, [], ◌∷◌, none, some, arith, pos}
use k180_project.Osd.{Latest, new, copy_latest_result, Call, updates, clears, inits, run}
use k180_project.Osd.Fallback.{update-copy_latest_result}

-- Two detections at frame 5, then a frame without any.
abbrev history : List (Call ℕ)
history = inits 4 ∷ updates 5 (some (7 ∷ 8 ∷ [])) (pos 2) ∷ updates 6 none (pos 0) ∷ clears ∷ []

update-copy_latest_result_example :
    (l : Latest ℕ) × (run 0 new
        (updates 5 (some (7 ∷ 8 ∷ [])) (pos 2) ∷ updates 6 none (pos 0) ∷ [])
      ≡ some l)
    × (copy_latest_result l 7 ≡ some (some (7 ∷ 8 ∷ [], 5)))
unfolding new
update-copy_latest_result_example =
    update-copy_latest_result 0 new 5 7 2 2 (7 ∷ 8 ∷ []) (updates 6 none (pos 0) ∷ []) (omega arith)
      (omega arith) (omega arith) (omega arith) (omega arith) tt refl (omega arith) (omega arith)

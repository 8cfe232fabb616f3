-- ===== src/Queue/Tests.antt =====
-- Runs of the stage queue, and its theorems at concrete queues.
use k180_project.Base.{ℕ, ◌≡◌, refl, false, true, List, [], ◌∷◌, none, some, arith}
use k180_project.Queue.{StageQueue, Call, pushes, tries, pops, closes, make, step, push, run}
use k180_project.Queue.Bounds.{IsValid, Keeps, run-IsValid}
use k180_project.Queue.Order.{EndOf, run-EndOf}

abbrev two : StageQueue ℕ
two = record { q = 1 ∷ 2 ∷ []; max_items = 2; closed = false }

abbrev history : List (Call ℕ)
history = pushes 3 ∷ tries 4 ∷ pops ∷ closes ∷ pushes 5 ∷ []

push_drops_oldest : push two 3 ≡ some (record two { q = 2 ∷ 3 ∷ [] })
unfolding push
push_drops_oldest = refl

-- A queue made with no room: the loop of `push` pops an empty `std::queue`.
push_no_room : push {T = ℕ} (make 0) 3 ≡ none
unfolding push make
push_no_room = refl

run-history : run two history ≡ some (record { q = 4 ∷ []; max_items = 2; closed = true })
unfolding run step
run-history = refl

two-IsValid : IsValid two
two-IsValid = record { room = omega arith; within = omega arith }

run-IsValid_example : Keeps two (run two history)
run-IsValid_example = run-IsValid two history two-IsValid

run-EndOf_example : EndOf {T = ℕ} (4 ∷ []) (1 ∷ 2 ∷ 3 ∷ 4 ∷ [])
run-EndOf_example =
    run-EndOf two (record { q = 4 ∷ []; max_items = 2; closed = true }) history two-IsValid
      run-history

-- ===== src/Sync/Tests.antt =====
-- Runs of the stage event and the join, and their theorems at concrete values.
use k180_project.Base.{ℕ, ◌-◌, ◌≡◌, true, false, List, [], ◌∷◌, arith, u32_mod}
use k180_project.Sync.{StageEvent, StageEventJoin, wait, wait_all, proceeds, stops, waits}
use k180_project.Sync.Event.{signals, wait-signals}
use k180_project.Sync.Join.{signal_ids, wait_all-signal_ids}

abbrev seen_five : StageEvent
seen_five = record { seq = 5 }

abbrev last_value : StageEvent
last_value = record { seq = u32_mod - 1 }

wait-signals_example : wait (signals 3 seen_five) 5 false ≡ (proceeds, 8)
wait-signals_example = wait-signals 3 seen_five (omega arith)

abbrev fresh : StageEventJoin
fresh = record { done_mask = 0 }

abbrev three_of_four : List ℕ
three_of_four = 2 ∷ 0 ∷ 2 ∷ 3 ∷ []

wait_all-signal_ids_example :
    (wait_all (signal_ids fresh three_of_four) false ≡ (waits, signal_ids fresh three_of_four))
    × (wait_all (signal_ids fresh three_of_four) true ≡ (stops, signal_ids fresh three_of_four))
wait_all-signal_ids_example = wait_all-signal_ids three_of_four (omega arith)

-- ===== src/Osd/Slots/Tests.antt =====
-- A busy slot whose event is done only for the second, at which the theorems on slots apply.
use k180_project.Base.{pos, ℕ, ◌≡◌, refl, Bool, List, [], ◌∷◌, some, ◌==◌}
use k180_project.Osd.Slots.{OsdDetSlot, infer_pending, acquire_free_slot_from}

abbrev pending : ℕ → OsdDetSlot
pending f = record { frame_seq = f; det_count_host = some (pos 2); state = infer_pending }

abbrev second_done : ℕ → Bool
second_done i = i == 1

abbrev slots : List OsdDetSlot
slots = pending 7 ∷ pending 8 ∷ pending 9 ∷ []

second_taken : (acquire_free_slot_from second_done 0 slots).1 ≡ some 1
unfolding acquire_free_slot_from
second_taken = refl

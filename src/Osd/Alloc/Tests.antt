-- ===== src/Osd/Alloc/Tests.antt =====
-- Two slots whose second fails at its host buffer, at which the theorem on allocations applies.
use k180_project.Base.{◌≡◌, refl, true, false, List, [], ◌∷◌, pos}
use k180_project.Osd.Alloc.{
  Buffers, Call, inits, destroys, run, empty_store, step, osd_init_slots, init_slots,
  init_slot_vector, init_slot, osd_destroy_slots, destroy_slot_vector, destroy_slot,
}
use k180_project.Osd.Alloc.Account.{IsAccounted, IsCovered, IsPaired, run-empty-IsAccounted}

abbrev works : Buffers
works = record {
  det_device = true;
  det_count_device = true;
  det_host = true;
  det_count_host = true;
  ready_event = true;
}

abbrev fails : Buffers
fails = record works { det_host = false }

abbrev history : List Call
history = inits (pos 8) (works ∷ fails ∷ []) (works ∷ works ∷ []) ∷ destroys ∷ []

seven_freed : (run empty_store history).ledger ≡ record { allocated = 7; freed = 7 }
unfolding run empty_store step osd_init_slots init_slots init_slot_vector init_slot
    osd_destroy_slots destroy_slot_vector destroy_slot
seven_freed = refl

run-empty-IsAccounted_example :
    IsCovered (run empty_store history)
    × (IsPaired history
        → IsAccounted (run empty_store history)
          × ((osd_destroy_slots (run empty_store history)).ledger.allocated
              ≡ (osd_destroy_slots (run empty_store history)).ledger.freed))
run-empty-IsAccounted_example = run-empty-IsAccounted history

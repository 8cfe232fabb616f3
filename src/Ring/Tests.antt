-- ===== src/Ring/Tests.antt =====
-- Runs of the frame ring, and its theorems at concrete rings.
use k180_project.Base.{List, ◌≤◌, ◌≡◌, refl, false, true, [], ◌∷◌, some, arith, inr}
use k180_project.Ring.{
  FrameRing, empty_ring, init, try_acquire_slot, release_slot, wrap_slot_as_buffer, reset,
  reset_stats, count_now, raise_max, take_flag, clear_flag,
}
use k180_project.Ring.Inv.{IsValid, flags, lent}
use k180_project.Ring.Acquire.{Outcome, try_acquire_slot-Outcome}
use k180_project.Ring.Interleaved.{
  Step, produces, clears, started, run, step, advance, look, exchange, Agrees, IsSettled,
  run-started-Agrees,
}

-- Slots 0 and 2 of three are lent, and the walk starts at 2.
abbrev busy : FrameRing
busy = record {
  slots = 3;
  bytes = 8;
  inuse = some (true ∷ false ∷ true ∷ []);
  wr = 2;
  acquire_fail = 0;
  acquire_ok = 2;
  inuse_now = 2;
  inuse_max = 2;
}

busy-IsValid : IsValid busy
busy-IsValid = record {
  sized = refl;
  small = omega arith;
  counted = refl;
  peak = omega arith;
  peak_small = omega arith;
  wr_in = inr (omega arith);
}

acquire_busy : (try_acquire_slot busy).1 ≡ some 1
unfolding try_acquire_slot k180_project.Ring.find_free
acquire_busy = refl

-- `reset` leaves the counters as they are.
reset_keeps_count : (reset busy).inuse_now ≡ 2
unfolding reset
reset_keeps_count = refl

try_acquire_slot-Outcome_example :
    Outcome (flags busy) (try_acquire_slot busy).1 (flags (try_acquire_slot busy).0)
try_acquire_slot-Outcome_example =
    try_acquire_slot-Outcome busy busy-IsValid (λ e. absurd (omega arith))

-- A release has cleared the only flag and not yet counted when the producer takes the slot again: the
-- counter and its maximum come to 2 on a ring of one slot.
abbrev late_count : List Step
late_count =
    produces
    ∷ produces
    ∷ produces
    ∷ produces
    ∷ clears 0
    ∷ produces
    ∷ produces
    ∷ produces
    ∷ produces
    ∷ []

one_too_many : (run (started empty_ring 1 8) late_count).ring.inuse_max ≡ 2
unfolding run step advance look exchange init count_now raise_max take_flag clear_flag
one_too_many = refl

run-started-Agrees_example :
    Agrees (run (started empty_ring 1 8) late_count)
    × (IsSettled (run (started empty_ring 1 8) late_count)
        → ((run (started empty_ring 1 8) late_count).ring.inuse_now
            ≡ lent (flags (run (started empty_ring 1 8) late_count).ring))
          × ((run (started empty_ring 1 8) late_count).ring.inuse_now
              ≤ (run (started empty_ring 1 8) late_count).ring.slots))
unfolding init
run-started-Agrees_example = run-started-Agrees empty_ring 1 8 late_count (omega arith) refl

-- ===== src/Osd/Slots.antt =====
-- rtsp_server/src/k180_osd_slots.cpp: taking, finding and releasing the slots of inference results. The
-- CUDA buffers of a slot are not modelled; `ready` says whether `cudaEventQuery` finds the event of the
-- slot with that index done. One thread acquires, so the compare-exchange on a free slot succeeds.
pub mod Outcome
mod Tests
use k180_project.Base.{
  ℤ, pos, ℕ, suc, Bool, true, false, not, ◌&&◌, List, [], ◌∷◌, Option, none, some, map, ◌==◌,
  if◌then◌else◌,
}

pub data SlotState : Type 0 where
  free infer_pending : SlotState

abbrev pub is_free : SlotState → Bool
is_free free = true
is_free infer_pending = false

-- `det_count_host` is null or points to the count.
pub record OsdDetSlot : Type 0 where
  pub frame_seq : ℕ
  pub det_count_host : Option ℤ
  pub state : SlotState

abbrev cleared : Option ℤ → Option ℤ
cleared none = none
cleared (some n) = some (pos 0)

unfoldable pub osd_release_slot : OsdDetSlot → OsdDetSlot
osd_release_slot s = record s {
  frame_seq = 0;
  det_count_host = cleared s.det_count_host;
  state = free;
}

-- The loop over the slots, from the one with index `i` on; the answer is the index of the slot taken.
pub acquire_free_slot_from : (ℕ → Bool) → ℕ → List OsdDetSlot → List OsdDetSlot × Option ℕ
unfolding osd_release_slot
acquire_free_slot_from ready i [] = ([], none)
acquire_free_slot_from ready i (s ∷ ss) =
    let (ss', taken) = acquire_free_slot_from ready (suc i) ss in
    if is_free s.state
    then (record s { state = infer_pending } ∷ ss, some i)
    else if ready i
    then (record (osd_release_slot s) { state = infer_pending } ∷ ss, some i)
    else (s ∷ ss', taken)

unfoldable pub find_slot_by_frame_seq_from : List OsdDetSlot → ℕ → ℕ → Option ℕ
find_slot_by_frame_seq_from [] i frame_seq = none
find_slot_by_frame_seq_from (s ∷ ss) i frame_seq =
    let rest = find_slot_by_frame_seq_from ss (suc i) frame_seq in
    if not (is_free s.state) && s.frame_seq == frame_seq then some i else rest

-- `osd_reset_all_results` on one vector of slots.
pub release_all : List OsdDetSlot → List OsdDetSlot
unfolding osd_release_slot
release_all ss = map osd_release_slot ss

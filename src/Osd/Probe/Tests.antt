-- ===== src/Osd/Probe/Tests.antt =====
-- The probe of the overlay on a few buffers.
use k180_project.Base.{
  negsuc, ℕ, ◌≤◌, ◌≡◌, refl, true, false, List, [], ◌∷◌, none, some, length, arith, pos, ◌+◌,
}
use k180_project.Osd.{copy_latest_result}
use k180_project.Osd.Slots.{infer_pending, free, find_slot_by_frame_seq_from, osd_release_slot}
use k180_project.Osd.Probe.{
  Counters, Side, Cuda, success, not_ready, Shared, Event, resolve, run, exact_slot, done_slot,
  release_at, fall_back, miss, copy_exact, copy_first,
}
use k180_project.Osd.Probe.Answer.{IsSound, IsRoomy, Resolves}
use k180_project.Osd.Probe.Counts.{IsKept}
use k180_project.Osd.Probe.Runs.{answered, untagged, total, run-Resolves}

abbrev no_counts : Counters
no_counts = record {
  exact_ready_ok = 0;
  fallback_used = 0;
  fallback_miss = 0;
  miss_not_ready = 0;
  miss_not_found = 0;
  attach_ok = 0;
}

abbrev side : Side ℕ
side = record {
  slots =
      record { frame_seq = 7; det_count_host = some (pos 1); state = infer_pending }
      ∷ record { frame_seq = 8; det_count_host = some (pos 2); state = infer_pending }
      ∷ [];
  latest = record {
    det_host = 50 ∷ 60 ∷ [];
    det_count = 2;
    frame_seq = 6;
    valid = true;
    empty_streak = 0;
    max_fallback_frames = pos 2;
    clear_after_empty = pos 2;
  };
  counters = no_counts;
}

abbrev ready : Cuda ℕ
ready = record { query = success; again = true; det_host = λ i. some (10 ∷ 20 ∷ []) }

abbrev late : Cuda ℕ
late = record { query = not_ready; again = false; det_host = λ i. some (10 ∷ 20 ∷ []) }

abbrev events : List (Event ℕ)
events =
    record {
      is_buffer = true;
      has_buffer = true;
      tag = some 8;
      has_batch = true;
      det_cuda = ready;
      track_cuda = late;
    }
    ∷ record {
      is_buffer = true;
      has_buffer = true;
      tag = none;
      has_batch = true;
      det_cuda = ready;
      track_cuda = late;
    }
    ∷ record {
      is_buffer = true;
      has_buffer = true;
      tag = some 12;
      has_batch = true;
      det_cuda = ready;
      track_cuda = ready;
    }
    ∷ []

-- A slot that counts no boxes is a miss that was not ready, and no slot is one that was not found.
abbrev missing : ℕ → Side ℕ
missing n = record side {
  slots = record { frame_seq = n; det_count_host = some (negsuc 0); state = infer_pending } ∷ [];
}

miss_found :
    resolve ready (missing 9) 9
    ≡ some (
      record {
        slots = record { frame_seq = 0; det_count_host = some (pos 0); state = free } ∷ [];
        latest = side.latest;
        counters = record no_counts { fallback_miss = 1; miss_not_ready = 1 };
      },
      [],
      false,
    )
unfolding resolve exact_slot done_slot release_at osd_release_slot fall_back miss copy_exact
    copy_first copy_latest_result find_slot_by_frame_seq_from
miss_found = refl

miss_absent :
    resolve ready (missing 8) 9
    ≡ some (
      record (missing 8) { counters = record no_counts { fallback_miss = 1; miss_not_found = 1 } },
      [],
      false,
    )
unfolding resolve fall_back miss copy_latest_result find_slot_by_frame_seq_from
miss_absent = refl

sound : IsSound 2 side
sound = record { whole = λ v. omega arith; within = (omega arith, (omega arith, tt)) }

room : (det : List ℕ) → some (10 ∷ 20 ∷ []) ≡ some det → 2 ≤ length det
room det e = ground arith

run-Resolves_example :
    (s' : Shared ℕ) × (run (record { det = side; track = side }) events ≡ some s')
    × IsKept 2 (0 + total answered events) (0 + total untagged events) s'
    × ((q : Cuda ℕ) (f : ℕ)
        → IsRoomy 2 q
        → Resolves 2 q s'.det f (resolve q s'.det f)
          × Resolves 2 q s'.track f (resolve q s'.track f))
run-Resolves_example =
    run-Resolves 2 0 0 (record { det = side; track = side }) events (omega arith)
      (record {
        det_sound = sound;
        track_sound = sound;
        det_counted = record { answers = refl; reasons = refl };
        track_counted = record { answers = refl; reasons = refl };
      })
      (λ i. room, λ i. room, (λ i. room, λ i. room, (λ i. room, λ i. room, tt)))

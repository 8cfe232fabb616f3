-- ===== src/Osd/Probe.antt =====
-- rtsp_server/src/k180_osd_probe.cpp: which boxes the probe on the muxer's pad attaches to a frame. The
-- answers of `cudaEventQuery`, the buffer and its metadata are arguments; `none` is a copy out of
-- bounds. The rate statistics, which are only printed, are left out.
pub mod Answer
pub mod Choice
pub mod Counts
pub mod Runs
mod Tests
use k180_project.Base.{
  ℤ, pos, negsuc, ℕ, zero, suc, Bool, true, false, not, ◌&&◌, ◌||◌, List, [], ◌∷◌, Option, none,
  some, length, take, ltb, ◌==◌, if◌then◌else◌, add64, get_or,
}
use k180_project.Osd.{Latest, copy_latest_result}
use k180_project.Osd.Slots.{OsdDetSlot, free, osd_release_slot, find_slot_by_frame_seq_from}

pub data Query : Type 0 where
  success not_ready error : Query

-- The counters of one path in `OsdShared`.
pub record Counters : Type 0 where
  pub exact_ready_ok : ℕ
  pub fallback_used : ℕ
  pub fallback_miss : ℕ
  pub miss_not_ready : ℕ
  pub miss_not_found : ℕ
  pub attach_ok : ℕ

-- One path, of the detector or of the tracker.
pub record Side (D : Type 0) : Type 0 where
  pub slots : List OsdDetSlot
  pub latest : Latest D
  pub counters : Counters

-- What the probe finds outside: the answers for the event of the slot it looks at, first and again, and
-- the array behind `det_host` of each slot.
pub record Cuda (D : Type 0) : Type 0 where
  pub query : Query
  pub again : Bool
  pub det_host : ℕ → Option (List D)

pub release_at : List OsdDetSlot → ℕ → List OsdDetSlot
release_at [] i = []
release_at (s ∷ ss) zero = osd_release_slot s ∷ ss
release_at (s ∷ ss) (suc i) = s ∷ release_at ss i

abbrev pub no_slot : OsdDetSlot
no_slot = record { frame_seq = 0; det_count_host = none; state = free }

abbrev pub count_of : Option ℤ → ℤ
count_of none = pos 0
count_of (some n) = n

abbrev pub is_nil : {D : Type 0} → List D → Bool
is_nil [] = true
is_nil (x ∷ xs) = false

-- The result so far: the path, its boxes, and whether they are attached.
abbrev pub Resolved : Type 0 → Type 0
Resolved D = Side D × List D × Bool

module _ {D : Type 0} where
  -- The first `count` detections; `some none` is the answer false.
  pub copy_first : ℤ → List D → Option (Option (List D))
  copy_first (negsuc n) det = some none
  copy_first (pos zero) det = some none
  copy_first (pos (suc n)) det =
      if ltb (length det) (suc n) then none else some (some (take (suc n) det))

  -- `copy_exact_slot_if_ready`, with what is behind `det_host`.
  pub copy_exact : Cuda D → OsdDetSlot → Option (List D) → Option (Option (List D))
  copy_exact q s none = some none
  copy_exact q s (some det) =
      if not q.again then some none else copy_first (count_of s.det_count_host) det

  pub miss : Side D → Bool → Resolved D
  miss s found = (
    record s {
      counters = record (s.counters) {
        miss_not_ready =
            if found then add64 s.counters.miss_not_ready 1 else s.counters.miss_not_ready;
        miss_not_found =
            if found then s.counters.miss_not_found else add64 s.counters.miss_not_found 1;
        fallback_miss = add64 s.counters.fallback_miss 1;
      };
    },
    [],
    false,
  )

  pub use_fallback : Side D → List D → Resolved D
  use_fallback s boxes = (
    record s {
      counters = record (s.counters) { fallback_used = add64 s.counters.fallback_used 1 };
    },
    boxes,
    not (is_nil boxes),
  )

  pub use_exact : Side D → List D → Resolved D
  use_exact s boxes = (
    record s {
      counters = record (s.counters) { exact_ready_ok = add64 s.counters.exact_ready_ok 1 };
    },
    boxes,
    true,
  )

  pub fall_back : Side D → ℕ → Bool → Option (Resolved D)
  fall_back s frame_seq found = elim (copy_latest_result s.latest frame_seq) [
    | none ↦ none
    | some r ↦ elim r [
      | none ↦ some (miss s found)
      | some (boxes, seq) ↦ some (use_fallback s boxes)
    ]
  ]

  -- The event is done: the slot is released, whether there was something to copy or not.
  pub done_slot : Cuda D → Side D → ℕ → ℕ → Option (Resolved D)
  done_slot q s frame_seq i =
      let released : Side D = record s { slots = release_at s.slots i } in
      elim (copy_exact q (get_or s.slots i no_slot) (q.det_host i)) [
        | none ↦ none
        | some r ↦ elim r [
          | none ↦ fall_back released frame_seq true
          | some boxes ↦ some (use_exact released boxes)
        ]
      ]

  pub exact_slot : Query → Cuda D → Side D → ℕ → ℕ → Option (Resolved D)
  exact_slot success q s frame_seq i = done_slot q s frame_seq i
  exact_slot not_ready q s frame_seq i = fall_back s frame_seq true
  exact_slot error q s frame_seq i =
      fall_back (record s { slots = release_at s.slots i }) frame_seq true

  -- Part 1 or 2 of the probe, on one path.
  pub resolve : Cuda D → Side D → ℕ → Option (Resolved D)
  resolve q s frame_seq = elim (find_slot_by_frame_seq_from s.slots 0 frame_seq) [
    | none ↦ fall_back s frame_seq false
    | some i ↦ exact_slot q.query q s frame_seq i
  ]

  pub count_attached : Side D → Bool → Side D
  count_attached s attached =
      if attached
      then record s { counters = record (s.counters) { attach_ok = add64 s.counters.attach_ok 1 } }
      else s

pub record Shared (D : Type 0) : Type 0 where
  pub det : Side D
  pub track : Side D

-- The buffer that passes: `tag` is its frame number, if it has one.
pub record Event (D : Type 0) : Type 0 where
  pub is_buffer : Bool
  pub has_buffer : Bool
  pub tag : Option ℕ
  pub has_batch : Bool
  pub det_cuda : Cuda D
  pub track_cuda : Cuda D

-- The boxes that each frame of the batch gets: the white ones and the yellow ones.
pub record Boxes (D : Type 0) : Type 0 where
  pub white : List D
  pub yellow : List D

module _ {D : Type 0} where
  abbrev pub no_boxes : Boxes D
  no_boxes = record { white = []; yellow = [] }

  pub attach : Resolved D → Resolved D → Shared D × Boxes D
  attach (d, white, da) (t, yellow, ta) =
      if not da && not ta then (record { det = d; track = t }, no_boxes) else (
        record { det = count_attached d da; track = count_attached t ta },
        record { white = white; yellow = yellow },
      )

  pub resolve_both : Shared D → Event D → ℕ → Option (Shared D × Boxes D)
  resolve_both s e frame_seq = elim (resolve e.det_cuda s.det frame_seq) [
    | none ↦ none
    | some d ↦ elim (resolve e.track_cuda s.track frame_seq) [
      | none ↦ none
      | some t ↦ some (attach d t)
    ]
  ]

  pub count_untagged : Shared D → Shared D
  count_untagged s = record s {
    det = record (s.det) {
      counters = record (s.det.counters) { miss_not_found = add64 s.det.counters.miss_not_found 1 };
    };
  }

  pub mux_src_pad_probe : Shared D → Event D → Option (Shared D × Boxes D)
  mux_src_pad_probe s e =
      if not e.is_buffer || not e.has_buffer then some (s, no_boxes) else elim e.tag [
        | none ↦ some (count_untagged s, no_boxes)
        | some frame_seq ↦
            if not e.has_batch then some (s, no_boxes) else resolve_both s e frame_seq
      ]

  -- The buffers that pass, one after another.
  pub run : Shared D → List (Event D) → Option (Shared D)
  run s [] = some s
  run s (e ∷ es) = elim (mux_src_pad_probe s e) [ none ↦ none | some (s', boxes) ↦ run s' es ]

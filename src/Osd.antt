-- ===== src/Osd.antt =====
-- rtsp_server/src/k180_osd_slots.cpp and include/k180_osd_shared.h: the latest result of the detector
-- that the overlay falls back to. The functions of the track path are the same code on the fields of
-- the tracker's result, so one model serves both. Each call runs under its mutex. `none` is undefined
-- behaviour: an array read outside of its bounds, or an overflow of the int that counts empty results.
pub mod Fallback
pub mod Slots
pub mod Probe
pub mod Alloc
mod Tests
use k180_project.Base.{
  ℕ, ◌+◌, ◌-◌, ◌^◌, Bool, true, false, not, ◌&&◌, List, [], ◌∷◌, ◌++◌, Option, none, some, length,
  take, drop, replicate, ltb, leb, ◌==◌, if◌then◌else◌, ℤ, pos, negsuc, pos_part, ltb_ℤ, leb_ℤ,
  u64_mod,
}

pub record Latest (D : Type 0) : Type 0 where
  pub det_host : List D
  pub det_count : ℕ
  pub frame_seq : ℕ
  pub valid : Bool
  pub empty_streak : ℕ
  pub max_fallback_frames : ℤ
  pub clear_after_empty : ℤ

abbrev pub int_max : ℕ
int_max = 2 ^ 31 - 1

-- `static_cast<std::uint64_t>` of an int.
abbrev pub to_u64 : ℤ → ℕ
to_u64 (pos n) = n
to_u64 (negsuc n) = u64_mod - 1 - n

module _ {D : Type 0} where
  pub new : Latest D
  new = record {
    det_host = [];
    det_count = 0;
    frame_seq = 0;
    valid = false;
    empty_streak = 0;
    max_fallback_frames = pos 2;
    clear_after_empty = pos 2;
  }

  pub clear_latest : Latest D → Latest D
  clear_latest l = record l {
    valid = false;
    det_count = 0;
    frame_seq = 0;
    empty_streak = 0;
    det_host = [];
  }

  -- `latest_empty_streak++` and the clearing after enough empty results.
  pub empty_result : Latest D → ℕ → Option (Latest D)
  empty_result l frame_seq =
      if leb int_max l.empty_streak
      then none
      else if leb_ℤ l.clear_after_empty (pos (l.empty_streak + 1))
      then some (record l {
        empty_streak = l.empty_streak + 1;
        valid = false;
        det_count = 0;
        frame_seq = frame_seq;
      })
      else some (record l { empty_streak = l.empty_streak + 1 })

  -- The answer of a copy: nothing, or the detections and `*out_result_seq`.
  pub copy_latest_result : Latest D → ℕ → Option (Option (List D × ℕ))
  copy_latest_result l frame_seq =
      if not l.valid
      then some none
      else if l.det_count == 0
      then some none
      else if l.frame_seq == 0
      then some none
      else if ltb frame_seq l.frame_seq
      then some none
      else if ltb l.frame_seq frame_seq
          && ltb (to_u64 l.max_fallback_frames) (frame_seq - l.frame_seq)
      then some none
      else if ltb (length l.det_host) l.det_count
      then none
      else some (some (take l.det_count l.det_host, l.frame_seq))

module _ {D : Type 0} (blank : D) where
  -- The vectors part of `osd_init_slots`.
  pub init_latest : Latest D → ℕ → Latest D
  init_latest l max_det = record l {
    det_host = replicate max_det blank;
    det_count = 0;
    frame_seq = 0;
    valid = false;
    empty_streak = 0;
  }

  -- `resize` where the vector is too short.
  abbrev pub grown : List D → ℕ → List D
  grown host n = if ltb (length host) n then host ++ replicate (n - length host) blank else host

  pub store : Latest D → ℕ → List D → ℕ → Option (Latest D)
  store l frame_seq det n =
      if ltb (length det) n
      then none
      else some (record l {
        det_host = take n det ++ drop n (grown l.det_host n);
        det_count = n;
        frame_seq = frame_seq;
        valid = true;
        empty_streak = 0;
      })

  -- `det` is null or points to an array.
  pub update_latest_result : Latest D → ℕ → Option (List D) → ℤ → Option (Latest D)
  update_latest_result l frame_seq none count = empty_result l frame_seq
  update_latest_result l frame_seq (some det) count =
      if ltb_ℤ (pos 0) count
      then store l frame_seq det (pos_part count)
      else empty_result l frame_seq

-- The calls that change the latest result.
pub data Call (D : Type 0) : Type 0 where
  updates : ℕ → Option (List D) → ℤ → Call D
  clears : Call D
  inits : ℕ → Call D

module _ {D : Type 0} (blank : D) where
  pub step : Latest D → Call D → Option (Latest D)
  unfolding update_latest_result store empty_result clear_latest init_latest
  step l (updates f det n) = update_latest_result blank l f det n
  step l clears = some (clear_latest l)
  step l (inits n) = some (init_latest blank l n)

  pub run : Latest D → List (Call D) → Option (Latest D)
  run l [] = some l
  run l (c ∷ cs) = elim (step l c) [ none ↦ none | some l' ↦ run l' cs ]

-- ===== src/Hub/Manager.antt =====
-- `HubManager` of rtsp_server/src/k180_h265_hub.cpp: the viewer counts, recording flags and frame gates of
-- all streams. The arrays have `streams` and `h264_streams` entries; an access outside of an array is
-- undefined behaviour in the source and `none` here. Counters are atomic, so calls come one by one; they
-- stay far below the range of `int`. The hubs themselves are in Hub/H265.antt and Hub/H264.antt.
pub mod Viewers
pub mod Streams
pub mod Shutdown
mod Tests
use k180_project.Base.{
  ℕ, zero, suc, ◌+◌, ◌-◌, Bool, true, false, ◌||◌, ℤ, pos, negsuc, List, Option, none, some,
  get_elem?, set, replicate, if◌then◌else◌, ltb, leb, leb_ℤ, ltb_ℤ,
}
use k180_project.Hub.Keys.{
  StreamGroup, StreamView, StreamKey, stream_index, h264_index, streams, h264_streams, view_index,
}
use k180_project.Hub.Gate.{StreamFpsGate, configure, allow}
use k180_project.Hub.Gate

pub record HubManager : Type 0 where
  pub viewers : List ℕ
  pub viewers_h264 : List ℕ
  pub record_enabled : List Bool
  pub h265_gate : List StreamFpsGate
  pub h264_gate : List StreamFpsGate

abbrev fresh_gate : StreamFpsGate
fresh_gate = record { fps = pos 60; last_ns = 0; credit_ns = 0 }

-- The constructor.
pub new : HubManager
new = record {
  viewers = replicate streams 0;
  viewers_h264 = replicate h264_streams 0;
  record_enabled = replicate streams false;
  h265_gate = replicate streams (configure fresh_gate (pos 60));
  h264_gate = replicate h264_streams (configure fresh_gate (pos 60));
}

-- An array access by an `int` index.
abbrev pub at_index {ℓ} : {A : Type ℓ} → List A → ℤ → Option A
at_index xs (pos i) = get_elem? xs i
at_index xs (negsuc i) = none

-- A write through an `int` index, which is in the array.
abbrev pub put_index {ℓ} : {A : Type ℓ} → List A → ℤ → A → List A
put_index xs (pos i) v = set xs i v
put_index xs (negsuc i) v = xs

-- `idx < 0 || idx >= n`
abbrev pub outside : ℤ → ℕ → Bool
outside idx n = ltb_ℤ idx (pos 0) || leb_ℤ (pos n) idx

-- The two array writes of an increment: the gate starts afresh and the viewer is counted.
pub count_viewer : List StreamFpsGate → List ℕ → ℤ → Option (List StreamFpsGate × List ℕ)
count_viewer gates counts idx = elim (at_index gates idx) [
  | none ↦ none
  | some g ↦ elim (at_index counts idx) [
    | none ↦ none
    | some n ↦ some (put_index gates idx (Gate.reset g), put_index counts idx (suc n))
  ]
]

-- `while (cur > 0) { if (compare_exchange(cur, cur - 1)) break; }`: one less, but never below 0.
pub uncount_viewer : List ℕ → ℤ → Option (List ℕ)
uncount_viewer counts idx = elim (at_index counts idx) [
  | none ↦ none
  | some n ↦ some (put_index counts idx (if ltb 0 n then n - 1 else n))
]

pub viewer_inc : HubManager → StreamKey → Option HubManager
unfolding count_viewer
viewer_inc m k = elim (count_viewer m.h265_gate m.viewers (pos (stream_index k))) [
  | none ↦ none
  | some (gates, counts) ↦ some (record m { h265_gate = gates; viewers = counts })
]

pub viewer_dec : HubManager → StreamKey → Option HubManager
unfolding uncount_viewer
viewer_dec m k = elim (uncount_viewer m.viewers (pos (stream_index k))) [
  | none ↦ none
  | some counts ↦ some (record m { viewers = counts })
]

pub want_push : HubManager → StreamKey → Option Bool
want_push m k = elim (at_index m.viewers (pos (stream_index k))) [
  | none ↦ none
  | some n ↦ if ltb 0 n then some true else at_index m.record_enabled (pos (stream_index k))
]

pub set_h265_fps : HubManager → StreamKey → ℤ → Option HubManager
set_h265_fps m k f =
    let idx = pos (stream_index k) in
    if outside idx streams then some m else elim (at_index m.h265_gate idx) [
      | none ↦ none
      | some g ↦ some (record m { h265_gate = put_index m.h265_gate idx (configure g f) })
    ]

pub allow_push_h265 : HubManager → StreamKey → ℕ → Option (HubManager × Bool)
allow_push_h265 m k now_ns =
    let idx = pos (stream_index k) in
    if outside idx streams then some (m, false) else elim (at_index m.h265_gate idx) [
      | none ↦ none
      | some g ↦
          let (g', ok) = allow g now_ns in
          some (record m { h265_gate = put_index m.h265_gate idx g' }, ok)
    ]

pub viewer_inc_h264 : HubManager → StreamKey → Option HubManager
unfolding count_viewer
viewer_inc_h264 m k =
    let idx = h264_index k.g k.v in
    if outside idx h264_streams
    then some m
    else elim (count_viewer m.h264_gate m.viewers_h264 idx) [
      | none ↦ none
      | some (gates, counts) ↦ some (record m { h264_gate = gates; viewers_h264 = counts })
    ]

-- No test of the index here.
pub viewer_dec_h264 : HubManager → StreamKey → Option HubManager
unfolding uncount_viewer
viewer_dec_h264 m k = elim (uncount_viewer m.viewers_h264 (h264_index k.g k.v)) [
  | none ↦ none
  | some counts ↦ some (record m { viewers_h264 = counts })
]

-- Nor here.
pub want_push_h264 : HubManager → StreamKey → Option Bool
want_push_h264 m k = elim (at_index m.viewers_h264 (h264_index k.g k.v)) [
  | none ↦ none
  | some n ↦ some (ltb 0 n)
]

pub set_h264_fps : HubManager → StreamKey → ℤ → Option HubManager
set_h264_fps m k f =
    let idx = h264_index k.g k.v in
    if outside idx h264_streams then some m else elim (at_index m.h264_gate idx) [
      | none ↦ none
      | some g ↦ some (record m { h264_gate = put_index m.h264_gate idx (configure g f) })
    ]

pub allow_push_h264 : HubManager → StreamKey → ℕ → Option (HubManager × Bool)
allow_push_h264 m k now_ns =
    let idx = h264_index k.g k.v in
    if outside idx h264_streams then some (m, false) else elim (at_index m.h264_gate idx) [
      | none ↦ none
      | some g ↦
          let (g', ok) = allow g now_ns in
          some (record m { h264_gate = put_index m.h264_gate idx g' }, ok)
    ]

-- Which H264 hub a key-frame request reaches: only those of the single views.
pub request_idr_h264 : StreamKey → Option ℤ
request_idr_h264 k =
    if ltb (view_index k.v) 1 || ltb 4 (view_index k.v)
    then none
    else let idx = h264_index k.g k.v in if outside idx h264_streams then none else some idx

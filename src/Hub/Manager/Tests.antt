-- ===== src/Hub/Manager/Tests.antt =====
-- The theorems of the hub manager at a new manager, and at hubs that each carried a session.
use k180_project.Base.{ℕ, ◌/◌, ◌≡◌, refl, true, false, List, [], ◌∷◌, some, pos, replicate}
use k180_project.Hub.Keys.{StreamKey, s2, v1234, streams, h264_streams}
use k180_project.Hub.H265.{KeyFrame, Launch, H265HubCreateArgs}
use k180_project.Hub.H265.Balance.{Call, creates, starts, pushes}
use k180_project.Hub.H264.Balance as b264
use k180_project.Hub.Manager.{new}
use k180_project.Hub.Manager.Streams.{stop_all, stop_all_rec, stop_all_h264, request_idr_h265}
use k180_project.Hub.Manager.Shutdown.{
  AllHubs, IsReleased, IsReleasedH264, hubs_after, hubs_h264_after, stop_all-IsReleased,
}
use k180_project.Hub.Manager.Viewers.{IsSized}

abbrev second_wide : StreamKey
second_wide = record { g = s2; v = v1234 }

new-IsSized : IsSized new
unfolding new
new-IsSized = record {
  viewers_len = refl;
  viewers_h264_len = refl;
  record_len = refl;
  h265_len = refl;
  h264_len = refl;
}

abbrev frame_ns : ℕ → ℕ
frame_ns fps = 1000000000 / fps

abbrev all_found : Launch
all_found = record { parsed = true; has_smux = true; has_rawsrc = true; has_enc = true }

abbrev recording : H265HubCreateArgs
recording = record {
  in_w = pos 1920;
  in_h = pos 1080;
  fps = pos 30;
  udp_port = pos 5600;
  enable_record = true;
  record_mp4 = true;
  prefix_empty = false;
  osd_shared = false;
}

abbrev session : List Call
session = creates recording all_found ∷ starts true ∷ pushes 1 1000 true true ∷ []

-- All streams.
abbrev sessions : List (List Call)
sessions = replicate streams session

abbrev sessions_h264 : List (List b264.Call)
sessions_h264 = replicate h264_streams (b264.starts true ∷ [])

abbrev signal : KeyFrame
signal = record {
  has_force_idr = true;
  has_force_key_unit = false;
  has_sinkpad = false;
  event_made = false;
  event_taken = false;
}

stop_all-IsReleased_example :
    AllHubs IsReleased (stop_all (hubs_after frame_ns sessions))
    × AllHubs IsReleasedH264 (stop_all_h264 (hubs_h264_after frame_ns sessions_h264))
    × AllHubs (λ h. h.ledger.refs ≡ 0) (stop_all_rec (hubs_after frame_ns sessions))
    × (request_idr_h265 (stop_all (hubs_after frame_ns sessions)) signal second_wide ≡ some false)
stop_all-IsReleased_example =
    stop_all-IsReleased frame_ns sessions sessions_h264 second_wide signal refl

-- ===== src/Hub/H265/Tests.antt =====
-- Runs of an H265 hub, and its theorems at concrete hubs.
use k180_project.Base.{ℕ, ◌/◌, ◌≡◌, ap, true, false, List, [], ◌∷◌, pos}
use k180_project.Hub.H265.{H265HubCreateArgs, Launch, stop, stop_rec, new, push_nvmm_rgba_buffer}
use k180_project.Hub.H265.Balance.{Balanced, Call, creates, starts, pushes, run, run-new-Balanced}
use k180_project.Hub.H265.Push.{push-Sent}

abbrev all_found : Launch
all_found = record { parsed = true; has_smux = true; has_rawsrc = true; has_enc = true }

abbrev no_rawsrc : Launch
no_rawsrc = record all_found { has_rawsrc = false }

abbrev recording : H265HubCreateArgs
recording = record {
  in_w = pos 1920;
  in_h = pos 1080;
  fps = pos 30;
  udp_port = pos 5600;
  enable_record = true;
  record_mp4 = true;
  prefix_empty = false;
  osd_shared = true;
}

abbrev frame_ns : ℕ → ℕ
frame_ns fps = 1000000000 / fps

abbrev session : List Call
session = creates recording all_found ∷ starts true ∷ pushes 1 1000 true true ∷ []

run-new-Balanced_example :
    let h = run frame_ns new (creates recording no_rawsrc ∷ session) in
    Balanced h
    × ((stop h).ledger.refs ≡ 0)
    × ((stop h).ledger.watches ≡ 0)
    × ((stop_rec h).ledger.refs ≡ 0)
run-new-Balanced_example = run-new-Balanced frame_ns (creates recording no_rawsrc ∷ session)

push-Sent_example :
    (push_nvmm_rgba_buffer frame_ns new 1 1000 true true).1
    ≡ record { unrefs = 1; offered = false; pts = 0; result = false }
unfolding new
push-Sent_example = ap (λ r. r.1) (push-Sent frame_ns new 1 1000 true true)

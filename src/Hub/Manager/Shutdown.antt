-- ===== src/Hub/Manager/Shutdown.antt =====
-- `HubManager` of rtsp_server/src/k180_h265_hub.cpp: what is left after all hubs are stopped.
use k180_project.Base.{
  ℕ, zero, suc, ◌<◌, ◌≡◌, refl, ap, Bool, false, List, [], ◌∷◌, Option, none, some, map, get_elem?,
  length, pos, arith,
}
use k180_project.Hub.Keys.{StreamKey, stream_index, streams}
use k180_project.Hub.H265.{H265Hub, new, stop, KeyFrame, request_idr}
use k180_project.Hub.H265.Balance.{Call, run, run-new-Balanced, pipeline-stop}
use k180_project.Hub.H264.{H264Hub}
use k180_project.Hub.H264 as h264
use k180_project.Hub.H264.Balance as b264
use k180_project.Hub.Manager.{outside}
use k180_project.Hub.Manager.Streams.{stop_all, stop_all_rec, stop_all_h264, request_idr_h265}

-- Each hub of the array.
abbrev pub AllHubs : {H : Type 0} → (H → Type 0) → List H → Type 0
AllHubs P [] = Unit {0}
AllHubs P (h ∷ hs) = P h × AllHubs P hs

abbrev pub IsReleased : H265Hub → Type 0
IsReleased h = (h.ledger.refs ≡ 0) × (h.ledger.watches ≡ 0)

abbrev pub IsReleasedH264 : H264Hub → Type 0
IsReleasedH264 h = (h.refs ≡ 0) × (h.watches ≡ 0)

request_idr-stop : (h : H265Hub) (how : KeyFrame) → request_idr (stop h) how ≡ false
unfolding request_idr
request_idr-stop h how = simp ((pipeline-stop h).0) refl

stream_index-lt : (k : StreamKey) → stream_index k < streams
stream_index-lt k = ground arith

stream_index-inside : (k : StreamKey) → outside (pos (stream_index k)) streams ≡ false
stream_index-inside k = ground arith

idr_at :
    (hubs : List H265Hub) (i : ℕ) (how : KeyFrame)
    → i < length hubs
    → (elim (get_elem? (map stop hubs) i) as (λ x. Option Bool) [
      | none ↦ none
      | some h ↦ some (request_idr h how)
    ])
      ≡ some false
idr_at [] i how l = absurd (ground arith)
idr_at (h ∷ hubs) zero how l = ap some (request_idr-stop h how)
idr_at (h ∷ hubs) (suc i) how l = idr_at hubs i how (ground arith)

module _ (scale_int : ℕ → ℕ) where
  -- The arrays after a history of calls on each hub.
  abbrev pub hubs_after : List (List Call) → List H265Hub
  hubs_after cs = map (run scale_int new) cs

  abbrev pub hubs_h264_after : List (List b264.Call) → List H264Hub
  hubs_h264_after ds = map (b264.run scale_int h264.new) ds

  length-hubs : (cs : List (List Call)) → length (hubs_after cs) ≡ length cs
  length-hubs [] = refl
  length-hubs (c ∷ cs) = ap suc (length-hubs cs)

  in_length :
      (cs : List (List Call)) (i : ℕ)
      → i < streams
      → length cs ≡ streams
      → i < length (hubs_after cs)
  in_length cs i l e = ground (arith, length-hubs cs)

  all-stop : (cs : List (List Call)) → AllHubs IsReleased (stop_all (hubs_after cs))
  unfolding stop_all
  all-stop [] = tt
  all-stop (c ∷ cs) = let b = run-new-Balanced scale_int c in ((b.1, b.2), all-stop cs)

  all-stop_rec :
      (cs : List (List Call)) → AllHubs (λ h. h.ledger.refs ≡ 0) (stop_all_rec (hubs_after cs))
  unfolding stop_all_rec
  all-stop_rec [] = tt
  all-stop_rec (c ∷ cs) = ((run-new-Balanced scale_int c).3, all-stop_rec cs)

  all-stop_h264 :
      (ds : List (List b264.Call)) → AllHubs IsReleasedH264 (stop_all_h264 (hubs_h264_after ds))
  unfolding stop_all_h264
  all-stop_h264 [] = tt
  all-stop_h264 (d ∷ ds) =
      let b = b264.run-new-Balanced_h264 scale_int d in ((b.1, b.2), all-stop_h264 ds)

  -- Whatever was called on each of the hubs of all streams and whatever GStreamer answered: after
  -- `stop_all` and `stop_all_h264` no hub holds a reference or a bus watch, after `stop_all_rec` none holds
  -- a reference; and after `stop_all` of as many hubs as there are streams, a request for a key frame finds
  -- the hub of any stream stopped and asks no encoder.
  pub stop_all-IsReleased :
      (cs : List (List Call)) (ds : List (List b264.Call)) (k : StreamKey) (how : KeyFrame)
      → length cs ≡ streams
      → AllHubs IsReleased (stop_all (hubs_after cs))
        × AllHubs IsReleasedH264 (stop_all_h264 (hubs_h264_after ds))
        × AllHubs (λ h. h.ledger.refs ≡ 0) (stop_all_rec (hubs_after cs))
        × (request_idr_h265 (stop_all (hubs_after cs)) how k ≡ some false)
  unfolding request_idr_h265 stop_all
  stop_all-IsReleased cs ds k how e = (
    all-stop cs,
    all-stop_h264 ds,
    all-stop_rec cs,
    simp (stream_index-inside k) (
        idr_at (hubs_after cs) (stream_index k) how
          (in_length cs (stream_index k) (stream_index-lt k) e)),
  )

-- ===== src/Hub/Manager/Streams.antt =====
-- `HubManager` of rtsp_server/src/k180_h265_hub.cpp: the calls that go to the hubs of all streams.
use k180_project.Base.{Bool, false, List, Option, none, some, map, pos, if◌then◌else◌}
use k180_project.Hub.Keys.{StreamKey, stream_index, streams}
use k180_project.Hub.H265.{H265Hub, stop, stop_rec, KeyFrame, request_idr}
use k180_project.Hub.H264.{H264Hub}
use k180_project.Hub.H264 as h264
use k180_project.Hub.Manager.{at_index, outside}

unfoldable pub stop_all : List H265Hub → List H265Hub
stop_all hubs = map stop hubs

unfoldable pub stop_all_rec : List H265Hub → List H265Hub
stop_all_rec hubs = map stop_rec hubs

unfoldable pub stop_all_h264 : List H264Hub → List H264Hub
stop_all_h264 hubs_h264 = map h264.stop hubs_h264

-- The answer of the hub's encoder, which the source drops; `none` for an index out of the array.
unfoldable pub request_idr_h265 : List H265Hub → KeyFrame → StreamKey → Option Bool
request_idr_h265 hubs how k =
    let idx = pos (stream_index k) in
    if outside idx streams
    then some false
    else elim (at_index hubs idx) [ none ↦ none | some h ↦ some (request_idr h how) ]

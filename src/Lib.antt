-- ===== src/Lib.antt =====
-- A model of the K180 panorama camera server (rtsp_server/), with the theorems that make its
-- core correct. The server takes frames from four cameras through threads that are stages of a
-- pipeline, stitches them, runs a detector, draws what it finds and sends each stream through
-- GStreamer hubs to RTSP viewers and recordings. The parts modelled, and their files:
--
-- - Queue: rtsp_server/include/k180_stage_queue.h, the bounded queue between two stages. One
--   function for each method; a call is atomic under the mutex, and `cv_.wait` is the answer
--   `waits` when its predicate does not hold.
-- - Ring: rtsp_server/include/k180_gst_ringbuf.h, the slots whose memory GStreamer buffers borrow; no
--   source file includes it yet. Ring.Interleaved takes its calls apart into their atomic steps.
-- - Sync: rtsp_server/include/k180_stage_sync.h, the sequence counter on which a stage sleeps and
--   the mask that joins the four workers.
-- - Tracker.Service: rtsp_server/src/k180_nvtracker.cpp, the state machine of one followed object;
--   Tracker.Bridge: rtsp_server/src/k180_nvtracker_bridge.cpp, which binds a clicked detection to a
--   track of the tracker. A system of both is a pair, and each call of the bridge is one step of it.
-- - Ai: rtsp_server/src/k180_ai_runtime.cpp, the modes of detection and tracking.
-- - Hub.Keys, Hub.Gate, Hub.Stamp: the stream names of rtsp_server/include/k180_stream_key.h, the
--   frame-rate gate of include/k180_h265_hub.h, and the time stamps that both hubs write.
-- - Hub.H265, Hub.H264: rtsp_server/src/k180_h265_hub.cpp and src/k180_h264_hub.cpp, the life cycle
--   of a hub and its push. A GStreamer object is null or not, and a ledger counts the references and
--   watches taken and given back. Hub.Manager: viewers, flags and gates of all streams, and the calls
--   that go to the hubs of all streams.
-- - Osd, Osd.Slots: rtsp_server/src/k180_osd_slots.cpp, the latest result, that the overlay falls
--   back to, and the slots in which results are awaited.
-- - Osd.Alloc: the CUDA buffers that the slots own and when they are freed (same source). Osd.Probe:
--   rtsp_server/src/k180_osd_probe.cpp, the probe that looks up the metadata of a frame and counts.
-- - Track: rtsp_server/src/k180_tracking.cpp, the table of followed objects with its ageing.
-- - Tuner: rtsp_server/src/k180_bright_tuner.cpp, the controller of exposure and gain. Tuner.Measure
--   and Tuner.Probe give it its brightness, Tuner.Pending is what it leaves for the camera threads.
-- - Cleanup: rtsp_server/src/k180_record_cleanup.cpp, the deletion of old recordings on a full disk.
-- - Config: rtsp_server/src/user_cfg_validate.cpp and src/user_cfg_postprocess.cpp.
-- - Firmware: gen_fw/host_tools/gen_fw_enc.c and gen_fw/device_tools/gen_fw_dec.c, the packing of a
--   firmware file; Firmware.Install: the steps that put the two new files in place.
-- - Rest: restful_api/src/restful_api_server.c, the server of the settings and the recordings.
--   Rest.Query and Rest.Update are the checks on queries, Rest.Session the tokens, Rest.FileName the
--   names of recordings, Rest.Handler `handler` and the functions it calls. It writes the settings
--   file; the camera server reads the same settings, which Config checks.
--
-- Base holds the names that all share: tests on the native numbers, lists, words that wrap at 2^32
-- and 2^64, signed integers. Detection is the detector's record (rtsp_server/yolo_inc_new/types.h).
-- A stage's queue and its event meet in the main programs, which call them as they are; the hub manager
-- owns the gates and counts, which index by Hub.Keys; both hubs stamp by Hub.Stamp.
--
-- State is a record and an operation returns the next state with its answer. A history of calls is a
-- list that `run` goes through, in the order in which the calls get the mutex, or take their atomic
-- step. Undefined behaviour, such as an index out of an array, is `none`. The loops of the source
-- run over lists or down a count (`find_free` makes at most as many rounds as there are slots), so
-- none needs fuel. C++ `int` is ℤ without overflow where the source only compares it.
--
-- Parameters, as code not in the repository: floating point numbers (Floats), GStreamer's answers
-- (a parsed pipeline, an element found, a buffer taken), `gst_util_uint64_scale_int`, the clock,
-- `inet_pton`, `fabs`, the calls on files and directories, OpenSSL, CUDA's allocation, json-c with the
-- law of its insertion and strings that may be null, `crypt`, and what standard streams write. Not
-- modelled: pixels and CUDA kernels, the network definitions, sockets, the client service, the recorder,
-- the RTSP server's set-up, the main programs, the loader of the settings, the set-up of the REST server
-- (`main`, `renew_ver_info`) and the texts it sends, log texts, the system helpers and the web pages.
-- Kernels and networks compute on pixels, and the others mostly hand data to other libraries.
pub mod Ai
pub mod Base
pub mod Config
pub mod Detection
pub mod Hub
pub mod Osd
pub mod Queue
pub mod Rest
pub mod Ring
pub mod Sync
pub mod Track
pub mod Tracker
pub mod Tuner
pub mod Cleanup
pub mod Firmware

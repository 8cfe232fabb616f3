-- ===== src/Hub.antt =====
-- The encoder hubs, one for each stream and codec, and their manager: rtsp_server/src/k180_h265_hub.cpp,
-- k180_h264_hub.cpp and their headers, with the stream keys of include/k180_stream_key.h.
pub mod Keys
pub mod Gate
pub mod Stamp
pub mod H265
pub mod H264
pub mod Manager

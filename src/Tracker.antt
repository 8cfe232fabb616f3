-- ===== src/Tracker.antt =====
-- Click-to-track: the service that holds the tracking state, and the bridge that feeds it with the
-- tracker's outputs (rtsp_server/src/k180_nvtracker.cpp, k180_nvtracker_bridge.cpp and their headers).
pub mod Service
pub mod Bridge

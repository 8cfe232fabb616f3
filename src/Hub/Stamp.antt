-- ===== src/Hub/Stamp.antt =====
-- The time stamps that both hubs give to the buffers they push: the middle of `push_nvmm_rgba_buffer`
-- in rtsp_server/src/k180_h265_hub.cpp and k180_h264_hub.cpp. One producer pushes to a hub, so the
-- compare-exchange on `t0_ns_` succeeds whenever it is tried.
pub mod Monotonic
mod Tests
use k180_project.Base.{ℕ, ◌*◌, ◌/◌, leb, ◌==◌, if◌then◌else◌, add64, sub64}

pub record Clock : Type 0 where
  pub t0_ns : ℕ
  pub last_pts : ℕ

pub init_t0 : Clock → ℕ → Clock
init_t0 c now = if c.t0_ns == 0 then record c { t0_ns = now; last_pts = 0 } else c

stamp_from : Clock → ℕ → ℕ → ℕ × Clock
stamp_from c now dur =
    let q = sub64 now c.t0_ns / dur * dur in
    let pts = if leb q c.last_pts then add64 c.last_pts dur else q in
    (pts, record c { last_pts = pts })

-- The presentation time of a buffer that comes at `now`, with frames of `dur` nanoseconds.
unfoldable pub stamp : Clock → ℕ → ℕ → ℕ × Clock
unfolding init_t0 stamp_from
stamp c now dur = stamp_from (init_t0 c now) now dur

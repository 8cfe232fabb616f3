-- ===== src/Sync.antt =====
-- rtsp_server/include/k180_stage_sync.h: the sequence counter that wakes a stage, and the mask that
-- joins four workers. Each method runs under its mutex; `stop` is the shared stop flag as it is read
-- there. A wait whose condition does not hold yet is `waits`.
pub mod Event
pub mod Join
mod Tests
use Prim.Native.Nat.{bit_or}
use k180_project.Base.{ℕ, ◌^◌, Bool, true, false, ◌||◌, ltb, ◌==◌, if◌then◌else◌, add32}

pub data Wait : Type 0 where
  proceeds stops waits : Wait

pub record StageEvent : Type 0 where
  pub seq : ℕ

-- `signal` and `signal_all` differ only in how many waiters they wake to look again.
pub signal : StageEvent → StageEvent
signal e = record e { seq = add32 e.seq 1 }

-- The second component is `last_seen` afterwards.
pub wait : StageEvent → ℕ → Bool → Wait × ℕ
wait e last_seen stop =
    if stop || ltb last_seen e.seq
    then (if stop then (stops, last_seen) else (proceeds, e.seq))
    else (waits, last_seen)

pub record StageEventJoin : Type 0 where
  pub done_mask : ℕ

abbrev pub all_done : ℕ
all_done = 15

pub signal_id : StageEventJoin → ℕ → StageEventJoin
signal_id j id = record j { done_mask = bit_or j.done_mask (2 ^ id) }

pub wait_all : StageEventJoin → Bool → Wait × StageEventJoin
wait_all j stop =
    if stop || j.done_mask == all_done
    then (if stop then (stops, j) else (proceeds, record j { done_mask = 0 }))
    else (waits, j)

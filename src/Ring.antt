-- ===== src/Ring.antt =====
-- rtsp_server/include/k180_gst_ringbuf.h: the ring of frame slots lent to GStreamer buffers.
-- The functions here are calls that run with no other in between; Ring/Interleaved.antt takes their atomic
-- steps apart, for one producer and releases on any threads. No source file includes the header. The pixels
-- of a slot are not modelled: a slot is named by its index. `none` for `inuse` is the null `inuse_` pointer.
pub mod Inv
pub mod Acquire
pub mod Interleaved
mod Tests
use k180_project.Base.{
  ℕ, zero, suc, ◌+◌, ◌-◌, ◌%◌, Bool, true, false, ◌||◌, List, [], ◌∷◌, Option, none, some, leb, ltb,
  ◌==◌, if◌then◌else◌, get_or, set, replicate, add32, sub32, add64,
}

pub record FrameRing : Type 0 where
  pub slots : ℕ
  pub bytes : ℕ
  pub inuse : Option (List Bool)
  pub wr : ℕ
  pub acquire_fail : ℕ
  pub acquire_ok : ℕ
  pub inuse_now : ℕ
  pub inuse_max : ℕ

-- A ring as it is constructed.
pub empty_ring : FrameRing
empty_ring = record {
  slots = 0;
  bytes = 0;
  inuse = none;
  wr = 0;
  acquire_fail = 0;
  acquire_ok = 0;
  inuse_now = 0;
  inuse_max = 0;
}

pub reset_stats : FrameRing → FrameRing
reset_stats r = record r { acquire_fail = 0; acquire_ok = 0; inuse_now = 0; inuse_max = 0 }

pub init : FrameRing → ℕ → ℕ → FrameRing × Bool
unfolding reset_stats
init r slots bytes_per_frame = if slots == 0 || bytes_per_frame == 0 then (r, false) else (
  reset_stats (record r {
    slots = slots;
    bytes = bytes_per_frame;
    inuse = some (replicate slots false);
    wr = 0;
  }),
  true,
)

-- The loop `for (k = 0; k < slots_; ++k)`: the first index `(start + k) % slots` whose flag is clear,
-- after `k` rounds with `left` to go.
pub find_free : List Bool → ℕ → ℕ → ℕ → ℕ → Option ℕ
find_free flags slots start k zero = none
find_free flags slots start k (suc left) =
    let rest = find_free flags slots start (k + 1) left in
    if get_or flags ((start + k) % slots) true then rest else some ((start + k) % slots)

-- The compare-exchange that takes a slot.
pub take_flag : FrameRing → ℕ → List Bool → FrameRing
take_flag r i flags = record r { inuse = some (set flags i true) }

-- The stores that follow, up to the `fetch_add` on `inuse_now`; what that gives is `now`. Only the producer
-- writes `wr` and `acquire_ok`.
pub count_now : FrameRing → ℕ → FrameRing
count_now r i = record r {
  wr = (i + 1) % r.slots;
  acquire_ok = add64 r.acquire_ok 1;
  inuse_now = add32 r.inuse_now 1;
}

-- The compare-exchange loop stores the larger value; only the producer writes the maximum.
pub raise_max : FrameRing → ℕ → FrameRing
raise_max r now = record r { inuse_max = if ltb r.inuse_max now then now else r.inuse_max }

-- The steps of a successful acquire, with nothing in between.
pub count_acquire : FrameRing → ℕ → List Bool → FrameRing
unfolding take_flag count_now raise_max
count_acquire r i flags =
    let counted = count_now (take_flag r i flags) i in raise_max counted counted.inuse_now

acquire_from : FrameRing → List Bool → FrameRing × Option ℕ
unfolding count_acquire
acquire_from r flags = elim (find_free flags r.slots r.wr 0 r.slots) [
  | none ↦ (record r { acquire_fail = add64 r.acquire_fail 1 }, none)
  | some i ↦ (count_acquire r i flags, some i)
]

-- The caller passes a non-null `out_idx`; the index is what it holds afterwards.
pub try_acquire_slot : FrameRing → FrameRing × Option ℕ
unfolding acquire_from
try_acquire_slot r =
    if r.slots == 0
    then (r, none)
    else elim r.inuse [ none ↦ (r, none) | some flags ↦ acquire_from r flags ]

-- The exchange on the flag, and the `fetch_sub` that follows where the flag was set.
pub clear_flag : FrameRing → ℕ → List Bool → FrameRing
clear_flag r idx flags = record r { inuse = some (set flags idx false) }

pub drop_now : FrameRing → FrameRing
drop_now r = record r { inuse_now = sub32 r.inuse_now 1 }

release_in : FrameRing → ℕ → List Bool → FrameRing
unfolding clear_flag drop_now
release_in r idx flags =
    let cleared = clear_flag r idx flags in
    if get_or flags idx false then drop_now cleared else cleared

pub release_slot : FrameRing → ℕ → FrameRing
unfolding release_in
release_slot r idx =
    if leb r.slots idx then r else elim r.inuse [ none ↦ r | some flags ↦ release_in r idx flags ]

-- `gst_buffer_new_wrapped_full` is GStreamer's: `made` says whether it returned a buffer.
pub wrap_slot_as_buffer : FrameRing → ℕ → ℕ → Bool → FrameRing × Option ℕ
wrap_slot_as_buffer r idx valid_size made = if leb r.slots idx then (r, none) else elim r.inuse [
  | none ↦ (r, none)
  | some flags ↦ if ltb r.bytes valid_size then (r, none) else if made then (r, some idx) else (
    record r {
      inuse = some (set flags idx false);
      inuse_now = if ltb 0 r.inuse_now then sub32 r.inuse_now 1 else r.inuse_now;
    },
    none,
  )
]

-- The callback that GStreamer runs when it frees the wrapped buffer of a slot.
pub free_cookie_cb : FrameRing → ℕ → FrameRing
unfolding release_slot
free_cookie_cb r idx = release_slot r idx

pub reset : FrameRing → FrameRing
reset r = record r { wr = 0; inuse = none; slots = 0; bytes = 0 }

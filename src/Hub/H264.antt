-- ===== src/Hub/H264.antt =====
-- `H264Hub` of rtsp_server/src/k180_h264_hub.cpp: the life of one encoder pipeline. GStreamer's objects
-- are not modelled: a pointer is the Boolean that says it is not null, and the hub counts the references
-- and the bus watches that it holds. What GStreamer answers is an argument. The text of the pipeline
-- description and the log lines are left out. This hub neither records nor draws.
pub mod Balance
mod Tests
use k180_project.Base.{
  ℕ, zero, suc, ◌+◌, ◌-◌, Bool, true, false, ◌&&◌, ◌||◌, not, ℤ, pos, leb_ℤ, pos_part,
  if◌then◌else◌, ◌==◌,
}
use k180_project.Hub.Stamp.{Clock, stamp}

pub record H264HubCreateArgs : Type 0 where
  pub in_w : ℤ
  pub in_h : ℤ
  pub fps : ℤ
  pub udp_port : ℤ

pub record H264Hub : Type 0 where
  pub pipeline : Bool
  pub rawsrc : Bool
  pub enc : Bool
  pub bus : Bool
  pub clock : Clock
  pub args : H264HubCreateArgs
  pub started : Bool
  pub refs : ℕ
  pub watches : ℕ

-- GStreamer's answers while a pipeline is created: `gst_parse_launch`, and the two elements by name.
pub record Launch : Type 0 where
  pub parsed : Bool
  pub has_rawsrc : Bool
  pub has_enc : Bool

abbrev pub one_if : Bool → ℕ
one_if true = 1
one_if false = 0

abbrev pub add_refs : H264Hub → ℕ → H264Hub
add_refs h n = record h { refs = h.refs + n }

abbrev pub drop_refs : H264Hub → ℕ → H264Hub
drop_refs h n = record h { refs = h.refs - n }

release_bus : H264Hub → H264Hub
release_bus h =
    if h.bus then record h { bus = false; refs = h.refs - 1; watches = h.watches - 1 } else h

pub release_rawsrc : H264Hub → H264Hub
release_rawsrc h = if h.rawsrc then drop_refs (record h { rawsrc = false }) 1 else h

release_enc : H264Hub → H264Hub
release_enc h = if h.enc then drop_refs (record h { enc = false }) 1 else h

pub release_pipeline : H264Hub → H264Hub
release_pipeline h = drop_refs (record h { pipeline = false }) 1

pub cleanup_ : H264Hub → H264Hub
unfolding release_bus release_rawsrc release_enc release_pipeline
cleanup_ h =
    if not h.pipeline then h else release_pipeline (release_enc (release_rawsrc (release_bus h)))

pub stop : H264Hub → H264Hub
unfolding cleanup_
stop h = cleanup_ (record h { started = false })

-- `gst_object_unref(pipeline); pipeline = nullptr; return false;`
pub give_up : H264Hub → H264Hub × Bool
unfolding release_pipeline
give_up h = (release_pipeline h, false)

pub watch_bus : H264Hub → H264Hub × Bool
watch_bus h = (
  record h {
    bus = true;
    clock = record { t0_ns = 0; last_pts = 0 };
    refs = h.refs + 1;
    watches = h.watches + 1;
  },
  true,
)

pub find_enc : H264Hub → Launch → H264Hub × Bool
find_enc h l =
    if l.has_enc
    then watch_bus (add_refs (record h { enc = true }) 1)
    else give_up (release_rawsrc (record h { enc = false }))

pub find_rawsrc : H264Hub → Launch → H264Hub × Bool
find_rawsrc h l =
    if l.has_rawsrc
    then find_enc (add_refs (record h { rawsrc = true }) 1) l
    else give_up (record h { rawsrc = false })

pub launch : H264Hub → Launch → H264Hub × Bool
launch h l =
    if l.parsed
    then find_rawsrc (add_refs (record h { pipeline = true }) 1) l
    else (record h { pipeline = false }, false)

pub create_checked : H264Hub → H264HubCreateArgs → Launch → H264Hub × Bool
create_checked h a l = if leb_ℤ a.udp_port (pos 0) then (h, false) else launch h l

pub stop_first : H264Hub → H264Hub
stop_first h = if h.pipeline then stop h else h

pub create : H264Hub → H264HubCreateArgs → Launch → H264Hub × Bool
create h a l = create_checked (record (stop_first h) { args = a }) a l

-- `playing` is whether `gst_element_set_state` did not fail.
pub start : H264Hub → Bool → H264Hub × Bool
start h playing =
    if not h.pipeline
    then (h, false)
    else if not playing
    then (h, false)
    else (record h { started = true }, true)

-- The ways to ask an encoder for a key frame: an action signal of either name, or an event to its pad.
pub record KeyFrame : Type 0 where
  pub has_force_idr : Bool
  pub has_force_key_unit : Bool
  pub has_sinkpad : Bool
  pub event_made : Bool
  pub event_taken : Bool

pub request_idr : H264Hub → KeyFrame → Bool
request_idr h k =
    if not h.pipeline || not h.enc
    then false
    else if not h.started
    then false
    else if k.has_force_idr
    then true
    else if k.has_force_key_unit
    then true
    else if k.has_sinkpad
    then (if k.event_made then k.event_taken else false)
    else false

-- What becomes of the caller's buffer: how often the hub gives up its reference, whether it is handed
-- to `appsrc`, and the stamp it carries then.
pub record Sent : Type 0 where
  pub unrefs : ℕ
  pub offered : Bool
  pub pts : ℕ
  pub result : Bool

pub refused : ℕ → Sent
refused n = record { unrefs = n; offered = false; pts = 0; result = false }

pub offer : H264Hub → ℕ → ℕ → Bool → H264Hub × Sent
offer h now dur push_ok =
    let (pts, clock') = stamp h.clock now dur in
    (
      record h { clock = clock' },
      record { unrefs = if push_ok then 0 else 1; offered = true; pts = pts; result = push_ok },
    )

-- `scale_int` is `gst_util_uint64_scale_int(1, GST_SECOND, fps)`; `paused` is whether the pipeline has
-- reached PAUSED, and `push_ok` whether `gst_app_src_push_buffer` returns GST_FLOW_OK.
pub push_nvmm_rgba_buffer :
    (ℕ → ℕ) → H264Hub → (buf now : ℕ) → (paused push_ok : Bool) → H264Hub × Sent
unfolding refused offer
push_nvmm_rgba_buffer scale_int h buf now paused push_ok =
    if buf == 0
    then (h, refused 0)
    else if not h.started
        || not h.pipeline
        || not h.rawsrc
        || leb_ℤ h.args.in_w (pos 0)
        || leb_ℤ h.args.in_h (pos 0)
        || leb_ℤ h.args.fps (pos 0)
    then (h, refused 1)
    else let dur = scale_int (pos_part h.args.fps) in
      if dur == 0
      then (h, refused 1)
      else if not paused
      then (h, refused 1)
      else offer h now dur push_ok

-- A hub as it is constructed.
pub new : H264Hub
new = record {
  pipeline = false;
  rawsrc = false;
  enc = false;
  bus = false;
  clock = record { t0_ns = 0; last_pts = 0 };
  args = record { in_w = pos 1920; in_h = pos 1080; fps = pos 30; udp_port = pos 0 };
  started = false;
  refs = 0;
  watches = 0;
}

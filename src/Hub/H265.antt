-- ===== src/Hub/H265.antt =====
-- `H265Hub` of rtsp_server/src/k180_h265_hub.cpp: the life of one encoder pipeline. GStreamer's objects
-- are not modelled: a pointer is the Boolean that says it is not null, and a ledger counts the
-- references and the bus watches that the hub holds, the EOS events sent, and the sets of OSD slots
-- that it has had allocated. What GStreamer answers is an argument. The text of the pipeline
-- description, the log lines and the debug probes (off in the build) are left out.
pub mod Balance
pub mod Push
mod Tests
use k180_project.Base.{
  ℕ, zero, suc, ◌+◌, ◌-◌, Bool, true, false, ◌&&◌, ◌||◌, not, ℤ, pos, leb_ℤ, pos_part,
  if◌then◌else◌, ◌==◌,
}
use k180_project.Hub.Stamp.{Clock, stamp}

pub record H265HubCreateArgs : Type 0 where
  pub in_w : ℤ
  pub in_h : ℤ
  pub fps : ℤ
  pub udp_port : ℤ
  pub enable_record : Bool
  pub record_mp4 : Bool
  pub prefix_empty : Bool
  pub osd_shared : Bool

-- What the hub owes: `osd_live` says that the shared slots are allocated, `osd_lost` counts the sets
-- that were overwritten while allocated.
pub record Ledger : Type 0 where
  pub refs : ℕ
  pub watches : ℕ
  pub eos_sent : ℕ
  pub osd_live : Bool
  pub osd_lost : ℕ

pub record H265Hub : Type 0 where
  pub pipeline : Bool
  pub rawsrc : Bool
  pub enc : Bool
  pub bus : Bool
  pub clock : Clock
  pub args : H265HubCreateArgs
  pub started : Bool
  pub osd_shared : Bool
  pub ledger : Ledger

-- GStreamer's answers while a pipeline is created: `gst_parse_launch`, and the three elements by name.
pub record Launch : Type 0 where
  pub parsed : Bool
  pub has_smux : Bool
  pub has_rawsrc : Bool
  pub has_enc : Bool

abbrev pub one_if : Bool → ℕ
one_if true = 1
one_if false = 0

abbrev pub add_refs : H265Hub → ℕ → H265Hub
add_refs h n = record h { ledger = record (h.ledger) { refs = h.ledger.refs + n } }

abbrev pub drop_refs : H265Hub → ℕ → H265Hub
drop_refs h n = record h { ledger = record (h.ledger) { refs = h.ledger.refs - n } }

-- `osd_init_slots` clears the vectors that held the slots, without freeing what they held.
pub init_osd : H265Hub → H265Hub
init_osd h =
    if h.osd_shared
    then record h {
      ledger = record (h.ledger) {
        osd_live = true;
        osd_lost = h.ledger.osd_lost + one_if h.ledger.osd_live;
      };
    }
    else h

-- `osd_reset_all_results` and `osd_destroy_slots`.
destroy_osd : H265Hub → H265Hub
destroy_osd h =
    if h.osd_shared then record h { ledger = record (h.ledger) { osd_live = false } } else h

release_bus : H265Hub → H265Hub
release_bus h =
    if h.bus
    then record h {
      bus = false;
      ledger = record (h.ledger) { refs = h.ledger.refs - 1; watches = h.ledger.watches - 1 };
    }
    else h

pub release_rawsrc : H265Hub → H265Hub
release_rawsrc h = if h.rawsrc then drop_refs (record h { rawsrc = false }) 1 else h

release_enc : H265Hub → H265Hub
release_enc h = if h.enc then drop_refs (record h { enc = false }) 1 else h

pub release_pipeline : H265Hub → H265Hub
release_pipeline h = drop_refs (record h { pipeline = false }) 1

pub cleanup_ : H265Hub → H265Hub
unfolding release_bus release_rawsrc release_enc destroy_osd release_pipeline
cleanup_ h =
    if not h.pipeline
    then h
    else release_pipeline (destroy_osd (release_enc (release_rawsrc (release_bus h))))

pub stop : H265Hub → H265Hub
unfolding cleanup_
stop h = cleanup_ (record h { started = false })

-- `gst_object_unref(pipeline); pipeline = nullptr; return false;`
pub give_up : H265Hub → H265Hub × Bool
unfolding release_pipeline
give_up h = (release_pipeline h, false)

pub watch_bus : H265Hub → H265Hub × Bool
watch_bus h = (
  record h {
    bus = true;
    clock = record { t0_ns = 0; last_pts = 0 };
    ledger = record (h.ledger) { refs = h.ledger.refs + 1; watches = h.ledger.watches + 1 };
  },
  true,
)

pub find_enc : H265Hub → Launch → H265Hub × Bool
find_enc h l =
    if l.has_enc
    then watch_bus (add_refs (record h { enc = true }) 1)
    else give_up (release_rawsrc (record h { enc = false }))

pub find_rawsrc : H265Hub → Launch → H265Hub × Bool
find_rawsrc h l =
    if l.has_rawsrc
    then find_enc (add_refs (record h { rawsrc = true }) 1) l
    else give_up (record h { rawsrc = false })

-- The reference to `smux` is taken and given back at once.
pub connect_smux : H265Hub → Launch → H265Hub × Bool
connect_smux h l =
    if h.args.enable_record && h.args.record_mp4
    then (if l.has_smux then find_rawsrc h l else give_up h)
    else find_rawsrc h l

pub launch : H265Hub → Launch → H265Hub × Bool
launch h l =
    if l.parsed
    then connect_smux (init_osd (add_refs (record h { pipeline = true }) 1)) l
    else (record h { pipeline = false }, false)

pub create_checked : H265Hub → H265HubCreateArgs → Launch → H265Hub × Bool
create_checked h a l =
    if a.enable_record && a.prefix_empty
    then (h, false)
    else if leb_ℤ a.udp_port (pos 0)
    then (h, false)
    else launch h l

pub stop_first : H265Hub → H265Hub
stop_first h = if h.pipeline then stop h else h

pub create : H265Hub → H265HubCreateArgs → Launch → H265Hub × Bool
create h a l = create_checked (record (stop_first h) { args = a; osd_shared = a.osd_shared }) a l

-- `playing` is whether `gst_element_set_state` did not fail.
pub start : H265Hub → Bool → H265Hub × Bool
start h playing =
    if not h.pipeline
    then (h, false)
    else if not playing
    then (h, false)
    else (record h { started = true }, true)

send_eos : H265Hub → H265Hub
send_eos h =
    if h.args.enable_record && h.rawsrc
    then record h { ledger = record (h.ledger) { eos_sent = h.ledger.eos_sent + 1 } }
    else h

-- The wait for the end of the recording changes nothing here: the message that comes is given back.
pub stop_rec : H265Hub → H265Hub
unfolding cleanup_ send_eos
stop_rec h =
    if not h.pipeline
    then record h { started = false }
    else cleanup_ (send_eos (record h { started = false }))

-- The ways to ask an encoder for a key frame: an action signal of either name, or an event to its pad.
pub record KeyFrame : Type 0 where
  pub has_force_idr : Bool
  pub has_force_key_unit : Bool
  pub has_sinkpad : Bool
  pub event_made : Bool
  pub event_taken : Bool

unfoldable pub request_idr : H265Hub → KeyFrame → Bool
request_idr h k =
    if not h.pipeline || not h.enc
    then false
    else if not h.started
    then false
    else if k.has_force_idr
    then true
    else if k.has_force_key_unit
    then true
    else if k.has_sinkpad
    then (if k.event_made then k.event_taken else false)
    else false

-- What becomes of the caller's buffer: how often the hub gives up its reference, whether it is handed
-- to `appsrc`, and the stamp it carries then.
pub record Sent : Type 0 where
  pub unrefs : ℕ
  pub offered : Bool
  pub pts : ℕ
  pub result : Bool

pub refused : ℕ → Sent
refused n = record { unrefs = n; offered = false; pts = 0; result = false }

pub offer : H265Hub → ℕ → ℕ → Bool → H265Hub × Sent
offer h now dur push_ok =
    let (pts, clock') = stamp h.clock now dur in
    (
      record h { clock = clock' },
      record { unrefs = if push_ok then 0 else 1; offered = true; pts = pts; result = push_ok },
    )

-- `scale_int` is `gst_util_uint64_scale_int(1, GST_SECOND, fps)`; `paused` is whether the pipeline has
-- reached PAUSED, and `push_ok` whether `gst_app_src_push_buffer` returns GST_FLOW_OK.
pub push_nvmm_rgba_buffer :
    (ℕ → ℕ) → H265Hub → (buf now : ℕ) → (paused push_ok : Bool) → H265Hub × Sent
unfolding refused offer
push_nvmm_rgba_buffer scale_int h buf now paused push_ok =
    if buf == 0
    then (h, refused 0)
    else if not h.started
        || not h.pipeline
        || not h.rawsrc
        || leb_ℤ h.args.in_w (pos 0)
        || leb_ℤ h.args.in_h (pos 0)
        || leb_ℤ h.args.fps (pos 0)
    then (h, refused 1)
    else let dur = scale_int (pos_part h.args.fps) in
      if dur == 0
      then (h, refused 1)
      else if not paused
      then (h, refused 1)
      else offer h now dur push_ok

-- A hub as it is constructed.
pub new : H265Hub
new = record {
  pipeline = false;
  rawsrc = false;
  enc = false;
  bus = false;
  clock = record { t0_ns = 0; last_pts = 0 };
  args = record {
    in_w = pos 1920;
    in_h = pos 1080;
    fps = pos 30;
    udp_port = pos 5600;
    enable_record = false;
    record_mp4 = true;
    prefix_empty = true;
    osd_shared = false;
  };
  started = false;
  osd_shared = false;
  ledger = record { refs = 0; watches = 0; eos_sent = 0; osd_live = false; osd_lost = 0 };
}

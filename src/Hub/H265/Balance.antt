-- ===== src/Hub/H265/Balance.antt =====
-- What an H265 hub holds of GStreamer between two calls, and what a failed `create` leaves behind.
use k180_project.Base.{
  ℕ, ◌+◌, ◌<◌, ◌≡◌, refl, ◌∙◌, Bool, true, false, ◌&&◌, List, [], ◌∷◌, arith, pos, leb_ℤ,
  if◌then◌else◌, Bool-cases, inl, inr,
}
use k180_project.Hub.H265.{
  H265Hub, H265HubCreateArgs, Launch, one_if, add_refs, stop, create, start, stop_rec,
  push_nvmm_rgba_buffer, new, launch, give_up, find_enc, find_rawsrc, connect_smux, init_osd,
  watch_bus, release_rawsrc, create_checked, stop_first,
}

-- The four pointers are null together, and each that is not holds one reference; the bus has a watch
-- exactly while it is held; only a hub with a pipeline is started.
pub record Balanced (h : H265Hub) : Type 0 where
  pub together : (h.rawsrc ≡ h.pipeline) × (h.enc ≡ h.pipeline) × (h.bus ≡ h.pipeline)
  pub refs : h.ledger.refs ≡ (if h.pipeline then 4 else 0)
  pub watches : h.ledger.watches ≡ one_if h.pipeline
  pub running : h.started ≡ true → h.pipeline ≡ true

stop-Balanced : (h : H265Hub) → Balanced h → Balanced (stop h)
unfolding stop
stop-Balanced h v = ground arith

stop_rec-Balanced : (h : H265Hub) → Balanced h → Balanced (stop_rec h)
unfolding stop_rec
stop_rec-Balanced h v = ground arith

start-Balanced : (h : H265Hub) (playing : Bool) → Balanced h → Balanced (start h playing).0
unfolding start
start-Balanced h playing v = ground arith

push-Balanced :
    (scale_int : ℕ → ℕ) (h : H265Hub) (buf now : ℕ) (paused push_ok : Bool)
    → Balanced h
    → Balanced (push_nvmm_rgba_buffer scale_int h buf now paused push_ok).0
unfolding push_nvmm_rgba_buffer
push-Balanced scale_int h buf now paused push_ok v = ground arith

-- A stopped hub whose pointers are as given, with a reference for each that is not null.
record Holds (pipeline rawsrc enc bus : Bool) (h : H265Hub) : Type 0 where
  pointers : (h.pipeline ≡ pipeline) × (h.rawsrc ≡ rawsrc) × (h.enc ≡ enc) × (h.bus ≡ bus)
  counts :
      (h.ledger.refs ≡ one_if pipeline + one_if rawsrc + one_if enc + one_if bus)
      × (h.ledger.watches ≡ one_if bus)
  idle : h.started ≡ false

stop-Holds : (h : H265Hub) → Balanced h → h.pipeline ≡ true → Holds false false false false (stop h)
unfolding stop
stop-Holds h v on = ground arith

off-Holds : (h : H265Hub) → Balanced h → h.pipeline ≡ false → Holds false false false false h
off-Holds h v off = ground arith

stop_first-Holds : (h : H265Hub) → Balanced h → Holds false false false false (stop_first h)
unfolding stop_first
stop_first-Holds h v = elim (Bool-cases h.pipeline) [
  | inl on ↦ simp (on, stop_first) (stop-Holds h v on)
  | inr off ↦ simp (off, stop_first) (off-Holds h v off)
]

pub pipeline-stop : (h : H265Hub) → ((stop h).pipeline ≡ false) × ((stop_rec h).pipeline ≡ false)
unfolding stop stop_rec
pipeline-stop h = (ground arith, ground arith)

give_up-Balanced : (h : H265Hub) → Holds true false false false h → Balanced (give_up h).0
unfolding give_up
give_up-Balanced h v = ground arith

find_enc-Balanced :
    (h : H265Hub) (l : Launch) → Holds true true false false h → Balanced (find_enc h l).0
unfolding find_enc watch_bus release_rawsrc
find_enc-Balanced h l v = elim (Bool-cases l.has_enc) [
  | inl y ↦ rw (y, find_enc) (ground arith)
  | inr n ↦ rw (n, find_enc) (give_up-Balanced _ (ground arith))
]

find_rawsrc-Balanced :
    (h : H265Hub) (l : Launch) → Holds true false false false h → Balanced (find_rawsrc h l).0
unfolding find_rawsrc
find_rawsrc-Balanced h l v = elim (Bool-cases l.has_rawsrc) [
  | inl y ↦
      simp (y, find_rawsrc)
        (find_enc-Balanced (add_refs (record h { rawsrc = true }) 1) l (ground arith))
  | inr n ↦ rw (n, find_rawsrc) (give_up-Balanced _ (ground arith))
]

connect_smux-Balanced :
    (h : H265Hub) (l : Launch) → Holds true false false false h → Balanced (connect_smux h l).0
unfolding connect_smux
connect_smux-Balanced h l v = ground (arith, find_rawsrc-Balanced h l v, give_up-Balanced h v)

launch-Balanced :
    (h : H265Hub) (l : Launch) → Holds false false false false h → Balanced (launch h l).0
unfolding launch init_osd
launch-Balanced h l v = elim (Bool-cases l.parsed) [
  | inl y ↦
      simp (y, launch)
        (connect_smux-Balanced (init_osd (add_refs (record h { pipeline = true }) 1)) l
          (ground arith))
  | inr n ↦ rw (n, launch) (ground arith)
]

create_on :
    (g : H265Hub) (a : H265HubCreateArgs) (l : Launch)
    → Holds false false false false g
    → Balanced (create_checked (record g { args = a; osd_shared = a.osd_shared }) a l).0
unfolding create_checked
create_on g a l v =
    ground
      (arith, launch-Balanced (record g { args = a; osd_shared = a.osd_shared }) l (ground arith))

create-Balanced :
    (h : H265Hub) (a : H265HubCreateArgs) (l : Launch) → Balanced h → Balanced (create h a l).0
unfolding create
create-Balanced h a l v = create_on (stop_first h) a l (stop_first-Holds h v)

-- The calls that change a hub, each with what GStreamer answers.
pub data Call : Type 0 where
  creates : H265HubCreateArgs → Launch → Call
  starts : Bool → Call
  stops stops_rec : Call
  pushes : (buf now : ℕ) → (paused push_ok : Bool) → Call

pub new-Balanced : Balanced new
unfolding new
new-Balanced = record {
  together = (refl, refl, refl);
  refs = refl;
  watches = refl;
  running = λ e. cc;
}

module _ (scale_int : ℕ → ℕ) where
  unfoldable pub step : H265Hub → Call → H265Hub
  step h (creates a l) = (create h a l).0
  step h (starts playing) = (start h playing).0
  step h stops = stop h
  step h stops_rec = stop_rec h
  step h (pushes buf now paused push_ok) =
      (push_nvmm_rgba_buffer scale_int h buf now paused push_ok).0

  unfoldable pub run : H265Hub → List Call → H265Hub
  run h [] = h
  run h (c ∷ cs) = run (step h c) cs

  step-Balanced : (h : H265Hub) (c : Call) → Balanced h → Balanced (step h c)
  unfolding step
  step-Balanced h (creates a l) v = create-Balanced h a l v
  step-Balanced h (starts playing) v = start-Balanced h playing v
  step-Balanced h stops v = stop-Balanced h v
  step-Balanced h stops_rec v = stop_rec-Balanced h v
  step-Balanced h (pushes buf now paused push_ok) v =
      push-Balanced scale_int h buf now paused push_ok v

  run-Balanced : (h : H265Hub) (cs : List Call) → Balanced h → Balanced (run h cs)
  unfolding run
  run-Balanced h [] v = v
  run-Balanced h (c ∷ cs) v = run-Balanced (step h c) cs (step-Balanced h c v)

  -- Whatever is called on a new hub and whatever GStreamer answers, the references and bus watches that
  -- the hub holds are those of its pointers, and only a hub with a pipeline is started; so after a
  -- stop, of either kind, it holds none.
  pub run-new-Balanced :
      (cs : List Call)
      → let h = run new cs in
        Balanced h
        × ((stop h).ledger.refs ≡ 0)
        × ((stop h).ledger.watches ≡ 0)
        × ((stop_rec h).ledger.refs ≡ 0)
  run-new-Balanced cs =
      let h = run new cs in
      let v = run-Balanced new cs new-Balanced in
      let s = stop-Balanced h v in
      let r = stop_rec-Balanced h v in
      (
        v,
        simp (pipeline-stop h).0 at s.refs,
        simp (pipeline-stop h).0 at s.watches,
        simp (pipeline-stop h).1 at r.refs,
      )

-- A recording is closed before its pipeline goes: `stop_rec` sends one EOS if the hub records, and none
-- otherwise; `stop` sends none.
pub eos-stop_rec :
    (h : H265Hub)
    → Balanced h
    → ((stop_rec h).ledger.eos_sent
        ≡ h.ledger.eos_sent + one_if (h.pipeline && h.args.enable_record))
      × ((stop h).ledger.eos_sent ≡ h.ledger.eos_sent)
unfolding stop stop_rec
eos-stop_rec h v = (ground arith, ground arith)

create-fails :
    (g : H265Hub) (a : H265HubCreateArgs) (l : Launch)
    → a.enable_record ≡ false
    → leb_ℤ a.udp_port (pos 0) ≡ false
    → g.osd_shared ≡ true
    → g.args.enable_record ≡ false
    → l.parsed ≡ true
    → l.has_rawsrc ≡ false
    → let (failed, ok) = create_checked g a l in
      (ok ≡ false) × (failed.pipeline ≡ false) × (failed.ledger.osd_live ≡ true)
unfolding create_checked launch connect_smux find_rawsrc give_up init_osd
create-fails g a l rec udp osd rec' parsed missing = (ground arith, ground arith, ground arith)

stop-off :
    (h : H265Hub)
    → h.pipeline ≡ false
    → ((stop h).ledger.osd_live ≡ h.ledger.osd_live)
      × ((stop h).ledger.osd_lost ≡ h.ledger.osd_lost)
      × ((stop h).pipeline ≡ false)
unfolding stop
stop-off h off = (ground arith, ground arith, ground arith)

lost-find_enc : (h : H265Hub) (l : Launch) → (find_enc h l).0.ledger.osd_lost ≡ h.ledger.osd_lost
unfolding find_enc watch_bus give_up release_rawsrc
lost-find_enc h l = ground arith

lost-connect_smux :
    (h : H265Hub) (l : Launch) → (connect_smux h l).0.ledger.osd_lost ≡ h.ledger.osd_lost
unfolding connect_smux find_rawsrc give_up
lost-connect_smux h l = ground (arith, lost-find_enc (add_refs (record h { rawsrc = true }) 1) l)

create-lost :
    (h : H265Hub) (a : H265HubCreateArgs) (l : Launch)
    → h.pipeline ≡ false
    → a.enable_record ≡ false
    → leb_ℤ a.udp_port (pos 0) ≡ false
    → a.osd_shared ≡ true
    → l.parsed ≡ true
    → h.ledger.osd_live ≡ true
    → (create h a l).0.ledger.osd_lost ≡ h.ledger.osd_lost + 1
unfolding create create_checked launch init_osd stop_first
create-lost h a l off rec udp osd parsed live = ground (
  arith,
  lost-connect_smux
      (init_osd (add_refs (record h { args = a; osd_shared = a.osd_shared; pipeline = true }) 1)) l,
)

-- A `create` that fails after GStreamer has parsed the pipeline leaves the OSD slots allocated, in a
-- hub with no pipeline: no `stop` frees them, and the next `create` with OSD loses them.
pub create-osd_lost :
    (h : H265Hub) (a : H265HubCreateArgs) (l l' : Launch)
    → Balanced h
    → a.osd_shared ≡ true
    → a.enable_record ≡ false
    → leb_ℤ a.udp_port (pos 0) ≡ false
    → l.parsed ≡ true
    → l.has_rawsrc ≡ false
    → l'.parsed ≡ true
    → let failed = (create h a l).0 in
      ((create h a l).1 ≡ false)
      × ((stop failed).ledger.osd_live ≡ true)
      × (failed.ledger.osd_lost < (create (stop failed) a l').0.ledger.osd_lost)
unfolding create
create-osd_lost h a l l' v osd rec udp parsed missing parsed' =
    let g : H265Hub = record (stop_first h) { args = a; osd_shared = a.osd_shared } in
    let (fails, off, live) = create-fails g a l rec udp osd rec parsed missing in
    let failed = (create_checked g a l).0 in
    let (live', lost', off') = stop-off failed off in
    let again = create-lost (stop failed) a l' off' rec udp osd parsed' in
    (fails, live' ∙ live, omega (arith, lost', again (live' ∙ live)))

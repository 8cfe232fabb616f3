-- ===== src/Hub/H264/Balance.antt =====
-- What an H264 hub holds of GStreamer between two calls.
use k180_project.Base.{
  ℕ, ◌+◌, ◌≡◌, refl, Bool, true, false, List, [], ◌∷◌, arith, if◌then◌else◌, Bool-cases, inl, inr,
}
use k180_project.Hub.H264.{
  H264Hub, H264HubCreateArgs, Launch, one_if, add_refs, stop, create, start, push_nvmm_rgba_buffer,
  new, launch, give_up, find_enc, find_rawsrc, watch_bus, release_rawsrc, create_checked,
  stop_first,
}

-- The four pointers are null together, and each that is not holds one reference; the bus has a watch
-- exactly while it is held; only a hub with a pipeline is started.
pub record Balanced (h : H264Hub) : Type 0 where
  pub together : (h.rawsrc ≡ h.pipeline) × (h.enc ≡ h.pipeline) × (h.bus ≡ h.pipeline)
  pub refs : h.refs ≡ (if h.pipeline then 4 else 0)
  pub watches : h.watches ≡ one_if h.pipeline
  pub running : h.started ≡ true → h.pipeline ≡ true

stop-Balanced : (h : H264Hub) → Balanced h → Balanced (stop h)
unfolding stop
stop-Balanced h v = ground arith

start-Balanced : (h : H264Hub) (playing : Bool) → Balanced h → Balanced (start h playing).0
unfolding start
start-Balanced h playing v = ground arith

push-Balanced :
    (scale_int : ℕ → ℕ) (h : H264Hub) (buf now : ℕ) (paused push_ok : Bool)
    → Balanced h
    → Balanced (push_nvmm_rgba_buffer scale_int h buf now paused push_ok).0
unfolding push_nvmm_rgba_buffer
push-Balanced scale_int h buf now paused push_ok v = ground arith

-- A stopped hub whose pointers are as given, with a reference for each that is not null.
record Holds (pipeline rawsrc enc bus : Bool) (h : H264Hub) : Type 0 where
  pointers : (h.pipeline ≡ pipeline) × (h.rawsrc ≡ rawsrc) × (h.enc ≡ enc) × (h.bus ≡ bus)
  counts :
      (h.refs ≡ one_if pipeline + one_if rawsrc + one_if enc + one_if bus)
      × (h.watches ≡ one_if bus)
  idle : h.started ≡ false

stop-Holds : (h : H264Hub) → Balanced h → h.pipeline ≡ true → Holds false false false false (stop h)
unfolding stop
stop-Holds h v on = ground arith

off-Holds : (h : H264Hub) → Balanced h → h.pipeline ≡ false → Holds false false false false h
off-Holds h v off = ground arith

stop_first-Holds : (h : H264Hub) → Balanced h → Holds false false false false (stop_first h)
unfolding stop_first
stop_first-Holds h v = elim (Bool-cases h.pipeline) [
  | inl on ↦ simp (on, stop_first) (stop-Holds h v on)
  | inr off ↦ simp (off, stop_first) (off-Holds h v off)
]

pipeline-stop : (h : H264Hub) → (stop h).pipeline ≡ false
unfolding stop
pipeline-stop h = ground arith

give_up-Balanced : (h : H264Hub) → Holds true false false false h → Balanced (give_up h).0
unfolding give_up
give_up-Balanced h v = ground arith

find_enc-Balanced :
    (h : H264Hub) (l : Launch) → Holds true true false false h → Balanced (find_enc h l).0
unfolding find_enc watch_bus release_rawsrc
find_enc-Balanced h l v = elim (Bool-cases l.has_enc) [
  | inl y ↦ rw (y, find_enc) (ground arith)
  | inr n ↦ rw (n, find_enc) (give_up-Balanced _ (ground arith))
]

find_rawsrc-Balanced :
    (h : H264Hub) (l : Launch) → Holds true false false false h → Balanced (find_rawsrc h l).0
unfolding find_rawsrc
find_rawsrc-Balanced h l v = elim (Bool-cases l.has_rawsrc) [
  | inl y ↦
      simp (y, find_rawsrc)
        (find_enc-Balanced (add_refs (record h { rawsrc = true }) 1) l (ground arith))
  | inr n ↦ rw (n, find_rawsrc) (give_up-Balanced _ (ground arith))
]

launch-Balanced :
    (h : H264Hub) (l : Launch) → Holds false false false false h → Balanced (launch h l).0
unfolding launch
launch-Balanced h l v = elim (Bool-cases l.parsed) [
  | inl y ↦
      simp (y, launch)
        (find_rawsrc-Balanced (add_refs (record h { pipeline = true }) 1) l (ground arith))
  | inr n ↦ rw (n, launch) (ground arith)
]

create_on :
    (g : H264Hub) (a : H264HubCreateArgs) (l : Launch)
    → Holds false false false false g
    → Balanced (create_checked (record g { args = a }) a l).0
unfolding create_checked
create_on g a l v = ground (arith, launch-Balanced (record g { args = a }) l (ground arith))

create-Balanced :
    (h : H264Hub) (a : H264HubCreateArgs) (l : Launch) → Balanced h → Balanced (create h a l).0
unfolding create
create-Balanced h a l v = create_on (stop_first h) a l (stop_first-Holds h v)

-- The calls that change a hub, each with what GStreamer answers.
pub data Call : Type 0 where
  creates : H264HubCreateArgs → Launch → Call
  starts : Bool → Call
  stops : Call
  pushes : (buf now : ℕ) → (paused push_ok : Bool) → Call

pub new-Balanced : Balanced new
unfolding new
new-Balanced = record {
  together = (refl, refl, refl);
  refs = refl;
  watches = refl;
  running = λ e. cc;
}

module _ (scale_int : ℕ → ℕ) where
  pub step : H264Hub → Call → H264Hub
  step h (creates a l) = (create h a l).0
  step h (starts playing) = (start h playing).0
  step h stops = stop h
  step h (pushes buf now paused push_ok) =
      (push_nvmm_rgba_buffer scale_int h buf now paused push_ok).0

  pub run : H264Hub → List Call → H264Hub
  run h [] = h
  run h (c ∷ cs) = run (step h c) cs

  step-Balanced : (h : H264Hub) (c : Call) → Balanced h → Balanced (step h c)
  unfolding step
  step-Balanced h (creates a l) v = create-Balanced h a l v
  step-Balanced h (starts playing) v = start-Balanced h playing v
  step-Balanced h stops v = stop-Balanced h v
  step-Balanced h (pushes buf now paused push_ok) v =
      push-Balanced scale_int h buf now paused push_ok v

  run-Balanced : (h : H264Hub) (cs : List Call) → Balanced h → Balanced (run h cs)
  unfolding run
  run-Balanced h [] v = v
  run-Balanced h (c ∷ cs) v = run-Balanced (step h c) cs (step-Balanced h c v)

  -- Whatever is called on a new hub and whatever GStreamer answers, the references and bus watches that
  -- the hub holds are those of its pointers, and only a hub with a pipeline is started; so after a
  -- stop it holds none.
  pub run-new-Balanced_h264 :
      (cs : List Call)
      → let h = run new cs in Balanced h × ((stop h).refs ≡ 0) × ((stop h).watches ≡ 0)
  run-new-Balanced_h264 cs =
      let h = run new cs in
      let v = run-Balanced new cs new-Balanced in
      let s = stop-Balanced h v in
      (v, simp (pipeline-stop h) at s.refs, simp (pipeline-stop h) at s.watches)

-- ===== src/Config/Accepts.antt =====
-- What an accepted configuration keeps to, and what the post-processing makes of it.
use k180_project.Base.{
  eqb_ℤ→eq, ◌≡◌, refl, ◌⊎◌, inl, inr, Bool, true, false, not, ◌||◌, ◌&&◌, ℤ, pos, ◌≤ℤ◌, eqb_ℤ,
  arith, Bool-cases, [], ◌∷◌,
}
use k180_project.Config.{
  StreamConfig, UserConfig, CfgStatus, ok, is_one_of_int, reject_if, unless_failed, allowed_res,
  allowed_fps, Machine, BrightTunerCfg, validate_stream, validate_tuner, user_cfg_validate,
  user_cfg_postprocess,
}
use k180_project.Config.CamMaps.{IsPermutation, validate_cam_map-IsPermutation}

reject_if-ok : {c : Bool} {rest : CfgStatus} → reject_if c rest ≡ ok → (c ≡ false) × (rest ≡ ok)
unfolding reject_if
reject_if-ok h = ground arith

unless_failed-ok : {st rest : CfgStatus} → unless_failed st rest ≡ ok → (st ≡ ok) × (rest ≡ ok)
unfolding unless_failed
unless_failed-ok {st} h = ground arith

-- A stream of one of the two formats, at a rate of the table that the build allows.
pub record IsStream {S : Type 0} (m : Machine S) (s : StreamConfig) : Type 0 where
  pub size :
      (s.resolution ≡ pos 720) × (s.width ≡ pos 1280) × (s.height ≡ pos 720)
      ⊎ (s.resolution ≡ pos 1080) × (s.width ≡ pos 1920) × (s.height ≡ pos 1080)
  pub rate : is_one_of_int s.fps allowed_fps ≡ true
  pub allowed : s.fps ≤ℤ m.max_stream_fps
  pub datarate : pos 1 ≤ℤ s.datarate_bps

size_of :
    (r w h : ℤ)
    → not (is_one_of_int r allowed_res) ≡ false
    → (eqb_ℤ r (pos 1080) && (not (eqb_ℤ w (pos 1920)) || not (eqb_ℤ h (pos 1080)))) ≡ false
    → (eqb_ℤ r (pos 720) && (not (eqb_ℤ w (pos 1280)) || not (eqb_ℤ h (pos 720)))) ≡ false
    → (eqb_ℤ r (pos 720) ≡ true) × (eqb_ℤ w (pos 1280) ≡ true) × (eqb_ℤ h (pos 720) ≡ true)
      ⊎ (eqb_ℤ r (pos 1080) ≡ true) × (eqb_ℤ w (pos 1920) ≡ true) × (eqb_ℤ h (pos 1080) ≡ true)
unfolding is_one_of_int
size_of r w h a b c = ground arith

IsStream-of :
    {S : Type 0} (m : Machine S) (s : StreamConfig) → validate_stream m s ≡ ok → IsStream m s
unfolding validate_stream
IsStream-of m s h =
    let (res, h1) = reject_if-ok h in
    let (full, h2) = reject_if-ok h1 in
    let (half, h3) = reject_if-ok h2 in
    let (rate, h4) = reject_if-ok h3 in
    let (data_ok, _) = reject_if-ok h4 in
    record {
      size = elim (size_of s.resolution s.width s.height res full half) [
        | inl e ↦ inl (eqb_ℤ→eq _ _ e.0, eqb_ℤ→eq _ _ e.1, eqb_ℤ→eq _ _ e.2)
        | inr e ↦ inr (eqb_ℤ→eq _ _ e.0, eqb_ℤ→eq _ _ e.1, eqb_ℤ→eq _ _ e.2)
      ];
      rate = ground arith;
      allowed = ground arith;
      datarate = ground arith;
    }

-- The integer settings of the brightness tuner.
pub record IsTuner {F : Type 0} (t : BrightTunerCfg F) : Type 0 where
  pub cooldown : (pos 0 ≤ℤ t.adjust_cooldown_default) × (t.adjust_cooldown_default ≤ℤ pos 20)
  pub gain_step : (pos 1 ≤ℤ t.max_gain_step) × (t.max_gain_step ≤ℤ pos 200000)
  pub expo_step : (pos 1 ≤ℤ t.max_expo_step) × (t.max_expo_step ≤ℤ pos 5000)
  pub stable : (pos 1 ≤ℤ t.stable_ok_required) × (t.stable_ok_required ≤ℤ pos 20)

IsTuner-of :
    {S : Type 0} (m : Machine S) (t : BrightTunerCfg m.fl.F) → validate_tuner m t ≡ ok → IsTuner t
unfolding validate_tuner
IsTuner-of m t h =
    let (_, h1) = reject_if-ok h in
    let (cool, h2) = reject_if-ok h1 in
    let (gain, h3) = reject_if-ok h2 in
    let (expo, h4) = reject_if-ok h3 in
    let (stable, _) = reject_if-ok h4 in
    record {
      cooldown = ground arith;
      gain_step = ground arith;
      expo_step = ground arith;
      stable = ground arith;
    }

-- The settings of an accepted configuration, floats aside.
pub record IsAccepted {S : Type 0} (m : Machine S) (cfg : UserConfig S m.fl.F) : Type 0 where
  pub rotate : (cfg.rotate180 ≡ pos 0) ⊎ (cfg.rotate180 ≡ pos 1)
  pub netmask : (pos 0 ≤ℤ cfg.netmask) × (cfg.netmask ≤ℤ pos 32)
  pub recorded : (pos 0 ≤ℤ cfg.recorded) × (cfg.recorded ≤ℤ pos 2)
  pub objectdet : (pos 0 ≤ℤ cfg.objectdet) × (cfg.objectdet ≤ℤ pos 2)
  pub disk : pos 1 ≤ℤ cfg.rec_dick_size
  pub address : (m.is_valid_ipv4 cfg.ipaddress ≡ true) × (m.is_valid_ipv4 cfg.gateway ≡ true)
  pub cams : IsPermutation cfg.cam_num_r0 × IsPermutation cfg.cam_num_r180
  pub streams : IsStream m cfg.s1 × IsStream m cfg.s2
  pub tuner : IsTuner cfg.bright_tuner

rotate_of :
    (r : ℤ)
    → not (eqb_ℤ r (pos 0) || eqb_ℤ r (pos 1)) ≡ false
    → (eqb_ℤ r (pos 0) ≡ true) ⊎ (eqb_ℤ r (pos 1) ≡ true)
rotate_of r h = ground arith

up_to_two :
    (v : ℤ)
    → not (is_one_of_int v (pos 0 ∷ pos 1 ∷ pos 2 ∷ [])) ≡ false
    → (pos 0 ≤ℤ v) × (v ≤ℤ pos 2)
unfolding is_one_of_int
up_to_two v h = ground arith

-- Whatever strings and floats are, a configuration that `user_cfg_validate` takes has each of its
-- settings, floats aside, in its range: both camera maps are permutations of the places 0 to 3, and
-- both streams have one of the two formats, a rate of the table within the build's limit and a
-- positive data rate; the tuner's cooldown is 0 to 20 rounds, and its gain step, its exposure step and its
-- count of stable rounds are positive and at most 200000, 5000 and 20.
pub user_cfg_validate-IsAccepted :
    {S : Type 0} (m : Machine S) (cfg : UserConfig S m.fl.F)
    → user_cfg_validate m cfg ≡ ok
    → IsAccepted m cfg
unfolding user_cfg_validate
user_cfg_validate-IsAccepted m cfg h =
    let (rot, h1) = reject_if-ok h in
    let (mask, h2) = reject_if-ok h1 in
    let (rec, h3) = reject_if-ok h2 in
    let (obj, h4) = reject_if-ok h3 in
    let (dick, h5) = reject_if-ok h4 in
    let (ip, h6) = reject_if-ok h5 in
    let (gw, h7) = reject_if-ok h6 in
    let (r0, h8) = unless_failed-ok h7 in
    let (r180, h9) = unless_failed-ok h8 in
    let (first, h10) = unless_failed-ok h9 in
    let (second, tuned) = unless_failed-ok h10 in
    record {
      rotate = elim (rotate_of cfg.rotate180 rot) [
        | inl e ↦ inl (eqb_ℤ→eq _ _ e)
        | inr e ↦ inr (eqb_ℤ→eq _ _ e)
      ];
      netmask = ground arith;
      recorded = up_to_two cfg.recorded rec;
      objectdet = up_to_two cfg.objectdet obj;
      disk = ground arith;
      address = (ground arith, ground arith);
      cams = (
        validate_cam_map-IsPermutation cfg.cam_num_r0 r0,
        validate_cam_map-IsPermutation cfg.cam_num_r180 r180,
      );
      streams = (IsStream-of m cfg.s1 first, IsStream-of m cfg.s2 second);
      tuner = IsTuner-of m cfg.bright_tuner tuned;
    }

-- What the post-processing makes of `cfg`.
pub record IsProcessed {S : Type 0} (m : Machine S) (cfg after : UserConfig S m.fl.F)
    (st : CfgStatus) : Type 0 where
  pub succeeds : st ≡ ok
  pub active : IsPermutation after.cam_num
  pub upright :
      cfg.rotate180 ≡ pos 0
      → (after.cam_num ≡ cfg.cam_num_r0)
        × (after.pic_w_1234 ≡ cfg.pic_w_0_1234)
        × (after.pic_h_1234 ≡ cfg.pic_h_0_1234)
        × (after.pic_h_cut ≡ cfg.pic_h_0_cut)
  pub turned :
      cfg.rotate180 ≡ pos 1
      → (after.cam_num ≡ cfg.cam_num_r180)
        × (after.pic_w_1234 ≡ cfg.pic_w_180_1234)
        × (after.pic_h_1234 ≡ cfg.pic_h_180_1234)
        × (after.pic_h_cut ≡ cfg.pic_h_180_cut)
  pub accepted : user_cfg_validate m after ≡ ok
  pub again : user_cfg_postprocess after ≡ (after, ok)

not_zero : (r : ℤ) → eqb_ℤ r (pos 0) ≡ false → r ≡ pos 0 → ⊥
not_zero r e z = ground arith

not_one : (r : ℤ) → eqb_ℤ r (pos 0) ≡ true → r ≡ pos 1 → ⊥
not_one r e z = ground arith

-- After the post-processing of a configuration that the validator takes, the active camera map is the
-- permutation of the chosen rotation, the picture layout is that of the rotation too, the validator
-- still takes the configuration, and a second post-processing changes nothing.
pub user_cfg_postprocess-IsProcessed :
    {S : Type 0} (m : Machine S) (cfg : UserConfig S m.fl.F)
    → user_cfg_validate m cfg ≡ ok
    → IsProcessed m cfg (user_cfg_postprocess cfg).0 (user_cfg_postprocess cfg).1
unfolding user_cfg_postprocess user_cfg_validate
user_cfg_postprocess-IsProcessed m cfg h =
    let cams = (user_cfg_validate-IsAccepted m cfg h).cams in
    elim (Bool-cases (eqb_ℤ cfg.rotate180 (pos 0))) [
      | inl e ↦ simp (e) (record {
        succeeds = refl;
        active = cams.0;
        upright = λ _. (refl, refl, refl, refl);
        turned = λ z. elim (not_one cfg.rotate180 e z) [ ];
        accepted = h;
        again = simp (e);
      })
      | inr e ↦ simp (e) (record {
        succeeds = refl;
        active = cams.1;
        upright = λ z. elim (not_zero cfg.rotate180 e z) [ ];
        turned = λ _. (refl, refl, refl, refl);
        accepted = h;
        again = simp (e);
      })
    ]

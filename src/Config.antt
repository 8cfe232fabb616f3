-- ===== src/Config.antt =====
-- The configuration: rtsp_server/include/user_def_json.h, src/user_cfg_validate.cpp and
-- src/user_cfg_postprocess.cpp. A validator returns its status;
-- the text of its message is left out. `inet_pton` and the floating point operations are parameters.
pub mod CamMaps
pub mod Accepts
mod Tests
use k180_project.Base.{
  ℕ, Bool, true, false, not, ◌&&◌, ◌||◌, List, [], ◌∷◌, length, ℤ, pos, leb_ℤ, ltb_ℤ, eqb_ℤ, ltb,
  ◌==◌, if◌then◌else◌, Floats,
}

pub record StreamConfig : Type 0 where
  pub resolution : ℤ
  pub width : ℤ
  pub height : ℤ
  pub fps : ℤ
  pub datarate_bps : ℤ

pub record BrightTunerCfg (F : Type 0) : Type 0 where
  pub hysteresis_d_threshold : F
  pub adjust_cooldown_default : ℤ
  pub max_gain_step : ℤ
  pub max_expo_step : ℤ
  pub stable_ok_required : ℤ
  pub error_level_div : F
  pub k_hi : F
  pub k_lo : F
  pub sat_ratio_hi : F
  pub sat_ratio_lo : F
  pub mid_val : F

-- An `int a[4]`.
pub record CamMap : Type 0 where
  pub a0 : ℤ
  pub a1 : ℤ
  pub a2 : ℤ
  pub a3 : ℤ

-- `S` is the type of strings. The settings that no function here reads are left out.
pub record UserConfig (S F : Type 0) : Type 0 where
  pub ipaddress : S
  pub netmask : ℤ
  pub gateway : S
  pub cam_num_r0 : CamMap
  pub cam_num_r180 : CamMap
  pub cam_num : CamMap
  pub recorded : ℤ
  pub objectdet : ℤ
  pub rotate180 : ℤ
  pub rec_dick_size : ℤ
  pub pic_w_0_1234 : ℤ
  pub pic_h_0_1234 : ℤ
  pub pic_h_0_cut : ℤ
  pub pic_w_180_1234 : ℤ
  pub pic_h_180_1234 : ℤ
  pub pic_h_180_cut : ℤ
  pub pic_w_1234 : ℤ
  pub pic_h_1234 : ℤ
  pub pic_h_cut : ℤ
  pub s1 : StreamConfig
  pub s2 : StreamConfig
  pub bright_tuner : BrightTunerCfg F

pub data CfgStatus : Type 0 where
  ok file_open_fail file_read_fail json_parse_fail json_schema_fail validation_fail : CfgStatus

abbrev pub is_ok : CfgStatus → Bool
is_ok ok = true
is_ok s = false

pub is_one_of_int : ℤ → List ℤ → Bool
is_one_of_int v [] = false
is_one_of_int v (x ∷ xs) = eqb_ℤ x v || is_one_of_int v xs

-- `std::set<int>::insert`, on a list without repetition.
pub insert : ℤ → List ℤ → List ℤ
unfolding is_one_of_int
insert v xs = if is_one_of_int v xs then xs else v ∷ xs

abbrev pub cam_set : CamMap → List ℤ
cam_set a = insert a.a3 (insert a.a2 (insert a.a1 (insert a.a0 [])))

pub validate_cam_map : CamMap → CfgStatus
validate_cam_map a =
    if not (length (cam_set a) == 4)
    then validation_fail
    else if not (
        is_one_of_int (pos 0) (cam_set a)
        && is_one_of_int (pos 1) (cam_set a)
        && is_one_of_int (pos 2) (cam_set a)
        && is_one_of_int (pos 3) (cam_set a))
    then validation_fail
    else ok

-- `if (c) return VALIDATION_FAIL;` before the rest, and `if (st != OK) return st;`.
pub reject_if : Bool → CfgStatus → CfgStatus
reject_if c rest = if c then validation_fail else rest

pub unless_failed : CfgStatus → CfgStatus → CfgStatus
unless_failed ok rest = rest
unless_failed st rest = st

abbrev pub allowed_res : List ℤ
allowed_res = pos 720 ∷ pos 1080 ∷ []

abbrev pub allowed_fps : List ℤ
allowed_fps = pos 1 ∷ pos 5 ∷ pos 10 ∷ pos 15 ∷ pos 20 ∷ pos 30 ∷ pos 60 ∷ []

-- What the validators take from outside: `inet_pton`, the conversion of an int to a double, `fabs`, the
-- machine's floats and doubles, and the build's `K180_MAX_STREAM_FPS`.
pub record Machine (S : Type 0) : Type 1 where
  pub is_valid_ipv4 : S → Bool
  pub fl : Floats
  pub db : Floats
  pub to_double : ℤ → db.F
  pub fabs : db.F → db.F
  pub max_stream_fps : ℤ

module _ {S : Type 0} (m : Machine S) where
  pub is_one_of_double : m.db.F → List m.db.F → m.db.F → Bool
  is_one_of_double v [] eps = false
  is_one_of_double v (x ∷ xs) eps = m.db.lt (m.fabs (m.db.sub x v)) eps || is_one_of_double v xs eps

  abbrev pub allowed_datarate_mbps : List m.db.F
  allowed_datarate_mbps =
      m.db.lit 1 1
      ∷ m.db.lit 16 10
      ∷ m.db.lit 2 1
      ∷ m.db.lit 3 1
      ∷ m.db.lit 4 1
      ∷ m.db.lit 6 1
      ∷ m.db.lit 8 1
      ∷ m.db.lit 10 1
      ∷ m.db.lit 12 1
      ∷ m.db.lit 16 1
      ∷ []

  abbrev pub mbps_of : ℤ → m.db.F
  mbps_of datarate_bps = m.db.div (m.to_double datarate_bps) (m.db.lit 1000000 1)

  pub validate_stream : StreamConfig → CfgStatus
  validate_stream s = reject_if (not (is_one_of_int s.resolution allowed_res)) (
      reject_if
        (eqb_ℤ s.resolution (pos 1080)
          && (not (eqb_ℤ s.width (pos 1920)) || not (eqb_ℤ s.height (pos 1080))))
        (reject_if
          (eqb_ℤ s.resolution (pos 720)
            && (not (eqb_ℤ s.width (pos 1280)) || not (eqb_ℤ s.height (pos 720))))
          (reject_if (not (is_one_of_int s.fps allowed_fps) || ltb_ℤ m.max_stream_fps s.fps) (
            reject_if (leb_ℤ s.datarate_bps (pos 0)) (
              reject_if
                (not (
                  is_one_of_double (mbps_of s.datarate_bps) allowed_datarate_mbps
                    (m.db.lit 1 1000000)))
                ok)))))

  -- The checks of `bright_tuner`, the last of `user_cfg_validate`.
  pub validate_tuner : BrightTunerCfg m.fl.F → CfgStatus
  validate_tuner t =
      reject_if
        (m.fl.lt t.hysteresis_d_threshold (m.fl.lit 0 1)
          || m.fl.lt (m.fl.lit 20 1) t.hysteresis_d_threshold)
        (reject_if
          (ltb_ℤ t.adjust_cooldown_default (pos 0) || ltb_ℤ (pos 20) t.adjust_cooldown_default)
          (reject_if (leb_ℤ t.max_gain_step (pos 0) || ltb_ℤ (pos 200000) t.max_gain_step) (
            reject_if (leb_ℤ t.max_expo_step (pos 0) || ltb_ℤ (pos 5000) t.max_expo_step) (
              reject_if (leb_ℤ t.stable_ok_required (pos 0) || ltb_ℤ (pos 20) t.stable_ok_required)
                (validate_tuner_floats t)))))
    where
      outside : m.fl.F → m.fl.F → m.fl.F → Bool
      outside low high x = m.fl.le x low || m.fl.lt high x

      validate_tuner_floats : BrightTunerCfg m.fl.F → CfgStatus
      validate_tuner_floats t =
          reject_if (outside (m.fl.lit 0 1) (m.fl.lit 20 1) t.error_level_div) (
            reject_if (outside (m.fl.lit 0 1) (m.fl.lit 2 1) t.k_hi) (
              reject_if (outside (m.fl.lit 0 1) (m.fl.lit 2 1) t.k_lo) (
                reject_if (outside (m.fl.lit 1 10) (m.fl.lit 8 10) t.sat_ratio_hi) (
                  reject_if (outside (m.fl.lit 1 10) (m.fl.lit 8 10) t.sat_ratio_lo)
                    (reject_if (outside (m.fl.lit 1 1) (m.fl.lit 250 1) t.mid_val) ok)))))

  abbrev zero_to_two : List ℤ
  zero_to_two = pos 0 ∷ pos 1 ∷ pos 2 ∷ []

  pub user_cfg_validate : UserConfig S m.fl.F → CfgStatus
  user_cfg_validate cfg =
      reject_if (not (eqb_ℤ cfg.rotate180 (pos 0) || eqb_ℤ cfg.rotate180 (pos 1))) (
        reject_if (ltb_ℤ cfg.netmask (pos 0) || ltb_ℤ (pos 32) cfg.netmask) (
          reject_if (not (is_one_of_int cfg.recorded zero_to_two)) (
            reject_if (not (is_one_of_int cfg.objectdet zero_to_two)) (
              reject_if (leb_ℤ cfg.rec_dick_size (pos 0)) (
                reject_if (not (m.is_valid_ipv4 cfg.ipaddress)) (
                  reject_if (not (m.is_valid_ipv4 cfg.gateway)) (
                    unless_failed (validate_cam_map cfg.cam_num_r0) (
                      unless_failed (validate_cam_map cfg.cam_num_r180) (
                        unless_failed (validate_stream cfg.s1) (
                          unless_failed (validate_stream cfg.s2)
                            (validate_tuner cfg.bright_tuner)))))))))))

-- `if (cfg.rotate180)` takes any value but 0 for true.
pub user_cfg_postprocess : {S F : Type 0} → UserConfig S F → UserConfig S F × CfgStatus
user_cfg_postprocess cfg =
    if not (eqb_ℤ cfg.rotate180 (pos 0))
    then (
      record cfg {
        cam_num = cfg.cam_num_r180;
        pic_w_1234 = cfg.pic_w_180_1234;
        pic_h_1234 = cfg.pic_h_180_1234;
        pic_h_cut = cfg.pic_h_180_cut;
      },
      ok,
    )
    else (
      record cfg {
        cam_num = cfg.cam_num_r0;
        pic_w_1234 = cfg.pic_w_0_1234;
        pic_h_1234 = cfg.pic_h_0_1234;
        pic_h_cut = cfg.pic_h_0_cut;
      },
      ok,
    )

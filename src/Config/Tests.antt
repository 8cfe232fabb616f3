-- ===== src/Config/Tests.antt =====
-- The default configuration, with addresses, on a machine whose floats are millionths.
use k180_project.Base.{
  ◌*◌, ◌/◌, ◌+◌, ◌≡◌, refl, Bool, true, Floats, ℤ, pos, pos_part, neg_part, neg_ℤ, ltb_ℤ, leb_ℤ,
  ◌+ℤ◌,
}
use k180_project.Config.{
  StreamConfig, UserConfig, CamMap, ok, validation_fail, Machine, validate_cam_map,
  user_cfg_validate, user_cfg_postprocess, validate_stream, validate_tuner, reject_if,
  unless_failed, is_one_of_int, is_one_of_double, insert,
}
use k180_project.Config.Accepts.{
  IsAccepted, IsProcessed, user_cfg_validate-IsAccepted, user_cfg_postprocess-IsProcessed,
}

abbrev millionths : Floats
millionths = record {
  F = ℤ;
  lit = λ n d. pos (n * 1000000 / d);
  add = λ a b. a +ℤ b;
  sub = λ a b. a +ℤ neg_ℤ b;
  mul = λ a b. pos (pos_part a * pos_part b / 1000000);
  div = λ a b. pos (pos_part a * 1000000 / pos_part b);
  neg = neg_ℤ;
  lt = ltb_ℤ;
  le = leb_ℤ;
}

-- A string is whether it is an address.
abbrev machine : Machine Bool
machine = record {
  is_valid_ipv4 = λ b. b;
  fl = millionths;
  db = millionths;
  to_double = λ n. pos (pos_part n * 1000000);
  fabs = λ z. pos (pos_part z + neg_part z);
  max_stream_fps = pos 60;
}

abbrev stream : StreamConfig
stream = record {
  resolution = pos 1080;
  width = pos 1920;
  height = pos 1080;
  fps = pos 15;
  datarate_bps = pos 2000000;
}

abbrev turned_map : CamMap
turned_map = record { a0 = pos 3; a1 = pos 2; a2 = pos 1; a3 = pos 0 }

abbrev double_map : CamMap
double_map = record { a0 = pos 3; a1 = pos 2; a2 = pos 3; a3 = pos 0 }

abbrev sample : UserConfig Bool ℤ
sample = record {
  ipaddress = true;
  netmask = pos 24;
  gateway = true;
  cam_num_r0 = record { a0 = pos 0; a1 = pos 1; a2 = pos 2; a3 = pos 3 };
  cam_num_r180 = turned_map;
  cam_num = record { a0 = pos 0; a1 = pos 1; a2 = pos 2; a3 = pos 3 };
  recorded = pos 0;
  objectdet = pos 2;
  rotate180 = pos 1;
  rec_dick_size = pos 50000000000;
  pic_w_0_1234 = pos 5700;
  pic_h_0_1234 = pos 920;
  pic_h_0_cut = pos 60;
  pic_w_180_1234 = pos 5600;
  pic_h_180_1234 = pos 900;
  pic_h_180_cut = pos 50;
  pic_w_1234 = pos 5700;
  pic_h_1234 = pos 920;
  pic_h_cut = pos 60;
  s1 = stream;
  s2 = stream;
  bright_tuner = record {
    hysteresis_d_threshold = pos 4000000;
    adjust_cooldown_default = pos 6;
    max_gain_step = pos 50000;
    max_expo_step = pos 2000;
    stable_ok_required = pos 3;
    error_level_div = pos 5000000;
    k_hi = pos 1100000;
    k_lo = pos 900000;
    sat_ratio_hi = pos 350000;
    sat_ratio_lo = pos 350000;
    mid_val = pos 128000000;
  };
}

sample_ok : user_cfg_validate machine sample ≡ ok
unfolding user_cfg_validate validate_cam_map validate_stream validate_tuner reject_if unless_failed
    is_one_of_int is_one_of_double insert
sample_ok = refl

turned_map_ok : validate_cam_map turned_map ≡ ok
unfolding validate_cam_map is_one_of_int insert
turned_map_ok = refl

double_map_fails : validate_cam_map double_map ≡ validation_fail
unfolding validate_cam_map is_one_of_int insert
double_map_fails = refl

user_cfg_validate-IsAccepted_example : IsAccepted machine sample
user_cfg_validate-IsAccepted_example = user_cfg_validate-IsAccepted machine sample sample_ok

user_cfg_postprocess-IsProcessed_example :
    IsProcessed machine sample (user_cfg_postprocess sample).0 (user_cfg_postprocess sample).1
user_cfg_postprocess-IsProcessed_example = user_cfg_postprocess-IsProcessed machine sample sample_ok

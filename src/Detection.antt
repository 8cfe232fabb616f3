-- ===== src/Detection.antt =====
-- rtsp_server/yolo_inc_new/types.h: what the detector says of one object.
use k180_project.Base.{Floats, List, replicate}

pub record Detection (F : Type 0) : Type 0 where
  pub bbox0 : F
  pub bbox1 : F
  pub bbox2 : F
  pub bbox3 : F
  pub conf : F
  pub class_id : F
  pub mask : List F
  pub keypoints : List F

-- `Detection{}`: every float is zero.
abbrev pub blank_detection : (fl : Floats) → Detection fl.F
blank_detection fl = record {
  bbox0 = zero_f;
  bbox1 = zero_f;
  bbox2 = zero_f;
  bbox3 = zero_f;
  conf = zero_f;
  class_id = zero_f;
  mask = replicate 32 zero_f;
  keypoints = replicate 51 zero_f;
}
  where
    zero_f : fl.F
    zero_f = fl.lit 0 1

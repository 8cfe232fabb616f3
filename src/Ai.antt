-- ===== src/Ai.antt =====
-- rtsp_server/src/k180_ai_runtime.cpp and include/k180_ai_runtime.h: what the detector, the tracker
-- and the overlay do in each mode, the pending click and the selected track. `draw_det` and
-- `draw_trk` are the settings of the configuration in force. A float is any type with a zero.
pub mod Policy
mod Tests
use k180_project.Base.{
  ℕ, Bool, true, false, not, ◌&&◌, ◌||◌, List, [], ◌∷◌, ℤ, pos, negsuc, leb_ℤ, eqb_ℤ, if◌then◌else◌,
  add64,
}

pub data AiMode : Type 0 where
  off detect_only detect_to_track : AiMode

pub data AiRuntimeState : Type 0 where
  off running : AiRuntimeState

pub record AiPolicy : Type 0 where
  pub video_output_enabled : Bool
  pub detector_enabled : Bool
  pub tracking_enabled : Bool

pub record AiRenderFlags : Type 0 where
  pub draw_det_boxes : Bool
  pub draw_track_boxes : Bool
  pub highlight_selected_track : Bool

pub record ClickRequest (F : Type 0) : Type 0 where
  pub pending : Bool
  pub x : F
  pub y : F

pub record SelectedTrack : Type 0 where
  pub active : Bool
  pub track_id : ℤ
  pub selected_frame_seq : ℕ

pub record AiCounters : Type 0 where
  pub click_accept : ℕ
  pub click_reject : ℕ
  pub click_ignored : ℕ
  pub selection_clear : ℕ

pub record AiRuntime (F : Type 0) : Type 0 where
  pub mode : AiMode
  pub state : AiRuntimeState
  pub policy : AiPolicy
  pub render : AiRenderFlags
  pub click : ClickRequest F
  pub selected : SelectedTrack
  pub counters : AiCounters

-- `cfggg.draw_det` and `cfggg.draw_trk`, converted to bool.
pub record DrawCfg : Type 0 where
  pub draw_det : Bool
  pub draw_trk : Bool

abbrev pub is_running : AiRuntimeState → Bool
is_running off = false
is_running running = true

abbrev pub is_detect_to_track : AiMode → Bool
is_detect_to_track off = false
is_detect_to_track detect_only = false
is_detect_to_track detect_to_track = true

pub cfg_to_ai_mode : ℤ → AiMode
cfg_to_ai_mode n =
    if eqb_ℤ n (pos 1) then detect_only else if eqb_ℤ n (pos 2) then detect_to_track else off

-- The three cases of the switch in `ai_apply_mode`.
abbrev pub policy_of : AiMode → AiPolicy
policy_of off = record {
  video_output_enabled = true;
  detector_enabled = false;
  tracking_enabled = false;
}
policy_of detect_only = record {
  video_output_enabled = true;
  detector_enabled = true;
  tracking_enabled = false;
}
policy_of detect_to_track = record {
  video_output_enabled = true;
  detector_enabled = true;
  tracking_enabled = true;
}

abbrev pub render_of : DrawCfg → AiMode → AiRenderFlags
render_of d off = record {
  draw_det_boxes = false;
  draw_track_boxes = false;
  highlight_selected_track = false;
}
render_of d detect_only = record {
  draw_det_boxes = d.draw_det;
  draw_track_boxes = false;
  highlight_selected_track = false;
}
render_of d detect_to_track = record {
  draw_det_boxes = d.draw_det;
  draw_track_boxes = d.draw_trk;
  highlight_selected_track = true;
}

abbrev pub state_of : AiMode → AiRuntimeState
state_of off = off
state_of detect_only = running
state_of detect_to_track = running

module _ {F : Type 0} (zero_f : F) where
  -- `AiRuntime g_ai_rt;`
  pub new : AiRuntime F
  new = record {
    mode = off;
    state = off;
    policy = record {
      video_output_enabled = true;
      detector_enabled = false;
      tracking_enabled = false;
    };
    render = record {
      draw_det_boxes = false;
      draw_track_boxes = false;
      highlight_selected_track = false;
    };
    click = record { pending = false; x = zero_f; y = zero_f };
    selected = record { active = false; track_id = negsuc 0; selected_frame_seq = 0 };
    counters = record {
      click_accept = 0;
      click_reject = 0;
      click_ignored = 0;
      selection_clear = 0;
    };
  }

  pub ai_apply_mode : AiRuntime F → DrawCfg → AiMode → AiRuntime F
  ai_apply_mode rt d mode = record rt {
    mode = mode;
    click = record { pending = false; x = zero_f; y = zero_f };
    selected = record { active = false; track_id = negsuc 0; selected_frame_seq = 0 };
    policy = policy_of mode;
    render = render_of d mode;
    state = state_of mode;
  }

  pub init_ai_runtime_from_cfg : AiRuntime F → DrawCfg → ℤ → AiRuntime F
  unfolding ai_apply_mode cfg_to_ai_mode
  init_ai_runtime_from_cfg rt d objectdet = ai_apply_mode rt d (cfg_to_ai_mode objectdet)

  pub ai_switch_to_off : AiRuntime F → DrawCfg → AiRuntime F
  unfolding ai_apply_mode
  ai_switch_to_off rt d = ai_apply_mode rt d off

module _ {F : Type 0} where
  pub ai_should_run_detector : AiRuntime F → Bool
  ai_should_run_detector rt = if not rt.policy.detector_enabled then false else is_running rt.state

  pub ai_should_run_tracking : AiRuntime F → Bool
  ai_should_run_tracking rt = if not rt.policy.tracking_enabled then false else is_running rt.state

  pub ai_should_draw_det : AiRuntime F → Bool
  ai_should_draw_det rt = if not (is_running rt.state) then false else rt.render.draw_det_boxes

  pub ai_should_draw_track : AiRuntime F → Bool
  ai_should_draw_track rt = if not (is_running rt.state) then false else rt.render.draw_track_boxes

  pub ai_should_highlight_selected_track : AiRuntime F → Bool
  ai_should_highlight_selected_track rt =
      if not (is_running rt.state)
      then false
      else rt.render.highlight_selected_track && rt.selected.active

  pub ai_should_run_detector_this_frame : AiRuntime F → ℕ → Bool
  unfolding ai_should_run_detector
  ai_should_run_detector_this_frame rt frame_seq = ai_should_run_detector rt

  pub on_mouse_click : AiRuntime F → F → F → AiRuntime F
  on_mouse_click rt x y =
      if not (is_detect_to_track rt.mode) || not (is_running rt.state)
      then record rt {
        counters = record (rt.counters) { click_ignored = add64 rt.counters.click_ignored 1 };
      }
      else record rt { click = record { pending = true; x = x; y = y } }

  pub ai_has_pending_click : AiRuntime F → Bool
  ai_has_pending_click rt = rt.click.pending

  pub ai_clear_click : AiRuntime F → AiRuntime F
  ai_clear_click rt = record rt { click = record (rt.click) { pending = false } }

  pub ai_select_track : AiRuntime F → ℤ → ℕ → AiRuntime F
  ai_select_track rt track_id frame_seq = record rt {
    selected = record {
      active = leb_ℤ (pos 0) track_id;
      track_id = track_id;
      selected_frame_seq = frame_seq;
    };
  }

  pub ai_clear_selected_track : AiRuntime F → AiRuntime F
  ai_clear_selected_track rt = record rt {
    selected = record { active = false; track_id = negsuc 0; selected_frame_seq = 0 };
    counters = record (rt.counters) { selection_clear = add64 rt.counters.selection_clear 1 };
  }

  pub ai_has_selected_track : AiRuntime F → Bool
  ai_has_selected_track rt = rt.selected.active

  pub ai_get_selected_track_id : AiRuntime F → ℤ
  ai_get_selected_track_id rt = if not rt.selected.active then negsuc 0 else rt.selected.track_id

-- The calls that change the runtime.
pub data Call (F : Type 0) : Type 0 where
  inits : DrawCfg → ℤ → Call F
  applies : DrawCfg → AiMode → Call F
  offs : DrawCfg → Call F
  clicks : F → F → Call F
  selects : ℤ → ℕ → Call F
  clears_click clears_track : Call F

module _ {F : Type 0} (zero_f : F) where
  pub step : AiRuntime F → Call F → AiRuntime F
  unfolding init_ai_runtime_from_cfg ai_apply_mode ai_switch_to_off on_mouse_click ai_select_track
      ai_clear_click ai_clear_selected_track
  step rt (inits d n) = init_ai_runtime_from_cfg zero_f rt d n
  step rt (applies d m) = ai_apply_mode zero_f rt d m
  step rt (offs d) = ai_switch_to_off zero_f rt d
  step rt (clicks x y) = on_mouse_click rt x y
  step rt (selects t f) = ai_select_track rt t f
  step rt clears_click = ai_clear_click rt
  step rt clears_track = ai_clear_selected_track rt

  pub run : AiRuntime F → List (Call F) → AiRuntime F
  run rt [] = rt
  run rt (c ∷ cs) = run (step rt c) cs

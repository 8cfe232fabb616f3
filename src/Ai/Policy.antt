-- ===== src/Ai/Policy.antt =====
-- k180_ai_runtime.cpp: what each mode runs, draws and takes.
use k180_project.Base.{
  ℕ, ◌≡◌, true, false, ◌&&◌, List, [], ◌∷◌, ℤ, pos, negsuc, leb_ℤ, arith, if◌then◌else◌, add64,
}
use k180_project.Ai.{
  off, AiRuntime, is_running, is_detect_to_track, new, policy_of, state_of, ai_should_run_tracking,
  ai_should_draw_det, DrawCfg, ai_select_track, init_ai_runtime_from_cfg, ai_apply_mode,
  ai_should_draw_track, ai_should_highlight_selected_track, ai_should_run_detector_this_frame,
  on_mouse_click, ai_has_pending_click, ai_get_selected_track_id, Call, inits, applies, offs,
  clicks, selects, clears_click, clears_track, step, run,
}

module _ {F : Type 0} where
  -- Policy and state are those of the mode; only the tracking mode highlights, keeps a click or draws
  -- tracks, nothing is drawn when off; the selection is active exactly when its id is one.
  pub record IsValid (rt : AiRuntime F) : Type 0 where
    pub policy : rt.policy ≡ policy_of rt.mode
    pub state : rt.state ≡ state_of rt.mode
    pub highlight : rt.render.highlight_selected_track ≡ is_detect_to_track rt.mode
    pub tracks : rt.render.draw_track_boxes ≡ true → is_detect_to_track rt.mode ≡ true
    pub click : rt.click.pending ≡ true → is_detect_to_track rt.mode ≡ true
    pub selected : rt.selected.active ≡ leb_ℤ (pos 0) rt.selected.track_id

module _ {F : Type 0} (zero_f : F) where
  new-IsValid : IsValid (new zero_f)
  unfolding new
  new-IsValid = ground arith

  step-IsValid : (rt : AiRuntime F) (c : Call F) → IsValid rt → IsValid (step zero_f rt c)
  unfolding step
  step-IsValid rt (inits d n) v = ground arith
  step-IsValid rt (applies d m) v = ground arith
  step-IsValid rt (offs d) v = ground arith
  step-IsValid rt (clicks x y) v = ground arith
  step-IsValid rt (selects t f) v = ground arith
  step-IsValid rt clears_click v = ground arith
  step-IsValid rt clears_track v = ground arith

  run-IsValid : (rt : AiRuntime F) (cs : List (Call F)) → IsValid rt → IsValid (run zero_f rt cs)
  unfolding run
  run-IsValid rt [] v = v
  run-IsValid rt (c ∷ cs) v = run-IsValid (step zero_f rt c) cs (step-IsValid rt c v)

  -- Whatever is called on the runtime as it is constructed, and in whatever order, its policy and its
  -- state are those of its mode, a click is pending, a highlight enabled or the drawing of tracks
  -- enabled only in the tracking mode, and a track is selected exactly when its id is not negative.
  pub run-new-IsValid_ai : (cs : List (Call F)) → IsValid (run zero_f (new zero_f) cs)
  run-new-IsValid_ai cs = run-IsValid (new zero_f) cs new-IsValid

module _ {F : Type 0} where
  -- On a valid runtime the detector runs, on each frame, exactly in the two modes that detect; tracking
  -- runs exactly in the tracking mode, the only one in which tracks are drawn; the selected track is
  -- highlighted exactly when there is one in that mode; and no detections are drawn when the mode is off.
  pub should_run-mode :
      (rt : AiRuntime F) (frame_seq : ℕ)
      → IsValid rt
      → (ai_should_run_detector_this_frame rt frame_seq ≡ is_running (state_of rt.mode))
        × (ai_should_run_tracking rt ≡ is_detect_to_track rt.mode)
        × (ai_should_highlight_selected_track rt
            ≡ (is_detect_to_track rt.mode && leb_ℤ (pos 0) (rt.selected.track_id)))
        × (ai_should_draw_track rt ≡ true → is_detect_to_track rt.mode ≡ true)
        × (rt.mode ≡ off → ai_should_draw_det rt ≡ false)
  unfolding ai_should_run_detector_this_frame ai_should_run_tracking ai_should_draw_det
      ai_should_highlight_selected_track ai_should_draw_track
  should_run-mode rt frame_seq v = ground arith

  -- On a valid runtime a click is pending after it exactly in the tracking mode, then with the place of
  -- the last click, and is counted as ignored otherwise; a selection made next is answered by its id,
  -- or by -1 if the id is negative, and after another start from the configuration neither click nor selection is left.
  pub on_mouse_click-selected :
      (zero_f : F) (rt : AiRuntime F) (x y : F) (t n : ℤ) (f : ℕ) (d : DrawCfg)
      → IsValid rt
      → let clicked = on_mouse_click rt x y in
        let chosen = ai_select_track clicked t f in
        let again = init_ai_runtime_from_cfg zero_f chosen d n in
        (ai_has_pending_click clicked ≡ is_detect_to_track rt.mode)
        × (is_detect_to_track rt.mode ≡ true → (clicked.click.x ≡ x) × (clicked.click.y ≡ y))
        × (is_detect_to_track rt.mode ≡ false
            → clicked.counters.click_ignored ≡ add64 rt.counters.click_ignored 1)
        × (ai_get_selected_track_id chosen ≡ (if leb_ℤ (pos 0) t then t else negsuc 0))
        × (ai_has_pending_click again ≡ false)
        × (ai_get_selected_track_id again ≡ negsuc 0)
  unfolding on_mouse_click ai_has_pending_click ai_select_track ai_get_selected_track_id
      init_ai_runtime_from_cfg ai_apply_mode
  on_mouse_click-selected zero_f rt x y t n f d v = ground arith

-- ===== src/Ai/Tests.antt =====
-- Runs of the AI runtime on small inputs, at which its theorems apply.
use k180_project.Base.{ℕ, ◌≡◌, refl, true, false, List, [], ◌∷◌, pos, negsuc}
use k180_project.Ai.{
  init_ai_runtime_from_cfg, AiRuntime, DrawCfg, Call, inits, clicks, selects, run, step, new,
  on_mouse_click, ai_select_track, ai_get_selected_track_id, ai_has_pending_click,
}
use k180_project.Ai.Policy.{IsValid, run-new-IsValid_ai, on_mouse_click-selected}

abbrev drawn : DrawCfg
drawn = record { draw_det = true; draw_trk = false }

-- Configured for tracking, a click and a selection.
abbrev history : List (Call ℕ)
history = inits drawn (pos 2) ∷ clicks 7 9 ∷ selects (pos 4) 30 ∷ []

tracking_run : AiRuntime ℕ
tracking_run = run 0 (new 0) history

tracked :
    (ai_get_selected_track_id tracking_run ≡ pos 4) × (ai_has_pending_click tracking_run ≡ true)
unfolding tracking_run run ai_get_selected_track_id ai_has_pending_click step
tracked = (refl, refl)

run-new-IsValid_ai_example : IsValid tracking_run
unfolding tracking_run
run-new-IsValid_ai_example = run-new-IsValid_ai 0 history

on_mouse_click-selected_example :
    let clicked = on_mouse_click tracking_run 3 5 in
    let chosen = ai_select_track clicked (negsuc 6) 40 in
    let again = init_ai_runtime_from_cfg 0 chosen drawn (pos 1) in
    (ai_has_pending_click clicked ≡ true)
    × (true ≡ true → (clicked.click.x ≡ 3) × (clicked.click.y ≡ 5))
    × (true ≡ false → clicked.counters.click_ignored ≡ 1)
    × (ai_get_selected_track_id chosen ≡ negsuc 0)
    × (ai_has_pending_click again ≡ false)
    × (ai_get_selected_track_id again ≡ negsuc 0)
unfolding tracking_run run step new
on_mouse_click-selected_example =
    on_mouse_click-selected 0 tracking_run 3 5 (negsuc 6) (pos 1) 40 drawn
      run-new-IsValid_ai_example

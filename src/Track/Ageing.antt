-- ===== src/Track/Ageing.antt =====
-- k180_tracking.cpp: how long an object stays in the table after its last frame.
use k180_project.Base.{
  ℕ, suc, ◌≡◌, refl, ap, ap₂, ◌∙◌, inl, inr, false, List, [], ◌∷◌, Option, none, some, map, leb,
  if◌then◌else◌, ℤ, arith, Floats, Bool-cases,
}
use k180_project.Detection.{Detection}
use k180_project.Track.{
  STrack, Table, find_track, build, uncheck, apply_updates, update_track_table, run_frames,
  max_lost,
}
use k180_project.Track.Steps.{
  IsOnce, aged-IsOnce, apply_updates-IsOnce, build-IsOnce, find-aged, find-apply, find-build,
  find-uncheck, grown, has_id, lost_of, or_old, uncheck-IsOnce, unchecked,
}

abbrev pub later : Option ℕ → Option ℕ
later none = none
later (some n) = some (suc n)

-- No more than `max_lost` frames ago.
abbrev pub recent : Option ℕ → Option ℕ
recent none = none
recent (some n) = if leb n max_lost then some n else none

module _ (fl : Floats) where
  open fl use {F}

  -- How many frames ago an id was given last, if it was given at all.
  abbrev pub missed : ℤ → Option ℕ → List (List (Detection F) × List (STrack fl)) → Option ℕ
  missed id last [] = last
  missed id last ((res, tracks) ∷ fs) =
      missed id (if has_id fl tracks id then some 0 else later last) fs

  update_track_table-IsOnce :
      (t : Table fl) (res : List (Detection F)) (tracks : List (STrack fl))
      → IsOnce fl t
      → IsOnce fl (update_track_table fl t res tracks)
  unfolding update_track_table
  update_track_table-IsOnce t res tracks h =
      let marks = map (λ (det : Detection F). (det, false)) res in
      let updated = build fl t tracks marks [] in
      aged-IsOnce fl (apply_updates fl (uncheck fl t) updated)
        (apply_updates-IsOnce fl (uncheck fl t) updated (uncheck-IsOnce fl t h))

  find-update :
      (t : Table fl) (res : List (Detection F)) (tracks : List (STrack fl)) (id : ℤ)
      → IsOnce fl t
      → lost_of fl (find_track fl (update_track_table fl t res tracks) id) ≡ (
          if has_id fl tracks id
          then some 0
          else grown (unchecked (lost_of fl (find_track fl t id))))
  unfolding update_track_table find_track
  find-update t res tracks id h =
      let marks = map (λ (det : Detection F). (det, false)) res in
      let updated = build fl t tracks marks [] in
      let all = apply_updates fl (uncheck fl t) updated in
      let once = apply_updates-IsOnce fl (uncheck fl t) updated (uncheck-IsOnce fl t h) in
      find-aged fl all id once
      ∙ ap grown (
          find-apply fl (uncheck fl t) updated id (build-IsOnce fl t [] tracks marks tt)
          ∙ ap₂ or_old (find-build fl t [] tracks marks id) (find-uncheck fl t id))
      ∙ elim (Bool-cases (has_id fl tracks id)) [ inl e ↦ simp (e) refl | inr e ↦ simp (e) refl ]

  one_more : (n : ℕ) → grown (unchecked (recent (some n))) ≡ recent (some (suc n))
  one_more n = ground arith

  later-recent : (last : Option ℕ) → grown (unchecked (recent last)) ≡ recent (later last)
  later-recent none = refl
  later-recent (some n) = one_more n

  run-lost_from :
      (t : Table fl) (fs : List (List (Detection F) × List (STrack fl))) (id : ℤ) (last : Option ℕ)
      → IsOnce fl t
      → lost_of fl (find_track fl t id) ≡ recent last
      → lost_of fl (find_track fl (run_frames fl t fs) id) ≡ recent (missed id last fs)
  unfolding run_frames
  run-lost_from t [] id last h e = e
  run-lost_from t ((res, tracks) ∷ fs) id last h e =
      run-lost_from (update_track_table fl t res tracks) fs id _
        (update_track_table-IsOnce t res tracks h)
        (find-update t res tracks id h ∙ elim (Bool-cases (has_id fl tracks id)) [
          | inl b ↦ simp (b) refl
          | inr b ↦ simp (b) (ap (λ x. grown (unchecked x)) e ∙ later-recent last)
        ])

  -- After any frames, starting from an empty table, an id is in the table exactly if the tracker gave it no
  -- more than five frames ago, and its `lost_count` is the number of frames since then. What the detector
  -- found makes no difference.
  pub run-lost :
      (fs : List (List (Detection F) × List (STrack fl))) (id : ℤ)
      → lost_of fl (find_track fl (run_frames fl [] fs) id) ≡ recent (missed id none fs)
  unfolding find_track
  run-lost fs id = run-lost_from [] fs id none tt refl

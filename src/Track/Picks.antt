-- ===== src/Track/Picks.antt =====
-- k180_tracking.cpp: how a match picks a detection and marks it as used.
use k180_project.Base.{
  ℕ, zero, suc, ◌+◌, ◌≡◌, ◌≢◌, refl, ap, ◌∙◌, subst, ◌⊎◌, inl, inr, Bool, true, false, List, [],
  ◌∷◌, get_elem?, ℤ, eqb_ℤ, Option, none, some, map, arith, Floats, Bool-cases,
}
use k180_project.Detection.{Detection}
use k180_project.Track.{
  STrack, Marks, iou_with, iou_threshold, closest, mark_used, taken, take_match,
  make_detection_from_track, zero_f,
}
use k180_project.Track.Closest.{IsIeee, IsTop, IsMissed, closest-IsTop, top-IsMissed}

module _ (fl : Floats) where
  open fl use {F, lt, le}

  -- The detection at an index that was not used, and how far it overlaps.
  abbrev IsPick : STrack fl → Marks fl → ℕ → Option (ℕ × Detection F) × F → Type 0
  IsPick track res i r =
      (k : ℕ) × (j : ℕ) × (det : Detection F) × (j ≡ i + k)
      × (get_elem? res k ≡ some (det, false))
      × (r ≡ (some (j, det), iou_with fl track det))

  closest-IsPick :
      (track : STrack fl) (res : Marks fl) (i : ℕ) (best : Option (ℕ × Detection F)) (v : F)
      → (closest fl track res i best v ≡ (best, v))
        ⊎ IsPick track res i (closest fl track res i best v)
  unfolding closest
  closest-IsPick track [] i best v = inl refl
  closest-IsPick track ((det, true) ∷ res) i best v =
      elim (closest-IsPick track res (suc i) best v) [
        | inl e ↦ inl e
        | inr (k, j, d, p, m, e) ↦ inr (suc k, j, d, ground arith, m, e)
      ]
  closest-IsPick track ((det, false) ∷ res) i best v =
      elim (Bool-cases (lt v (iou_with fl track det))) [
        | inl b ↦ elim (closest-IsPick track res (suc i) (some (i, det)) (iou_with fl track det)) [
          | inl e ↦ simp (b) (inr (0, i, det, ground arith, refl, e))
          | inr (k, j, d, p, m, e) ↦ simp (b) (inr (suc k, j, d, ground arith, m, e))
        ]
        | inr b ↦ elim (closest-IsPick track res (suc i) best v) [
          | inl e ↦ simp (b) (inl e)
          | inr (k, j, d, p, m, e) ↦ simp (b) (inr (suc k, j, d, ground arith, m, e))
        ]
      ]

  -- The two ways of a match: a detection that was not used, overlaps enough and no less than any other of
  -- them, is marked as used; or none of them overlaps enough, the track's own box stands in, and the marks
  -- are as before.
  abbrev pub Takes : STrack fl → Marks fl → (Option ℕ × Detection F) × Marks fl → Type 0
  Takes track res r =
      ((k : ℕ) × (det : Detection F) × (get_elem? res k ≡ some (det, false))
        × (le (iou_threshold fl) (iou_with fl track det) ≡ true)
        × IsTop fl track res (iou_with fl track det)
        × (r ≡ ((some k, det), mark_used fl k res)))
      ⊎ IsMissed fl track res × (r ≡ ((none, make_detection_from_track fl track), res))

  pub take_match-Takes :
      IsIeee fl → (track : STrack fl) (res : Marks fl) → Takes track res (take_match fl track res)
  unfolding take_match taken
  take_match-Takes law track res =
      let (n, _, top) = closest-IsTop fl law track res 0 none (zero_f fl) law.zero_number in
      elim (closest-IsPick track res 0 none (zero_f fl)) [
        | inl e ↦ inr (
          top-IsMissed fl law track res (zero_f fl) law.zero_number law.threshold
              (subst (λ x. IsTop fl track res x.1) e top),
          ap (taken fl track res) e,
        )
        | inr (k, j, det, p, m, e) ↦
            let same : j ≡ k = ground arith in
            let e' = e ∙ ap (λ (x : ℕ). (some (x, det), iou_with fl track det)) same in
            let best : IsTop fl track res (iou_with fl track det) =
              subst (λ x. IsTop fl track res x.1) e top in
            elim (Bool-cases (le (iou_threshold fl) (iou_with fl track det))) [
              | inl b ↦ inl (k, det, m, b, best, ap (taken fl track res) e' ∙ simp (b) refl)
              | inr b ↦ inr (
                top-IsMissed fl law track res (iou_with fl track det)
                    (subst (λ x. le x.1 x.1 ≡ true) e n) b best,
                ap (taken fl track res) e' ∙ simp (b) refl,
              )
            ]
      ]

  pub eqb_ℤ-self : (a : ℤ) → eqb_ℤ a a ≡ true
  eqb_ℤ-self a = ground arith

  unfoldable pub dets : Marks fl → List (Detection F)
  dets [] = []
  dets ((det, used) ∷ res) = det ∷ dets res

  pub dets-mark_used : (k : ℕ) (res : Marks fl) → dets (mark_used fl k res) ≡ dets res
  unfolding mark_used dets
  dets-mark_used k [] = refl
  dets-mark_used zero (d ∷ res) = refl
  dets-mark_used (suc k) (d ∷ res) = ap (λ x. d.0 ∷ x) (dets-mark_used k res)

  pub dets-map : (res : List (Detection F)) → dets (map (λ det. (det, false)) res) ≡ res
  unfolding dets
  dets-map [] = refl
  dets-map (d ∷ res) = ap (λ x. d ∷ x) (dets-map res)

  pub dets-at :
      (res : Marks fl) (i : ℕ) (det : Detection F) (used : Bool)
      → get_elem? res i ≡ some (det, used)
      → get_elem? (dets res) i ≡ some det
  unfolding dets
  dets-at [] i det used e = absurd (ground arith)
  dets-at (d ∷ res) zero det used e = ground arith
  dets-at (d ∷ res) (suc i) det used e = dets-at res i det used e

  pub mark_used-other :
      (k i : ℕ) (res : Marks fl) → k ≢ i → get_elem? (mark_used fl k res) i ≡ get_elem? res i
  unfolding mark_used
  mark_used-other k i [] n = ground arith
  mark_used-other zero zero (d ∷ res) n = absurd (n refl)
  mark_used-other zero (suc i) (d ∷ res) n = refl
  mark_used-other (suc k) zero (d ∷ res) n = refl
  mark_used-other (suc k) (suc i) (d ∷ res) n = mark_used-other k i res (λ e. n (ap suc e))

  pub mark_used-same :
      (k : ℕ) (res : Marks fl) (det : Detection F)
      → get_elem? res k ≡ some (det, false)
      → get_elem? (mark_used fl k res) k ≡ some (det, true)
  unfolding mark_used
  mark_used-same k [] det e = absurd (ground arith)
  mark_used-same zero (d ∷ res) det e = ground arith
  mark_used-same (suc k) (d ∷ res) det e = mark_used-same k res det e

-- ===== src/Track/Matches.antt =====
-- k180_tracking.cpp: which detection each track of a frame gets.
use k180_project.Base.{
  ℕ, zero, suc, ◌≡◌, ◌≢◌, refl, sym, ap, ◌∙◌, subst, inl, inr, Bool, true, false, List, [], ◌∷◌,
  get_elem?, ℤ, eqb_ℤ, Option, none, some, map, arith, Floats,
}
use k180_project.Detection.{Detection}
use k180_project.Track.{
  STrack, Marks, iou_with, iou_threshold, mark_used, take_match, make_detection_from_track, Table,
  ObjectTrackData, find_track, put_track, build, object_of,
}
use k180_project.Track.Closest.{IsIeee}
use k180_project.Track.Steps.{has_id, find-put}
use k180_project.Track.Picks.{
  eqb_ℤ-self, dets-mark_used, take_match-Takes, mark_used-other, mark_used-same, dets-map, dets-at,
  Takes, dets,
}

abbrev pub Unlisted : ℕ → List (Option ℕ) → Type 0
Unlisted i [] = Unit {0}
Unlisted i (none ∷ gs) = Unlisted i gs
Unlisted i (some j ∷ gs) = (i ≢ j) × Unlisted i gs

-- No index stands twice.
abbrev pub AllApart : List (Option ℕ) → Type 0
AllApart [] = Unit {0}
AllApart (none ∷ gs) = AllApart gs
AllApart (some i ∷ gs) = Unlisted i gs × AllApart gs

module _ (fl : Floats) where
  open fl use {F, lt, le}

  -- What the tracks of a frame get: the index of a detection, or none.
  unfoldable pub given : List (STrack fl) → Marks fl → List (Option ℕ)
  given [] res = []
  given (track ∷ tracks) res = let r = take_match fl track res in r.0.0 ∷ given tracks r.1

  -- The tracks have different ids.
  abbrev pub IsDistinct : List (STrack fl) → Type 0
  IsDistinct [] = Unit {0}
  IsDistinct (track ∷ tracks) = (has_id fl tracks track.track_id ≡ false) × IsDistinct tracks

  abbrev pub det_of : Option (ObjectTrackData fl) → Option (Detection F)
  det_of none = none
  det_of (some obj) = some obj.det

  -- The object's detection is the one at the index; it overlaps enough, and no less than any other that the
  -- earlier tracks left. Without an index it is the track's box, and none of those left overlaps enough.
  abbrev pub IsGiven :
      List (Detection F) → List (Option ℕ) → Option (Detection F) → STrack fl → Option ℕ → Type 0
  IsGiven res earlier found track none =
      (found ≡ some (make_detection_from_track fl track))
      × ((j : ℕ) (d : Detection F)
          → Unlisted j earlier
          → get_elem? res j ≡ some d
          → le (iou_threshold fl) (iou_with fl track d) ≡ false)
  IsGiven res earlier found track (some i) =
      (det : Detection F) × (get_elem? res i ≡ some det)
      × (le (iou_threshold fl) (iou_with fl track det) ≡ true)
      × (found ≡ some det)
      × ((j : ℕ) (d : Detection F)
          → Unlisted j earlier
          → get_elem? res j ≡ some d
          → lt (iou_with fl track det) (iou_with fl track d) ≡ false)

  -- `earlier` is what the tracks before these were given.
  abbrev pub AllGiven :
      List (Detection F)
      → Table fl
      → (earlier : List (Option ℕ)) → List (STrack fl)
      → List (Option ℕ)
      → Type 0
  AllGiven res updated earlier [] gs = gs ≡ []
  AllGiven res updated earlier (track ∷ tracks) [] = ⊥
  AllGiven res updated earlier (track ∷ tracks) (g ∷ gs) =
      IsGiven res earlier (det_of (find_track fl updated track.track_id)) track g
      × AllGiven res updated (g ∷ earlier) tracks gs

  true_not_false :
      (res : Marks fl) (i k : ℕ) (det d : Detection F)
      → get_elem? res i ≡ some (det, true)
      → get_elem? res k ≡ some (d, false)
      → i ≢ k
  true_not_false res i k det d e m same =
      let both : Path (Option (Detection F × Bool)) (some (det, true)) (some (d, false)) =
        sym e ∙ ap (get_elem? res) same ∙ m in
      ground arith

  used-Unlisted :
      (law : IsIeee fl) (tracks : List (STrack fl)) (res : Marks fl) (i : ℕ) (det : Detection F)
      → get_elem? res i ≡ some (det, true)
      → Unlisted i (given tracks res)
  unfolding given
  used-Unlisted law [] res i det e = tt
  used-Unlisted law (track ∷ tracks) res i det e = elim (take_match-Takes fl law track res) [
    | inr (_, t) ↦ simp (t) (used-Unlisted law tracks res i det e)
    | inl (k, d, m, o, _, t) ↦
        let other : i ≢ k = true_not_false res i k det d e m in
        simp (t) (
          other,
          used-Unlisted law tracks (mark_used fl k res) i det
              (mark_used-other fl k i res (λ same. other (sym same)) ∙ e),
        )
  ]

  given-AllApart :
      (law : IsIeee fl) (tracks : List (STrack fl)) (res : Marks fl) → AllApart (given tracks res)
  unfolding given
  given-AllApart law [] res = tt
  given-AllApart law (track ∷ tracks) res = elim (take_match-Takes fl law track res) [
    | inr (_, t) ↦ simp (t) (given-AllApart law tracks res)
    | inl (k, d, m, o, _, t) ↦ simp (t) (
      used-Unlisted law tracks (mark_used fl k res) k d (mark_used-same fl k res d m),
      given-AllApart law tracks (mark_used fl k res),
    )
  ]

  build-keeps :
      (prev updated : Table fl) (tracks : List (STrack fl)) (res : Marks fl) (id : ℤ)
      → has_id fl tracks id ≡ false
      → find_track fl (build fl prev tracks res updated) id ≡ find_track fl updated id
  unfolding build
  build-keeps prev updated [] res id h = refl
  build-keeps prev updated (track ∷ tracks) res id h =
      let r = take_match fl track res in
      let obj : ObjectTrackData fl = record (object_of fl prev track) { det = r.0.1 } in
      let apart : eqb_ℤ track.track_id id ≡ false = ground arith in
      let rest : has_id fl tracks id ≡ false = ground arith in
      build-keeps prev (put_track fl updated track.track_id obj) tracks r.1 id rest
      ∙ find-put fl updated track.track_id id obj
      ∙ simp (apart) refl

  -- What is not given to an earlier track is not marked as used.
  abbrev AllFree : List (Detection F) → List (Option ℕ) → Marks fl → Type 0
  AllFree all earlier res =
      (j : ℕ) (d : Detection F)
      → Unlisted j earlier
      → get_elem? all j ≡ some d
      → get_elem? res j ≡ some (d, false)

  map-AllFree : (all : List (Detection F)) → AllFree all [] (map (λ det. (det, false)) all)
  map-AllFree [] j d u e = absurd (ground arith)
  map-AllFree (x ∷ all) zero d u e = ground arith
  map-AllFree (x ∷ all) (suc j) d u e = map-AllFree all j d u e

  mark_used-AllFree :
      (all : List (Detection F)) (earlier : List (Option ℕ)) (res : Marks fl) (k : ℕ)
      → AllFree all earlier res
      → AllFree all (some k ∷ earlier) (mark_used fl k res)
  mark_used-AllFree all earlier res k free j d u e =
      mark_used-other fl k j res (λ same. u.0 (sym same)) ∙ free j d u.1 e

  -- What a track is given, and what it leaves.
  abbrev Leaves :
      List (Detection F)
      → List (Option ℕ)
      → STrack fl
      → (Option ℕ × Detection F) × Marks fl
      → Type 0
  Leaves all earlier track r =
      IsGiven all earlier (some r.0.1) track r.0.0
      × (dets fl r.1 ≡ all)
      × AllFree all (r.0.0 ∷ earlier) r.1

  Takes-Leaves :
      (track : STrack fl) (res : Marks fl) (all : List (Detection F)) (earlier : List (Option ℕ))
      (r : (Option ℕ × Detection F) × Marks fl)
      → dets fl res ≡ all
      → AllFree all earlier res
      → Takes fl track res r
      → Leaves all earlier track r
  Takes-Leaves track res all earlier r e free (inr (m, t)) =
      subst (Leaves all earlier track) (sym t) ((refl, λ j d u x. m j d (free j d u x)), e, free)
  Takes-Leaves track res all earlier r e free (inl (k, d, m, o, top, t)) =
      subst (Leaves all earlier track) (sym t) (
        (
          d,
          subst (λ x. get_elem? x k ≡ some d) e (dets-at fl res k d false m),
          o,
          refl,
          λ j d' u x. top j d' (free j d' u x),
        ),
        dets-mark_used fl k res ∙ e,
        mark_used-AllFree all earlier res k free,
      )

  build-AllGiven_from :
      (law : IsIeee fl) (prev updated : Table fl) (tracks : List (STrack fl)) (res : Marks fl)
      (all : List (Detection F)) (earlier : List (Option ℕ))
      → IsDistinct tracks
      → dets fl res ≡ all
      → AllFree all earlier res
      → AllGiven all (build fl prev tracks res updated) earlier tracks (given tracks res)
  unfolding build given
  build-AllGiven_from law prev updated [] res all earlier h e free = refl
  build-AllGiven_from law prev updated (track ∷ tracks) res all earlier h e free =
      let r = take_match fl track res in
      let obj : ObjectTrackData fl = record (object_of fl prev track) { det = r.0.1 } in
      let updated' = put_track fl updated track.track_id obj in
      let (here, e', free') =
        Takes-Leaves track res all earlier r e free (take_match-Takes fl law track res) in
      let found : find_track fl (build fl prev tracks r.1 updated') track.track_id ≡ some obj =
        build-keeps prev updated' tracks r.1 track.track_id h.0
        ∙ find-put fl updated track.track_id track.track_id obj
        ∙ simp (eqb_ℤ-self fl track.track_id) refl in
      (
        subst (λ x. IsGiven all earlier (det_of x) track r.0.0) (sym found) here,
        build-AllGiven_from law prev updated' tracks r.1 all (r.0.0 ∷ earlier) h.1 e' free',
      )

  -- Where the tracks of a frame have different ids, and comparisons are those of IEEE 754, each track's
  -- object gets, whatever the table was, the detection that overlaps its box most among those that the
  -- tracks before it left, if it overlaps by 0.3 or more; and the box itself exactly where none of those
  -- overlaps that much. No detection is given to two tracks.
  pub build-AllGiven :
      (law : IsIeee fl) (prev : Table fl) (tracks : List (STrack fl)) (res : List (Detection F))
      → IsDistinct tracks
      → AllGiven res
          (build fl prev tracks (map (λ det. (det, false)) res) [])
          []
          tracks
          (given tracks (map (λ det. (det, false)) res))
        × AllApart (given tracks (map (λ det. (det, false)) res))
  build-AllGiven law prev tracks res h =
      let marks = map (λ (det : Detection F). (det, false)) res in
      (
        build-AllGiven_from law prev [] tracks marks res [] h (dets-map fl res) (map-AllFree res),
        given-AllApart law tracks marks,
      )

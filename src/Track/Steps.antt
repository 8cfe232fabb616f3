-- ===== src/Track/Steps.antt =====
-- k180_tracking.cpp: what each step of a frame makes of an entry of the table.
use k180_project.Base.{
  ℕ, suc, ◌≡◌, refl, sym, ap, ◌∙◌, subst, inl, inr, Bool, true, false, ◌||◌, List, [], ◌∷◌, Option,
  none, some, ltb, if◌then◌else◌, ℤ, eqb_ℤ, eqb_ℤ→eq, arith, Floats, Bool-cases,
}
use k180_project.Detection.{Detection}
use k180_project.Track.{
  STrack, ObjectTrackData, Table, Marks, find_track, put_track, object_of, object_from, take_match,
  build, uncheck, apply_updates, aged, max_lost,
}

abbrev pub unchecked : Option ℕ → Option (Bool × ℕ)
unchecked none = none
unchecked (some n) = some (false, n)

abbrev pub or_old : Option (Bool × ℕ) → Option (Bool × ℕ) → Option (Bool × ℕ)
or_old none v = v
or_old (some v) w = some v

abbrev pub grown : Option (Bool × ℕ) → Option ℕ
grown none = none
grown (some (true, n)) = some n
grown (some (false, n)) = if ltb max_lost (suc n) then none else some (suc n)

module _ (fl : Floats) where
  open fl use {F}

  -- Whether the tracker gives the id in this frame.
  abbrev pub has_id : List (STrack fl) → ℤ → Bool
  has_id [] id = false
  has_id (track ∷ tracks) id = eqb_ℤ track.track_id id || has_id tracks id

  abbrev pub lost_of : Option (ObjectTrackData fl) → Option ℕ
  lost_of none = none
  lost_of (some obj) = some obj.tracker.lost_count

  not_same : (i id : ℤ) → eqb_ℤ i id ≡ false → eqb_ℤ id i ≡ false
  not_same i id e = ground arith

  -- No id stands twice.
  abbrev pub IsOnce : Table fl → Type 0
  IsOnce [] = Unit {0}
  IsOnce ((id, obj) ∷ t) = (find_track fl t id ≡ none) × IsOnce t

  eqb_ℤ-apart : (i id key : ℤ) → eqb_ℤ i id ≡ false → eqb_ℤ i key ≡ true → eqb_ℤ id key ≡ false
  eqb_ℤ-apart i id key e f = ground arith

  eqb_ℤ-same : (i id key : ℤ) → eqb_ℤ i id ≡ true → eqb_ℤ i key ≡ eqb_ℤ id key
  eqb_ℤ-same i id key e = ap (λ x. eqb_ℤ x key) (eqb_ℤ→eq i id e)

  pub find-put :
      (t : Table fl) (id key : ℤ) (obj : ObjectTrackData fl)
      → find_track fl (put_track fl t id obj) key
        ≡ (if eqb_ℤ id key then some obj else find_track fl t key)
  unfolding find_track put_track
  find-put [] id key obj = refl
  find-put ((i, old) ∷ t) id key obj = elim (Bool-cases (eqb_ℤ i id)) [
    | inl e ↦ elim (Bool-cases (eqb_ℤ i key)) [
      | inl f ↦ simp (e, f, sym (eqb_ℤ-same i id key e) ∙ f) refl
      | inr f ↦ simp (e, f, sym (eqb_ℤ-same i id key e) ∙ f) refl
    ]
    | inr e ↦ elim (Bool-cases (eqb_ℤ i key)) [
      | inl f ↦ simp (e, f, eqb_ℤ-apart i id key e f) refl
      | inr f ↦ simp (e, f, find-put t id key obj) refl
    ]
  ]

  put_track-IsOnce :
      (t : Table fl) (id : ℤ) (obj : ObjectTrackData fl) → IsOnce t → IsOnce (put_track fl t id obj)
  unfolding find_track put_track
  put_track-IsOnce [] id obj h = (refl, tt)
  put_track-IsOnce ((i, old) ∷ t) id obj h = elim (Bool-cases (eqb_ℤ i id)) [
    | inl e ↦ simp (e) h
    | inr e ↦
        simp (e) (find-put t id i obj ∙ simp (not_same i id e) (h.0), put_track-IsOnce t id obj h.1)
  ]

  abbrev pub view : Option (ObjectTrackData fl) → Option (Bool × ℕ)
  view none = none
  view (some obj) = some (obj.tracker.checked, obj.tracker.lost_count)

  pub find-uncheck :
      (t : Table fl) (id : ℤ)
      → view (find_track fl (uncheck fl t) id) ≡ unchecked (lost_of (find_track fl t id))
  unfolding find_track uncheck
  find-uncheck [] id = refl
  find-uncheck ((i, obj) ∷ t) id = elim (Bool-cases (eqb_ℤ i id)) [
    | inl e ↦ simp (e) refl
    | inr e ↦ simp (e) (find-uncheck t id)
  ]

  view-none : (o : Option (ObjectTrackData fl)) → view o ≡ none → o ≡ none
  view-none none e = refl
  view-none (some o) e = absurd (ground arith)

  pub uncheck-IsOnce : (t : Table fl) → IsOnce t → IsOnce (uncheck fl t)
  unfolding uncheck
  uncheck-IsOnce [] h = tt
  uncheck-IsOnce ((i, obj) ∷ t) h =
      (view-none _ (find-uncheck t i ∙ ap (λ x. unchecked (lost_of x)) h.0), uncheck-IsOnce t h.1)

  object_from-view :
      (old : Option (ObjectTrackData fl)) (track : STrack fl) (det : Detection F)
      → view (some (record (object_from fl old track) { det = det })) ≡ some (true, 0)
  object_from-view none track det = refl
  object_from-view (some obj) track det = refl

  pub build-IsOnce :
      (prev updated : Table fl) (tracks : List (STrack fl)) (res : Marks fl)
      → IsOnce updated
      → IsOnce (build fl prev tracks res updated)
  unfolding build
  build-IsOnce prev updated [] res h = h
  build-IsOnce prev updated (track ∷ tracks) res h =
      let r = take_match fl track res in
      build-IsOnce prev
        (put_track fl updated track.track_id (record (object_of fl prev track) { det = r.0.1 }))
        tracks r.1 (put_track-IsOnce updated track.track_id _ h)

  view-put :
      (t : Table fl) (id key : ℤ) (obj : ObjectTrackData fl)
      → view (find_track fl (put_track fl t id obj) key)
        ≡ (if eqb_ℤ id key then view (some obj) else view (find_track fl t key))
  view-put t id key obj = elim (Bool-cases (eqb_ℤ id key)) [
    | inl e ↦ simp (e, find-put t id key obj) refl
    | inr e ↦ simp (e, find-put t id key obj) refl
  ]

  pub find-build :
      (prev updated : Table fl) (tracks : List (STrack fl)) (res : Marks fl) (id : ℤ)
      → view (find_track fl (build fl prev tracks res updated) id)
        ≡ (if has_id tracks id then some (true, 0) else view (find_track fl updated id))
  unfolding build
  find-build prev updated [] res id = refl
  find-build prev updated (track ∷ tracks) res id =
      let r = take_match fl track res in
      let obj : ObjectTrackData fl = record (object_of fl prev track) { det = r.0.1 } in
      let put = view-put updated track.track_id id obj in
      let is_fresh = object_from-view (find_track fl prev track.track_id) track (r.0.1) in
      find-build prev (put_track fl updated track.track_id obj) tracks r.1 id
      ∙ elim (Bool-cases (has_id tracks id)) [
        | inl h ↦ elim (Bool-cases (eqb_ℤ track.track_id id)) [
          | inl e ↦ simp (h, e) refl
          | inr e ↦ simp (h, e) refl
        ]
        | inr h ↦ elim (Bool-cases (eqb_ℤ track.track_id id)) [
          | inl e ↦ simp (h, e) (put ∙ simp (e) is_fresh)
          | inr e ↦ simp (h, e) (put ∙ simp (e) refl)
        ]
      ]

  pub find-apply :
      (t updated : Table fl) (id : ℤ)
      → IsOnce updated
      → view (find_track fl (apply_updates fl t updated) id)
        ≡ or_old (view (find_track fl updated id)) (view (find_track fl t id))
  unfolding apply_updates find_track
  find-apply t [] id h = refl
  find-apply t ((i, obj) ∷ updated) id h = elim (Bool-cases (eqb_ℤ i id)) [
    | inl e ↦
        let gone : find_track fl updated id ≡ none =
          subst (λ k. find_track fl updated k ≡ none) (eqb_ℤ→eq i id e) h.0 in
        find-apply (put_track fl t i obj) updated id h.1
        ∙ simp (e, gone) (view-put t i id obj ∙ simp (e) refl)
    | inr e ↦
        find-apply (put_track fl t i obj) updated id h.1
        ∙ simp (e)
            (ap (or_old (view (find_track fl updated id))) (view-put t i id obj ∙ simp (e) refl))
  ]

  pub apply_updates-IsOnce : (t updated : Table fl) → IsOnce t → IsOnce (apply_updates fl t updated)
  unfolding apply_updates
  apply_updates-IsOnce t [] h = h
  apply_updates-IsOnce t ((i, obj) ∷ updated) h =
      apply_updates-IsOnce (put_track fl t i obj) updated (put_track-IsOnce t i obj h)

  find-aged-none :
      (t : Table fl) (id : ℤ) → find_track fl t id ≡ none → find_track fl (aged fl t) id ≡ none
  unfolding find_track aged
  find-aged-none [] id h = refl
  find-aged-none ((i, obj) ∷ t) id h = elim (Bool-cases (eqb_ℤ i id)) [
    | inl e ↦ let gone : some obj ≡ none = simp (e) at h in absurd (ground arith)
    | inr e ↦
        let rest : find_track fl (aged fl t) id ≡ none = find-aged-none t id (simp (e) at h) in
        elim (Bool-cases obj.tracker.checked) [
          | inl c ↦ simp (c, e) rest
          | inr c ↦ elim (Bool-cases (ltb max_lost (suc obj.tracker.lost_count))) [
            | inl l ↦ simp (c, l) rest
            | inr l ↦ simp (c, l, e) rest
          ]
        ]
  ]

  pub aged-IsOnce : (t : Table fl) → IsOnce t → IsOnce (aged fl t)
  unfolding aged
  aged-IsOnce [] h = tt
  aged-IsOnce ((i, obj) ∷ t) h =
      let gone = find-aged-none t i h.0 in
      let rest = aged-IsOnce t h.1 in
      elim (Bool-cases obj.tracker.checked) [
        | inl c ↦ simp (c) (gone, rest)
        | inr c ↦ elim (Bool-cases (ltb max_lost (suc obj.tracker.lost_count))) [
          | inl l ↦ simp (c, l) rest
          | inr l ↦ simp (c, l) (gone, rest)
        ]
      ]

  pub find-aged :
      (t : Table fl) (id : ℤ)
      → IsOnce t
      → lost_of (find_track fl (aged fl t) id) ≡ grown (view (find_track fl t id))
  unfolding find_track aged
  find-aged [] id h = refl
  find-aged ((i, obj) ∷ t) id h = elim (Bool-cases (eqb_ℤ i id)) [
    | inl e ↦
        let gone : find_track fl (aged fl t) id ≡ none =
          subst (λ k. find_track fl (aged fl t) k ≡ none) (eqb_ℤ→eq i id e)
            (find-aged-none t i h.0) in
        elim (Bool-cases obj.tracker.checked) [
          | inl c ↦ simp (c, e) refl
          | inr c ↦ elim (Bool-cases (ltb max_lost (suc obj.tracker.lost_count))) [
            | inl l ↦ simp (c, l, e, gone) refl
            | inr l ↦ simp (c, l, e) refl
          ]
        ]
    | inr e ↦
        let rest = find-aged t id h.1 in
        elim (Bool-cases obj.tracker.checked) [
          | inl c ↦ simp (c, e) rest
          | inr c ↦ elim (Bool-cases (ltb max_lost (suc obj.tracker.lost_count))) [
            | inl l ↦ simp (c, l, e) rest
            | inr l ↦ simp (c, l, e) rest
          ]
        ]
  ]

-- ===== src/Osd/Fallback.antt =====
-- What the overlay can fall back to, and for how long.
use k180_project.Base.{
  ℕ, zero, suc, ◌+◌, ◌-◌, ◌≤◌, ◌<◌, ◌≡◌, ◌≢◌, refl, ◌∙◌, ap, true, false, ◌&&◌, List, [], ◌∷◌, ◌++◌,
  Option, none, some, length, take, drop, ltb, ◌==◌, pos, pos_part, ltb_ℤ, arith, length-append,
  length-take, Option-cases, Bool-cases, inl, inr,
}
use k180_project.Osd.{
  Latest, init_latest, int_max, to_u64, new, clear_latest, empty_result, copy_latest_result, store,
  grown, Call, updates, clears, inits, step, run,
}

module _ {D : Type 0} where
  -- A valid result is held whole.
  abbrev pub IsWhole : Latest D → Type 0
  IsWhole l = l.valid ≡ true → l.det_count ≤ length l.det_host

  take-append : (n : ℕ) (xs ys : List D) → n ≤ length xs → take n (take n xs ++ ys) ≡ take n xs
  take-append zero xs ys h = refl
  take-append (suc n) [] ys h = absurd (omega arith)
  take-append (suc n) (x ∷ xs) ys h = ap (◌∷◌ x) (take-append n xs ys (omega arith))

  -- A copy from a whole result does not read outside of it.
  pub copy-defined : (l : Latest D) (f : ℕ) → IsWhole l → copy_latest_result l f ≡ none → ⊥
  unfolding copy_latest_result
  copy-defined l f w h = ground arith

module _ {D : Type 0} (blank : D) where
  store-IsWhole :
      (l l' : Latest D) (f : ℕ) (det : List D) (n : ℕ)
      → store blank l f det n ≡ some l'
      → IsWhole l'
  unfolding store
  store-IsWhole l l' f det n h =
      let long = length-append (take n det) (drop n (grown blank l.det_host n)) in
      let taken = length-take n det in ground arith

  -- Every array that is given is as long as the count that comes with it.
  abbrev pub IsSupplied : List (Call D) → Type 0
  IsSupplied [] = Unit {0}
  IsSupplied (updates f none n ∷ cs) = IsSupplied cs
  IsSupplied (updates f (some det) n ∷ cs) = (pos_part n ≤ length det) × IsSupplied cs
  IsSupplied (clears ∷ cs) = IsSupplied cs
  IsSupplied (inits n ∷ cs) = IsSupplied cs

  -- What a call leaves: a whole result, and one empty result more at most.
  abbrev Goes : Latest D → Option (Latest D) → Type 0
  Goes l r = (l' : Latest D) × (r ≡ some l') × IsWhole l' × (l'.empty_streak ≤ l.empty_streak + 1)

  store-Goes :
      (l : Latest D) (f : ℕ) (det : List D) (n : ℕ)
      → n ≤ length det
      → Goes l (store blank l f det n)
  unfolding store
  store-Goes l f det n h = elim (Option-cases (store blank l f det n)) [
    | inl e ↦ absurd (ground arith)
    | inr (l', e) ↦ (l', e, store-IsWhole l l' f det n e, ground arith)
  ]

  empty_result-Goes :
      (l : Latest D) (f : ℕ) → IsWhole l → l.empty_streak < int_max → Goes l (empty_result l f)
  unfolding empty_result
  empty_result-Goes l f w h = elim (Option-cases (empty_result l f)) [
    | inl e ↦ absurd (ground arith)
    | inr (l', e) ↦ (l', e, ground arith, ground arith)
  ]

  step-Goes :
      (l : Latest D) (c : Call D)
      → IsWhole l
      → l.empty_streak < int_max
      → IsSupplied (c ∷ [])
      → Goes l (step blank l c)
  unfolding step
  step-Goes l (updates f none n) w h s = empty_result-Goes l f w h
  step-Goes l (updates f (some det) n) w h s = elim (Bool-cases (ltb_ℤ (pos 0) n)) [
    | inl e ↦ simp (e) (store-Goes l f det (pos_part n) s.0)
    | inr e ↦ simp (e) (empty_result-Goes l f w h)
  ]
  step-Goes l clears w h s = (clear_latest l, refl, ground arith, ground arith)
  step-Goes l (inits n) w h s = (init_latest blank l n, refl, ground arith, ground arith)

  IsSupplied-cons :
      (c : Call D) (cs : List (Call D)) → IsSupplied (c ∷ cs) → IsSupplied (c ∷ []) × IsSupplied cs
  IsSupplied-cons (updates f none n) cs s = (tt, s)
  IsSupplied-cons (updates f (some det) n) cs s = ((s.0, tt), s.1)
  IsSupplied-cons clears cs s = (tt, s)
  IsSupplied-cons (inits n) cs s = (tt, s)

  new-IsWhole : IsWhole {D = D} new
  unfolding new
  new-IsWhole = ground arith

  new-few :
      (cs : List (Call D)) → length cs ≤ int_max → (new {D = D}).empty_streak + length cs ≤ int_max
  unfolding new
  new-few cs h = omega (arith, h)

  run-cons :
      (l l' : Latest D) (c : Call D) (cs : List (Call D))
      → step blank l c ≡ some l'
      → run blank l (c ∷ cs) ≡ run blank l' cs
  unfolding run
  run-cons l l' c cs e = ap (λ r. elim r [ none ↦ none | some x ↦ run blank x cs ]) e

  run-defined :
      (l : Latest D) (cs : List (Call D))
      → IsWhole l
      → l.empty_streak + length cs ≤ int_max
      → IsSupplied cs
      → (l' : Latest D) × (run blank l cs ≡ some l') × IsWhole l'
  unfolding run
  run-defined l [] w h s = (l, refl, w)
  run-defined l (c ∷ cs) w h s =
      let (first, rest) = IsSupplied-cons c cs s in
      let (l1, e, w1, n1) = step-Goes l c w (omega arith) first in
      let (l2, e2, w2) = run-defined l1 cs w1 (omega arith) rest in
      (l2, run-cons l l1 c cs e ∙ e2, w2)

  -- Whatever is called on a new latest result, fewer than 2^31 calls, each array being as long as the
  -- count that comes with it: no call faults, and no copy after them reads outside of the vector.
  pub run-copy_defined :
      (cs : List (Call D)) (f : ℕ)
      → length cs ≤ int_max
      → IsSupplied cs
      → (l : Latest D) × (run blank new cs ≡ some l) × (copy_latest_result l f ≢ none)
  run-copy_defined cs f h s =
      let (l, e, w) = run-defined new cs new-IsWhole (new-few cs h) s in (l, e, copy-defined l f w)

  -- Calls that bring no detections.
  abbrev pub AllEmpty : List (Call D) → Type 0
  AllEmpty [] = Unit {0}
  AllEmpty (updates f none n ∷ cs) = AllEmpty cs
  AllEmpty (updates f (some det) n ∷ cs) = (ltb_ℤ (pos 0) n ≡ false) × AllEmpty cs
  AllEmpty (clears ∷ cs) = ⊥
  AllEmpty (inits n ∷ cs) = ⊥

  empty_result-kept :
      (l : Latest D) (f m : ℕ)
      → l.clear_after_empty ≡ pos m
      → l.empty_streak + 1 < m
      → m ≤ int_max
      → empty_result l f ≡ some (record l { empty_streak = l.empty_streak + 1 })
  unfolding empty_result
  empty_result-kept l f m e lt le = ground arith

  empty-step :
      (l : Latest D) (c : Call D) (cs : List (Call D))
      → AllEmpty (c ∷ cs)
      → (f : ℕ) × (step blank l c ≡ empty_result l f) × AllEmpty cs
  unfolding step
  empty-step l (updates f none n) cs h = (f, refl, h)
  empty-step l (updates f (some det) n) cs h = (f, simp (h.0), h.1)
  empty-step l clears cs h = elim h [ ]
  empty-step l (inits n) cs h = elim h [ ]

  run-empties :
      (l : Latest D) (cs : List (Call D)) (m : ℕ)
      → AllEmpty cs
      → l.clear_after_empty ≡ pos m
      → l.empty_streak + length cs < m
      → m ≤ int_max
      → run blank l cs ≡ some (record l { empty_streak = l.empty_streak + length cs })
  unfolding run
  run-empties l [] m a e lt le = ap (λ k. some (record l { empty_streak = k })) (omega arith)
  run-empties l (c ∷ cs) m a e lt le =
      let (f, is_empty, rest) = empty-step l c cs a in
      let kept = empty_result-kept l f m e (omega arith) le in
      let l1 : Latest D = record l { empty_streak = l.empty_streak + 1 } in
      let tail = run-empties l1 cs m rest e (omega arith) le in
      run-cons l l1 c cs (is_empty ∙ kept)
      ∙ tail
      ∙ ap (λ k. some (record l { empty_streak = k })) (omega arith)

  in_time : (f g most : ℕ) → g - f ≤ most → (ltb f g && ltb most (g - f)) ≡ false
  in_time f g most s = ground arith

  store-copy :
      (l : Latest D) (f g : ℕ) (det : List D) (n : ℕ)
      → 0 < n
      → n ≤ length det
      → 0 < f
      → f ≤ g
      → g - f ≤ to_u64 l.max_fallback_frames
      → (l' : Latest D) × (store blank l f det n ≡ some l')
        × (l'.clear_after_empty ≡ l.clear_after_empty)
        × (l'.empty_streak ≡ 0)
        × ((k : ℕ)
            → copy_latest_result (record l' { empty_streak = k }) g ≡ some (some (take n det, f)))
  unfolding store copy_latest_result
  store-copy l f g det n p h q r s =
      let host = take n det ++ drop n (grown blank l.det_host n) in
      let whole : n ≤ length host = omega (
        arith,
        length-append (take n det) (drop n (grown blank l.det_host n)),
        length-take n det,
        h,
      ) in
      let some_det : (n == 0) ≡ false = ground arith in
      let some_frame : (f == 0) ≡ false = ground arith in
      let not_later : ltb g f ≡ false = ground arith in
      let young : (ltb f g && ltb (to_u64 l.max_fallback_frames) (g - f)) ≡ false =
        in_time f g (to_u64 l.max_fallback_frames) s in
      let inside : ltb (length host) n ≡ false = ground arith in
      let full : ltb (length det) n ≡ false = ground arith in
      (
        record l { det_host = host; det_count = n; frame_seq = f; valid = true; empty_streak = 0 },
        simp (full),
        refl,
        refl,
        λ k. simp (
          some_det,
          some_frame,
          not_later,
          young,
          inside,
          take-append n det (drop n (grown blank l.det_host n)) h,
        ),
      )

  update-store :
      (l : Latest D) (f : ℕ) (det : List D) (n : ℕ)
      → 0 < n
      → step blank l (updates f (some det) (pos n)) ≡ store blank l f det n
  unfolding step
  update-store l f det n p =
      let positive : ltb_ℤ (pos 0) (pos n) ≡ true = ground arith in simp (positive)

  -- After a result of n detections at frame f, with n and f positive and an array of n or more, a copy for
  -- a frame that is f or later, by no more than the fallback limit, gets these n detections and f, as
  -- long as fewer empty results than clear the result, but no other calls, have come since; no call
  -- faults. The number that clears is no more than the greatest int.
  pub update-copy_latest_result :
      (l : Latest D) (f g n m : ℕ) (det : List D) (cs : List (Call D))
      → 0 < n
      → n ≤ length det
      → 0 < f
      → f ≤ g
      → g - f ≤ to_u64 l.max_fallback_frames
      → AllEmpty cs
      → l.clear_after_empty ≡ pos m
      → length cs < m
      → m ≤ int_max
      → (l' : Latest D) × (run blank l (updates f (some det) (pos n) ∷ cs) ≡ some l')
        × (copy_latest_result l' g ≡ some (some (take n det, f)))
  update-copy_latest_result l f g n m det cs p h q r s a e lt le =
      let (l1, stored, same, fresh, copied) = store-copy l f g det n p h q r s in
      let tail = run-empties l1 cs m a (same ∙ e) (omega arith) le in
      (
        record l1 { empty_streak = l1.empty_streak + length cs },
        run-cons l l1 (updates f (some det) (pos n)) cs (update-store l f det n p ∙ stored) ∙ tail,
        copied (l1.empty_streak + length cs),
      )

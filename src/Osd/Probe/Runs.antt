-- ===== src/Osd/Probe/Runs.antt =====
-- k180_osd_probe.cpp: the probe over any sequence of buffers.
use k180_project.Base.{
  length, ℕ, ◌+◌, ◌≤◌, ◌<◌, ◌≡◌, refl, ◌∙◌, inl, inr, Bool, true, false, not, ◌||◌, List, [], ◌∷◌,
  Option, none, some, if◌then◌else◌, arith, Option-cases, Bool-cases,
}
use k180_project.Osd.Probe.{
  Cuda, resolve, Shared, Event, Boxes, no_boxes, resolve_both, count_untagged, mux_src_pad_probe,
  run,
}
use k180_project.Osd.Probe.Answer.{IsRoomy, Resolves}
use k180_project.Osd.Probe.Choice.{resolve-Resolves}
use k180_project.Osd.Probe.Counts.{IsKept, Goes, resolve_both-Goes, count_untagged-IsKept}

module _ {D : Type 0} where
  -- How often a buffer is answered, and how often it counts as untagged.
  pub answered : Event D → ℕ
  answered e =
      if not e.is_buffer || not e.has_buffer
      then 0
      else elim e.tag [ none ↦ 0 | some f ↦ if not e.has_batch then 0 else 1 ]

  pub untagged : Event D → ℕ
  untagged e =
      if not e.is_buffer || not e.has_buffer then 0 else elim e.tag [ none ↦ 1 | some f ↦ 0 ]

  pub total : (Event D → ℕ) → List (Event D) → ℕ
  total f [] = 0
  total f (e ∷ es) = f e + total f es

  abbrev pub AllRoomy : ℕ → List (Event D) → Type 0
  AllRoomy max [] = Unit {0}
  AllRoomy max (e ∷ es) = IsRoomy max e.det_cuda × IsRoomy max e.track_cuda × AllRoomy max es

  -- What a buffer leads to, and how it counts.
  abbrev Does : Shared D → Event D → Option (Shared D × Boxes D) → ℕ → ℕ → Type 0
  Does s e r a u = (mux_src_pad_probe s e ≡ r) × (answered e ≡ a) × (untagged e ≡ u)

  abbrev is_ignored : Event D → Bool
  is_ignored e = not e.is_buffer || not e.has_buffer

  ignored-Does :
      (s : Shared D) (e : Event D) → is_ignored e ≡ true → Does s e (some (s, no_boxes)) 0 0
  unfolding mux_src_pad_probe answered untagged
  ignored-Does s e i = (simp (i), simp (i), simp (i))

  untagged-Does :
      (s : Shared D) (e : Event D)
      → is_ignored e ≡ false
      → e.tag ≡ none
      → Does s e (some (count_untagged s, no_boxes)) 0 1
  unfolding mux_src_pad_probe answered untagged
  untagged-Does s e i t = (simp (i, t), simp (i, t), simp (i, t))

  no_batch-Does :
      (s : Shared D) (e : Event D) (f : ℕ)
      → is_ignored e ≡ false
      → e.tag ≡ some f
      → e.has_batch ≡ false
      → Does s e (some (s, no_boxes)) 0 0
  unfolding mux_src_pad_probe answered untagged
  no_batch-Does s e f i t b = (simp (i, t, b), simp (i, t, b), simp (i, t, b))

  batch-Does :
      (s : Shared D) (e : Event D) (f : ℕ)
      → is_ignored e ≡ false
      → e.tag ≡ some f
      → e.has_batch ≡ true
      → Does s e (resolve_both s e f) 1 0
  unfolding mux_src_pad_probe answered untagged
  batch-Does s e f i t b = (simp (i, t, b), simp (i, t, b), simp (i, t, b))

  IsKept-same :
      (max n n' u u' : ℕ) (s : Shared D) → n ≡ n' → u ≡ u' → IsKept max n u s → IsKept max n' u' s
  IsKept-same max n n' u u' s hn hu v = record {
    det_sound = v.det_sound;
    track_sound = v.track_sound;
    det_counted = record { answers = v.det_counted.answers ∙ hn; reasons = omega arith };
    track_counted = record {
      answers = v.track_counted.answers ∙ hn;
      reasons = v.track_counted.reasons;
    };
  }

  Does-Goes :
      (max n u n' u' a b : ℕ) (s : Shared D) (e : Event D) (r : Option (Shared D × Boxes D))
      → Does s e r a b
      → n' ≡ n + a
      → u' ≡ u + b
      → Goes max n' u' r
      → Goes max (n + answered e) (u + untagged e) (mux_src_pad_probe s e)
  Does-Goes max n u n' u' a b s e r (same, ea, eb) hn hu (s', x, er, v) =
      (s', x, same ∙ er, IsKept-same max n' _ u' _ s' (omega arith) (omega arith) v)

  passed-Goes :
      (max n u : ℕ) (s : Shared D) (e : Event D)
      → n + u + 1 < 18446744073709551616
      → IsKept max n u s
      → IsRoomy max e.det_cuda
      → IsRoomy max e.track_cuda
      → Goes max (n + answered e) (u + untagged e) (mux_src_pad_probe s e)
  passed-Goes max n u s e h v rd rt = elim (Bool-cases (is_ignored e)) [
    | inl i ↦
        Does-Goes max n u n u 0 0 s e _ (ignored-Does s e i) (omega arith) (omega arith)
          (s, no_boxes, refl, v)
    | inr i ↦ elim (Option-cases e.tag) [
      | inl t ↦
          Does-Goes max n u n (u + 1) 0 1 s e _ (untagged-Does s e i t) (omega arith) (omega arith)
            (count_untagged s, no_boxes, refl, count_untagged-IsKept max n u s h v)
      | inr (f, t) ↦ elim (Bool-cases e.has_batch) [
        | inl b ↦
            Does-Goes max n u (n + 1) u 1 0 s e _ (batch-Does s e f i t b) (omega arith)
              (omega arith) (resolve_both-Goes max n u s e f h v rd rt)
        | inr b ↦
            Does-Goes max n u n u 0 0 s e _ (no_batch-Does s e f i t b) (omega arith) (omega arith)
              (s, no_boxes, refl, v)
      ]
    ]
  ]

  passes_once : (e : Event D) → answered e + untagged e ≤ 1
  unfolding answered untagged
  passes_once e = ground arith

  run-IsKept :
      (max n u : ℕ) (s : Shared D) (es : List (Event D))
      → n + u + length es < 18446744073709551616
      → IsKept max n u s
      → AllRoomy max es
      → (s' : Shared D) × (run s es ≡ some s')
        × IsKept max (n + total answered es) (u + total untagged es) s'
  unfolding run total
  run-IsKept max n u s [] h v r = (s, refl, IsKept-same max n _ u _ s (omega arith) (omega arith) v)
  run-IsKept max n u s (e ∷ es) h v (rd, rt, r) =
      let once = passes_once e in
      let (s1, b1, e1, v1) = passed-Goes max n u s e (omega arith) v rd rt in
      let (s2, e2, v2) =
        run-IsKept max (n + answered e) (u + untagged e) s1 es (omega arith) v1 r in
      (s2, rw (e1, run) e2, IsKept-same max _ _ _ _ s2 (omega arith) (omega arith) v2)

  -- When no slot counts more detections than its array holds and the latest results are whole, any
  -- sequence of buffers, fewer than 2 to the 64, passes without a copy out of bounds, and on each path the
  -- exact answers, the fallbacks and the misses count the tagged buffers with a batch, each once. What a
  -- path then answers for a frame is exactly one of these: the boxes of the frame's slot, where its event is
  -- done both times it is asked and it has one or more; without these, a copy of the latest result, where
  -- that may stand in; and without both no boxes, counted as a miss that was not found where the frame has
  -- no slot, and as one that was not ready where it has a slot.
  pub run-Resolves :
      (max n u : ℕ) (s : Shared D) (es : List (Event D))
      → n + u + length es < 18446744073709551616
      → IsKept max n u s
      → AllRoomy max es
      → (s' : Shared D) × (run s es ≡ some s')
        × IsKept max (n + total answered es) (u + total untagged es) s'
        × ((q : Cuda D) (f : ℕ)
            → IsRoomy max q
            → Resolves max q s'.det f (resolve q s'.det f)
              × Resolves max q s'.track f (resolve q s'.track f))
  run-Resolves max n u s es h v r =
      let (s', e, v') = run-IsKept max n u s es h v r in
      (
        s',
        e,
        v',
        λ q f room. (
          resolve-Resolves max q s'.det f v'.det_sound room,
          resolve-Resolves max q s'.track f v'.track_sound room,
        ),
      )

-- ===== src/Osd/Probe/Choice.antt =====
-- k180_osd_probe.cpp: the boxes that a path gives for a frame.
use k180_project.Base.{
  ℤ, pos, negsuc, ◌<◌, Bool-cases, ltb, subst, ℕ, zero, suc, ◌≤◌, ◌≡◌, ◌≢◌, refl, sym, ◌∙◌, ap, inl,
  inr, Bool, true, false, List, [], ◌∷◌, Option, none, some, length, add64, get_or, arith,
  Option-cases,
}
use k180_project.Osd.{copy_latest_result}
use k180_project.Osd.Fallback.{copy-defined}
use k180_project.Osd.Slots.{OsdDetSlot, osd_release_slot, find_slot_by_frame_seq_from}
use k180_project.Osd.Probe.{
  Query, success, not_ready, error, Side, Cuda, release_at, no_slot, count_of, copy_exact,
  copy_first, miss, use_fallback, use_exact, fall_back, done_slot, exact_slot, resolve,
}
use k180_project.Osd.Probe.Answer.{
  IsAtMost, IsPositive, AllWithin, IsSound, IsRoomy, missed, fell, Gives, GivesNone, Reason,
  Resolves,
}

AllWithin-get :
    (max : ℕ) (ss : List OsdDetSlot) (i : ℕ)
    → AllWithin max ss
    → IsAtMost max (count_of (get_or ss i no_slot).det_count_host)
AllWithin-get max [] i h = omega arith
AllWithin-get max (s ∷ ss) zero h = h.0
AllWithin-get max (s ∷ ss) (suc i) h = AllWithin-get max ss i h.1

AllWithin-release :
    (max : ℕ) (ss : List OsdDetSlot) (i : ℕ) → AllWithin max ss → AllWithin max (release_at ss i)
unfolding release_at osd_release_slot
AllWithin-release max [] i h = h
AllWithin-release max (s ∷ ss) zero h = (ground arith, h.1)
AllWithin-release max (s ∷ ss) (suc i) h = (h.0, AllWithin-release max ss i h.1)

module _ {D : Type 0} where
  miss-missed :
      (s' s : Side D) (found : Bool)
      → s'.counters ≡ s.counters
      → (miss s' found).0.counters ≡ missed s.counters found
  unfolding miss
  miss-missed s' s true e = ap (λ c. missed c true) e
  miss-missed s' s false e = ap (λ c. missed c false) e

  -- `s'` is the path after a release, or `s` itself.
  fall_back-Resolves :
      (max : ℕ) (q : Cuda D) (s s' : Side D) (f : ℕ) (found : Bool)
      → Reason q s f found
      → IsSound max s'
      → s'.latest ≡ s.latest
      → s'.counters ≡ s.counters
      → Resolves max q s f (fall_back s' f found)
  unfolding fall_back miss use_fallback
  fall_back-Resolves max q s s' f found why v el ec =
      let same = ap (λ l. copy_latest_result l f) el in
      elim (Option-cases (copy_latest_result s'.latest f)) [
        | inl e ↦ absurd (copy-defined s'.latest f v.whole e)
        | inr (none, e) ↦
            rw (e, fall_back)
              record {
                value = miss s' found;
                returns = refl;
                chosen =
                    inr (found, why, inr (sym same ∙ e, refl, refl, miss-missed s' s found ec));
                sound = record { whole = v.whole; within = v.within };
                latest = el;
              }
        | inr (some (boxes, seq), e) ↦
            rw (e, fall_back)
              record {
                value = use_fallback s' boxes;
                returns = refl;
                chosen = inr (found, why, inl (seq, sym same ∙ e, refl, fallback_counted ec));
                sound = record { whole = v.whole; within = v.within };
                latest = el;
              }
      ]
    where
      fallback_counted :
          s'.counters ≡ s.counters
          → record (s'.counters) { fallback_used = add64 s'.counters.fallback_used 1 }
            ≡ record (s.counters) { fallback_used = add64 s.counters.fallback_used 1 }
      fallback_counted e = ap fell e

  -- What the copy gives, where the count is within the array.
  abbrev Copies : Cuda D → OsdDetSlot → Option (List D) → Option (Option (List D)) → Type 0
  Copies q s o none = ⊥
  Copies q s o (some none) = GivesNone q s o
  Copies q s o (some (some boxes)) = Gives q s o boxes

  copy_first-Copies :
      (max : ℕ) (q : Cuda D) (s : OsdDetSlot) (det : List D) (c : ℤ)
      → q.again ≡ true
      → count_of s.det_count_host ≡ c
      → max ≤ length det
      → IsAtMost max c
      → Copies q s (some det) (copy_first c det)
  unfolding copy_first
  copy_first-Copies max q s det (negsuc n) again e roomy h = inr (inr (λ p. subst IsPositive e p))
  copy_first-Copies max q s det (pos zero) again e roomy h =
      inr (inr (λ p. absurd (none_below (subst IsPositive e p))))
    where
      none_below : ¬ (0 < 0)
      none_below p = omega arith
  copy_first-Copies max q s det (pos (suc n)) again e roomy h =
      let fits : ltb (length det) (suc n) ≡ false = ground arith in
      rw (fits, copy_first) (again, n, e, det, refl, refl)

  copy_exact-Copies :
      (max : ℕ) (q : Cuda D) (s : OsdDetSlot) (o : Option (List D))
      → ((det : List D) → o ≡ some det → max ≤ length det)
      → IsAtMost max (count_of s.det_count_host)
      → Copies q s o (copy_exact q s o)
  unfolding copy_exact
  copy_exact-Copies max q s none roomy h = inr (inl refl)
  copy_exact-Copies max q s (some det) roomy h = elim (Bool-cases q.again) [
    | inl again ↦
        simp (again, copy_exact)
          (copy_first-Copies max q s det (count_of s.det_count_host) again refl (roomy det refl) h)
    | inr again ↦ simp (again, copy_exact) (inl refl)
  ]

  done_slot-Resolves :
      (max : ℕ) (q : Cuda D) (s : Side D) (f i : ℕ)
      → IsSound max s
      → IsRoomy max q
      → find_slot_by_frame_seq_from s.slots 0 f ≡ some i
      → q.query ≡ success
      → Resolves max q s f (done_slot q s f i)
  unfolding done_slot use_exact
  done_slot-Resolves max q s f i v roomy found ready =
      let slot = get_or s.slots i no_slot in
      let released : Side D = record s { slots = release_at s.slots i } in
      let still : IsSound max released = record {
        whole = v.whole;
        within = AllWithin-release max s.slots i v.within;
      } in
      let copies =
        copy_exact-Copies max q slot (q.det_host i) (roomy i)
          (AllWithin-get max s.slots i v.within) in
      elim (Option-cases (copy_exact q slot (q.det_host i))) [
        | inl e ↦ absurd (subst (Copies q slot (q.det_host i)) e copies)
        | inr (none, e) ↦
            let why = subst (Copies q slot (q.det_host i)) e copies in
            rw (e, done_slot)
              (fall_back-Resolves max q s released f true (i, found, inr why) still refl refl)
        | inr (some boxes, e) ↦
            rw (e, done_slot)
              record {
                value = use_exact released boxes;
                returns = refl;
                chosen =
                    inl
                      (i, found, ready, subst (Copies q slot (q.det_host i)) e copies, refl, refl);
                sound = record { whole = v.whole; within = still.within };
                latest = refl;
              }
      ]

  exact_slot-Resolves :
      (max : ℕ) (e : Query) (q : Cuda D) (s : Side D) (f i : ℕ)
      → IsSound max s
      → IsRoomy max q
      → find_slot_by_frame_seq_from s.slots 0 f ≡ some i
      → q.query ≡ e
      → Resolves max q s f (exact_slot e q s f i)
  unfolding exact_slot
  exact_slot-Resolves max success q s f i v roomy found e =
      done_slot-Resolves max q s f i v roomy found e
  exact_slot-Resolves max not_ready q s f i v roomy found e =
      fall_back-Resolves max q s s f true (i, found, inl (λ h. not_ready-success (sym e ∙ h))) v
        refl refl
    where
      not_ready-success : not_ready ≢ success
      not_ready-success h = cc
  exact_slot-Resolves max error q s f i v roomy found e =
      let released : Side D = record s { slots = release_at s.slots i } in
      let within = AllWithin-release max s.slots i v.within in
      fall_back-Resolves max q s released f true (i, found, inl (λ h. error-success (sym e ∙ h)))
        (record { whole = v.whole; within = within }) refl refl
    where
      error-success : error ≢ success
      error-success h = cc

  -- The answer of a path for a frame, when no slot counts more detections than its array holds and the
  -- latest result is whole: no copy is out of bounds, the boxes and the counters are as `Chosen` says, and
  -- the path stays sound, with the same latest result.
  pub resolve-Resolves :
      (max : ℕ) (q : Cuda D) (s : Side D) (f : ℕ)
      → IsSound max s
      → IsRoomy max q
      → Resolves max q s f (resolve q s f)
  unfolding resolve
  resolve-Resolves max q s f v roomy =
      elim (Option-cases (find_slot_by_frame_seq_from s.slots 0 f)) [
        | inl e ↦ rw (e, resolve) (fall_back-Resolves max q s s f false e v refl refl)
        | inr (i, e) ↦ rw (e, resolve) (exact_slot-Resolves max q.query q s f i v roomy e refl)
      ]

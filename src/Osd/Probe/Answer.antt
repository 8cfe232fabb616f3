-- ===== src/Osd/Probe/Answer.antt =====
-- k180_osd_probe.cpp: what the boxes are that a path gives for a frame.
use k180_project.Base.{
  ℤ, pos, negsuc, ◌<◌, take, ℕ, suc, ◌≤◌, ◌≡◌, ◌≢◌, ◌⊎◌, inl, inr, Bool, true, false, not, List, [],
  ◌∷◌, Option, none, some, length, add64, get_or,
}
use k180_project.Osd.{copy_latest_result}
use k180_project.Osd.Fallback.{IsWhole}
use k180_project.Osd.Slots.{OsdDetSlot, find_slot_by_frame_seq_from}
use k180_project.Osd.Probe.{success, Counters, Side, Cuda, no_slot, count_of, is_nil, Resolved}

abbrev pub IsAtMost : ℕ → ℤ → Type 0
IsAtMost max (pos n) = n ≤ max
IsAtMost max (negsuc n) = Unit {0}

abbrev pub IsPositive : ℤ → Type 0
IsPositive (pos n) = 0 < n
IsPositive (negsuc n) = ⊥

-- No slot counts more than `max` detections.
abbrev pub AllWithin : ℕ → List OsdDetSlot → Type 0
AllWithin max [] = Unit {0}
AllWithin max (s ∷ ss) = IsAtMost max (count_of s.det_count_host) × AllWithin max ss

-- The latest result is held whole, and no slot counts more than the arrays hold.
pub record IsSound {D : Type 0} (max : ℕ) (s : Side D) : Type 0 where
  pub whole : IsWhole s.latest
  pub within : AllWithin max s.slots

-- Each array behind a slot is long enough.
abbrev pub IsRoomy : {D : Type 0} → ℕ → Cuda D → Type 0
IsRoomy {D} max q = (i : ℕ) (det : List D) → q.det_host i ≡ some det → max ≤ length det

-- One counter has gone up, or two where nothing was found.
abbrev pub Counted : Counters → Counters → Type 0
Counted c c' =
    (c' ≡ record c { exact_ready_ok = add64 c.exact_ready_ok 1 })
    ⊎ (c' ≡ record c { fallback_used = add64 c.fallback_used 1 })
    ⊎ (c' ≡ record c {
      fallback_miss = add64 c.fallback_miss 1;
      miss_not_ready = add64 c.miss_not_ready 1;
    })
    ⊎ (c' ≡ record c {
      fallback_miss = add64 c.fallback_miss 1;
      miss_not_found = add64 c.miss_not_found 1;
    })

abbrev pub fell : Counters → Counters
fell c = record c { fallback_used = add64 c.fallback_used 1 }

-- The counters after a miss, where a slot was found and where there was none.
abbrev pub missed : Counters → Bool → Counters
missed c true = record c {
  fallback_miss = add64 c.fallback_miss 1;
  miss_not_ready = add64 c.miss_not_ready 1;
}
missed c false = record c {
  fallback_miss = add64 c.fallback_miss 1;
  miss_not_found = add64 c.miss_not_found 1;
}

module _ {D : Type 0} where
  -- What a slot whose event is done gives: as many detections as it counts, one or more.
  abbrev pub Gives : Cuda D → OsdDetSlot → Option (List D) → List D → Type 0
  Gives q slot det_host boxes =
      (q.again ≡ true)
      × (n : ℕ) × (count_of slot.det_count_host ≡ pos (suc n))
      × (det : List D) × (det_host ≡ some det)
      × (boxes ≡ take (suc n) det)

  abbrev pub GivesNone : Cuda D → OsdDetSlot → Option (List D) → Type 0
  GivesNone q slot det_host =
      (q.again ≡ false) ⊎ (det_host ≡ none) ⊎ ¬ IsPositive (count_of slot.det_count_host)

  -- Why there are no exact boxes: there is no slot of the frame, or there is one, whose event is not done or
  -- which gives none.
  abbrev pub Reason : Cuda D → Side D → ℕ → Bool → Type 0
  Reason q s f false = find_slot_by_frame_seq_from s.slots 0 f ≡ none
  Reason q s f true =
      (i : ℕ) × (find_slot_by_frame_seq_from s.slots 0 f ≡ some i)
      × ((q.query ≢ success) ⊎ GivesNone q (get_or s.slots i no_slot) (q.det_host i))

  -- The boxes are those of the exact slot, if its event is done and it gives some; else a copy of the
  -- latest result, if that may stand in, or there are none, and the miss is counted by its reason.
  abbrev pub Chosen : Cuda D → Side D → ℕ → Resolved D → Type 0
  Chosen q s f r =
      ((i : ℕ) × (find_slot_by_frame_seq_from s.slots 0 f ≡ some i)
        × (q.query ≡ success)
        × Gives q (get_or s.slots i no_slot) (q.det_host i) r.1
        × (r.2 ≡ true)
        × (r.0.counters
            ≡ record (s.counters) { exact_ready_ok = add64 s.counters.exact_ready_ok 1 }))
      ⊎ ((found : Bool) × Reason q s f found
          × (((seq : ℕ) × (copy_latest_result s.latest f ≡ some (some (r.1, seq)))
                × (r.2 ≡ not (is_nil r.1))
                × (r.0.counters
                    ≡ record (s.counters) { fallback_used = add64 s.counters.fallback_used 1 }))
              ⊎ (copy_latest_result s.latest f ≡ some none)
                × (r.1 ≡ [])
                × (r.2 ≡ false)
                × (r.0.counters ≡ missed s.counters found)))

  pub Chosen-Counted :
      (q : Cuda D) (s : Side D) (f : ℕ) (r : Resolved D)
      → Chosen q s f r
      → Counted s.counters r.0.counters
  Chosen-Counted q s f r (inl (i, e, ready, gives, at, c)) = inl c
  Chosen-Counted q s f r (inr (found, why, inl (seq, e, at, c))) = inr (inl c)
  Chosen-Counted q s f r (inr (true, why, inr (e, nothing, at, c))) = inr (inr (inl c))
  Chosen-Counted q s f r (inr (false, why, inr (e, nothing, at, c))) = inr (inr (inr c))

  pub record Resolves (max : ℕ) (q : Cuda D) (s : Side D) (f : ℕ) (o : Option (Resolved D))
      : Type 0 where
    pub value : Resolved D
    pub returns : o ≡ some value
    pub chosen : Chosen q s f value
    pub sound : IsSound max value.0
    pub latest : value.0.latest ≡ s.latest

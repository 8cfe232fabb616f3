-- ===== src/Osd/Slots/Outcome.antt =====
-- k180_osd_slots.cpp: which slot is acquired, and which is found.
use k180_project.Base.{
  ℕ, suc, ◌+◌, ◌≡◌, refl, ap, ◌∙◌, subst, ◌⊎◌, inl, inr, Bool, true, false, not, ◌&&◌, List, [],
  ◌∷◌, ◌++◌, Option, none, some, length, ◌==◌, arith, Bool-cases,
}
use k180_project.Osd.Slots.{
  infer_pending, OsdDetSlot, is_free, osd_release_slot, acquire_free_slot_from,
  find_slot_by_frame_seq_from, release_all,
}

-- Every slot, counted from `i`, waits for an event that is not done.
abbrev pub AllBusy : (ℕ → Bool) → ℕ → List OsdDetSlot → Type 0
AllBusy ready i [] = Unit {0}
AllBusy ready i (s ∷ ss) = (is_free s.state ≡ false) × (ready i ≡ false) × AllBusy ready (suc i) ss

-- The first slot that is free or done is taken, and no other changes; or all are busy.
pub data Acquired (ready : ℕ → Bool) (i : ℕ) (ss ss' : List OsdDetSlot) (taken : Option ℕ)
    : Type 0 where
  all_busy : AllBusy ready i ss → ss' ≡ ss → taken ≡ none → Acquired ready i ss ss' taken
  first :
      (busy rest : List OsdDetSlot) (s s' : OsdDetSlot)
      → AllBusy ready i busy
      → ss ≡ busy ++ s ∷ rest
      → ss' ≡ busy ++ s' ∷ rest
      → taken ≡ some (i + length busy)
      → (is_free s.state ≡ true) ⊎ (ready (i + length busy) ≡ true)
      → s'.state ≡ infer_pending
      → Acquired ready i ss ss' taken

abbrev AcquireOf : (ℕ → Bool) → ℕ → List OsdDetSlot → Type 0
AcquireOf ready i ss =
    Acquired ready i ss (acquire_free_slot_from ready i ss).0 (acquire_free_slot_from ready i ss).1

later :
    (ready : ℕ → Bool) (i : ℕ) (s : OsdDetSlot) (ss ss' : List OsdDetSlot) (taken : Option ℕ)
    → is_free s.state ≡ false
    → ready i ≡ false
    → Acquired ready (suc i) ss ss' taken
    → Acquired ready i (s ∷ ss) (s ∷ ss') taken
later ready i s ss ss' taken f r (all_busy b e t) = all_busy (f, r, b) (ap (◌∷◌ s) e) t
later ready i s ss ss' taken f r (first busy rest x x' b e e' t why p) =
    first (s ∷ busy) rest x x' (f, r, b) (ap (◌∷◌ s) e) (ap (◌∷◌ s) e') (t ∙ ap some (omega arith))
      (elim why [ inl y ↦ inl y | inr y ↦ inr (subst (λ k. ready k ≡ true) (omega arith) y) ]) p

-- On any slots, the acquisition takes the first that is free or whose event is done, marks it as
-- pending and changes no other slot; if there is none it takes none and nothing changes.
pub acquire_free_slot_from-Acquired :
    (ready : ℕ → Bool) (i : ℕ) (ss : List OsdDetSlot) → AcquireOf ready i ss
unfolding acquire_free_slot_from
acquire_free_slot_from-Acquired ready i [] = all_busy tt refl refl
acquire_free_slot_from-Acquired ready i (s ∷ ss) = elim (Bool-cases (is_free s.state)) [
  | inl f ↦ simp (f) (
      first [] ss s (record s { state = infer_pending }) tt refl refl (ap some (omega arith))
        (inl f) refl)
  | inr f ↦ elim (Bool-cases (ready i)) [
    | inl r ↦
        simp (f, r)
          (first [] ss s (record (osd_release_slot s) { state = infer_pending }) tt refl refl
            (ap some (omega arith)) (inr (subst (λ k. ready k ≡ true) (omega arith) r)) refl)
    | inr r ↦
        simp (f, r)
          (later ready i s ss (acquire_free_slot_from ready (suc i) ss).0
            (acquire_free_slot_from ready (suc i) ss).1 f r
            (acquire_free_slot_from-Acquired ready (suc i) ss))
  ]
]

-- A slot whose result is for the frame.
abbrev pub holds : ℕ → OsdDetSlot → Bool
holds f s = not (is_free s.state) && s.frame_seq == f

abbrev pub NoneHolds : ℕ → List OsdDetSlot → Type 0
NoneHolds f [] = Unit {0}
NoneHolds f (s ∷ ss) = (holds f s ≡ false) × NoneHolds f ss

find-none :
    (ss : List OsdDetSlot) (i f : ℕ) → NoneHolds f ss → find_slot_by_frame_seq_from ss i f ≡ none
unfolding find_slot_by_frame_seq_from
find-none [] i f h = refl
find-none (s ∷ ss) i f h = simp (h.0, find-none ss (suc i) f h.1)

released-NoneHolds : (ss : List OsdDetSlot) (f : ℕ) → NoneHolds f (release_all ss)
unfolding release_all osd_release_slot
released-NoneHolds [] f = tt
released-NoneHolds (s ∷ ss) f = (refl, released-NoneHolds ss f)

find_first :
    (busy rest : List OsdDetSlot) (s : OsdDetSlot) (i f : ℕ)
    → NoneHolds f busy
    → holds f s ≡ true
    → find_slot_by_frame_seq_from (busy ++ s ∷ rest) i f ≡ some (i + length busy)
unfolding find_slot_by_frame_seq_from
find_first [] rest s i f n h = simp (h) (ap some (omega arith))
find_first (x ∷ busy) rest s i f n h =
    simp (n.0) (find_first busy rest s (suc i) f n.1 h ∙ ap some (omega arith))

-- The search finds the first pending slot with the frame asked for, if no slot before it has it, and
-- nothing if none has it; so it finds nothing after all slots are released.
pub find_slot-first :
    (busy rest : List OsdDetSlot) (s : OsdDetSlot) (i f : ℕ)
    → NoneHolds f busy
    → holds f s ≡ true
    → (find_slot_by_frame_seq_from (busy ++ s ∷ rest) i f ≡ some (i + length busy))
      × (find_slot_by_frame_seq_from busy i f ≡ none)
      × (find_slot_by_frame_seq_from (release_all (busy ++ s ∷ rest)) i f ≡ none)
find_slot-first busy rest s i f n h = (
  find_first busy rest s i f n h,
  find-none busy i f n,
  find-none (release_all (busy ++ s ∷ rest)) i f (released-NoneHolds (busy ++ s ∷ rest) f),
)

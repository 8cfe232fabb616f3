-- ===== src/Track/Closest.antt =====
-- k180_tracking.cpp: the search for the detection that overlaps a track's box most.
use mathlib.Core.Bool.{false≢true}
use k180_project.Base.{
  ℕ, zero, suc, ◌≡◌, refl, sym, ◌∙◌, subst, inl, inr, Bool, true, false, [], ◌∷◌, get_elem?, Option,
  some, arith, Floats, Bool-cases,
}
use k180_project.Detection.{Detection}
use k180_project.Track.{STrack, Marks, iou_with, iou_threshold, closest}

-- What IEEE 754 says of the comparisons, NaN included: `le a a` holds of every number and of no NaN.
pub record IsIeee (fl : Floats) : Type 0 where
  pub irreflexive : (a : fl.F) → fl.lt a a ≡ false
  pub trans : (a b c : fl.F) → fl.lt a b ≡ true → fl.lt b c ≡ true → fl.lt a c ≡ true
  pub number : (a b : fl.F) → fl.lt a b ≡ true → fl.le b b ≡ true
  pub between :
      (a v x : fl.F) → fl.le v v ≡ true → fl.lt a x ≡ true → fl.lt v x ≡ false → fl.lt a v ≡ true
  pub below :
      (t v x : fl.F) → fl.le v v ≡ true → fl.le t v ≡ false → fl.le t x ≡ true → fl.lt v x ≡ true
  pub zero_number : fl.le (fl.lit 0 1) (fl.lit 0 1) ≡ true
  pub threshold : fl.le (fl.lit 3 10) (fl.lit 0 1) ≡ false

module _ (fl : Floats) where
  open fl use {F, lt, le}

  -- No detection that is not used overlaps more than `v`.
  abbrev pub IsTop : STrack fl → Marks fl → F → Type 0
  IsTop track res v =
      (j : ℕ) (det : Detection F)
      → get_elem? res j ≡ some (det, false)
      → lt v (iou_with fl track det) ≡ false

  -- None overlaps enough.
  abbrev pub IsMissed : STrack fl → Marks fl → Type 0
  IsMissed track res =
      (j : ℕ) (det : Detection F)
      → get_elem? res j ≡ some (det, false)
      → le (iou_threshold fl) (iou_with fl track det) ≡ false

  module _ (law : IsIeee fl) where
    not_both : (b : Bool) → (b ≡ true → ⊥) → b ≡ false
    not_both true h = absurd (h refl)
    not_both false h = refl

    same_det :
        (d d' : Detection F) (u u' : Bool)
        → Path (Option (Detection F × Bool)) (some (d, u)) (some (d', u'))
        → (d ≡ d') × (u ≡ u')
    same_det d d' u u' e = ground arith

    used-IsTop :
        (track : STrack fl) (det : Detection F) (res : Marks fl) (v : F)
        → IsTop track res v
        → IsTop track ((det, true) ∷ res) v
    used-IsTop track det res v t zero d e =
        absurd (false≢true (sym (same_det det d true false e).1))
    used-IsTop track det res v t (suc j) d e = t j d e

    free-IsTop :
        (track : STrack fl) (det : Detection F) (res : Marks fl) (v : F)
        → lt v (iou_with fl track det) ≡ false
        → IsTop track res v
        → IsTop track ((det, false) ∷ res) v
    free-IsTop track det res v l t zero d e =
        subst (λ x. lt v (iou_with fl track x) ≡ false) (same_det det d false false e).0 l
    free-IsTop track det res v l t (suc j) d e = t j d e

    -- The overlap found is a number, not less than the first, and the greatest.
    pub closest-IsTop :
        (track : STrack fl) (res : Marks fl) (i : ℕ) (best : Option (ℕ × Detection F)) (v : F)
        → le v v ≡ true
        → let r = (closest fl track res i best v).1 in
          (le r r ≡ true) × (lt r v ≡ false) × IsTop track res r
    unfolding closest
    closest-IsTop track [] i best v n = (n, law.irreflexive v, λ j det e. absurd (ground arith))
    closest-IsTop track ((det, true) ∷ res) i best v n =
        let (m, l, t) = closest-IsTop track res (suc i) best v n in
        (m, l, used-IsTop track det res (closest fl track res (suc i) best v).1 t)
    closest-IsTop track ((det, false) ∷ res) i best v n =
        let x = iou_with fl track det in
        elim (Bool-cases (lt v x)) [
          | inl b ↦
              let r = (closest fl track res (suc i) (some (i, det)) x).1 in
              let (m, l, t) =
                closest-IsTop track res (suc i) (some (i, det)) x (law.number v x b) in
              simp (b) (
                m,
                not_both (lt r v) (λ h. false≢true (sym l ∙ law.trans r v x h b)),
                free-IsTop track det res r l t,
              )
          | inr b ↦
              let r = (closest fl track res (suc i) best v).1 in
              let (m, l, t) = closest-IsTop track res (suc i) best v n in
              let top : lt r x ≡ false =
                not_both (lt r x) (λ h. false≢true (sym l ∙ law.between r v x n h b)) in
              simp (b) (m, l, free-IsTop track det res r top t)
        ]

    -- Where the greatest overlap is not enough, none is.
    pub top-IsMissed :
        (track : STrack fl) (res : Marks fl) (v : F)
        → le v v ≡ true
        → le (iou_threshold fl) v ≡ false
        → IsTop track res v
        → IsMissed track res
    top-IsMissed track res v n f t j det e =
        let x = iou_with fl track det in
        not_both (le (iou_threshold fl) x)
          (λ h. false≢true (sym (t j det e) ∙ law.below (iou_threshold fl) v x n f h))
